-- ===== src/Crawler/Ticks.antt =====
-- The two tickers of Start in crawler/crawler.go that read the database: the one that queues old
-- peers to be crawled again, and the one that unpins. The clock is read at each use of it.
pub mod Due
pub mod Alive
pub mod Loop
use obcrawler.Base.{
  ℕ, ◌-◌, ◌*◌, ◌≤◌, ◌<◌, ◌≡◌, refl, ◌∙◌, sym, Bool, true, false, Option, none, some, List, [], ◌∷◌,
  ◌++◌, arith, All, All-append, length, length-append, if◌then◌else◌, Bool-cases, inl, inr, All-map,
}
use obcrawler.Go.{GoError, record_not_found, Result, ok, err}
use obcrawler.Ipfs.{Ipfs, Job}
use obcrawler.Repo.Models.{Peer, CidRecord}
use obcrawler.Repo.Gorm.{
  Gorm, IsLawful, PeerFilter, peer_matches_all, banned_is, ipns_expiration_after,
  last_crawled_before, last_seen_after,
}
use obcrawler.Repo.Database.{Outcome, view, update}
use obcrawler.Repo.Database.Atomic.{update_captured}
use obcrawler.Crawler.Peers.{find_records, unpin_records}

-- time.Hour * 24
abbrev pub day : ℕ
day = 24 * 3600 * 1000000000

abbrev pub old_filters : ℕ → ℕ → ℕ → List PeerFilter
old_filters t₁ t₂ t₃ =
    banned_is false
    ∷ ipns_expiration_after t₁
    ∷ last_crawled_before (t₂ - day * 7)
    ∷ last_seen_after (t₃ - day * 90)
    ∷ []

abbrev pub unpin_filters : ℕ → ℕ → List PeerFilter
unpin_filters t₁ t₂ = ipns_expiration_after t₁ ∷ last_seen_after (t₂ - day * 90) ∷ []

-- `if err != nil && !errors.Is(err, gorm.ErrRecordNotFound) { continue }`: whether to go on
abbrev pub goes_on : Option GoError → Bool
goes_on none = true
goes_on (some record_not_found) = true
goes_on (some e) = false

module _ (G : Gorm) where
  abbrev pub peers_found : Result (List Peer) → G.State → Outcome G.State (List Peer)
  peers_found (ok ps) s = (ps, none, s)
  peers_found (err e) s = ([], some e, s)

  unfoldable pub find_body : List PeerFilter → G.State → Outcome G.State (List Peer)
  find_body fs s = peers_found (G.find_peers fs 10 s) s

module _ (G : Gorm) (I : Ipfs) where
  abbrev pub old_job : Bool → Peer → I.PeerId → I.Entry → Job I
  old_job pin p pid rec = record {
    peer = pid;
    ipns_record = some rec;
    expiration = p.ipns_expiration;
    fetch_new_record = true;
    pin_record = pin;
  }

  abbrev pub job_of : Bool → Peer → Result I.PeerId → Result I.Entry → List (Job I)
  job_of pin p (ok pid) (ok rec) = old_job pin p pid rec ∷ []
  job_of pin p (ok pid) (err e) = []
  job_of pin p (err e) r = []

  -- The jobs, in the order of the rows; a row that does not decode is skipped.
  unfoldable pub old_jobs : Bool → List Peer → List (Job I)
  old_jobs pin [] = []
  old_jobs pin (p ∷ ps) =
      job_of pin p (I.decode_peer p.peer_id) (I.unmarshal_entry p.ipns_record) ++ old_jobs pin ps

  abbrev pub jobs_after : Bool → Outcome G.State (List Peer) → List (Job I) × G.State
  jobs_after pin (ps, e, s) = (if goes_on e then old_jobs pin ps else [], s)

  unfoldable pub old_tick : Bool → ℕ → ℕ → ℕ → G.State → List (Job I) × G.State
  unfolding old_jobs find_body view
  old_tick pin t₁ t₂ t₃ s = jobs_after pin (view G (find_body G (old_filters t₁ t₂ t₃)) s)

  abbrev pub unpins_after :
      List I.Node → Outcome G.State (List CidRecord) → List (I.Node × I.Cid) × G.State
  unpins_after nodes (rs, e, s) = (if goes_on e then unpin_records G I nodes rs else [], s)

  -- The loop over the peers, each with a transaction of its own.
  unfoldable pub unpin_peers : List I.Node → List Peer → G.State → List (I.Node × I.Cid) × G.State
  unfolding unpin_records find_records view
  unpin_peers nodes [] s = ([], s)
  unpin_peers nodes (p ∷ ps) s =
      let (calls, t) = unpins_after nodes (view G (find_records G p.peer_id) s) in
      let (rest, u) = unpin_peers nodes ps t in (calls ++ rest, u)

  abbrev pub unpins_of : List I.Node → Outcome G.State (List Peer) → List (I.Node × I.Cid) × G.State
  unpins_of nodes (ps, e, s) = if goes_on e then unpin_peers nodes ps s else ([], s)

  unfoldable pub unpin_tick : List I.Node → ℕ → ℕ → G.State → List (I.Node × I.Cid) × G.State
  unfolding unpin_peers find_body view
  unpin_tick nodes t₁ t₂ s = unpins_of nodes (view G (find_body G (unpin_filters t₁ t₂)) s)
