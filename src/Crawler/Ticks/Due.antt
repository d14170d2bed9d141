-- ===== src/Crawler/Ticks/Due.antt =====
-- For which peers the tickers of Start (crawler/crawler.go) queue jobs and unpin.
use obcrawler.Base.{
  ℕ, ◌-◌, ◌*◌, ◌≤◌, ◌<◌, ◌≡◌, refl, ◌∙◌, sym, Bool, true, false, some, List, [], ◌∷◌, arith, All,
  All-append, length, length-append, Bool-cases, inl, inr, All-map,
}
use obcrawler.Go.{Result, ok, err}
use obcrawler.Ipfs.{Ipfs, Job}
use obcrawler.Repo.Models.{Peer}
use obcrawler.Repo.Gorm.{Gorm, IsLawful, PeerFilter, peer_matches_all}
use obcrawler.Repo.Database.{view, update}
use obcrawler.Repo.Database.Atomic.{update_captured}
use obcrawler.Crawler.Ticks.{
  day, old_filters, unpin_filters, goes_on, peers_found, find_body, job_of, old_jobs, old_tick,
}

module _ (G : Gorm) (L : IsLawful G) (I : Ipfs) where
  -- A row that the query may return.
  abbrev pub Row : List PeerFilter → G.State → Peer → Type 0
  Row fs s p = (G.peer_row s p.peer_id ≡ some p) × (peer_matches_all fs p ≡ true)

  peers_found-rows :
      (fs : List PeerFilter) (s : G.State) (r : Result (List Peer))
      → G.find_peers fs 10 s ≡ r
      → All (Row fs s) (peers_found G r s).0 × (length (peers_found G r s).0 ≤ 10)
  peers_found-rows fs s (ok ps) h =
      let (rows, few, _) = L.find_peers_found fs 10 s ps h in (rows, few)
  peers_found-rows fs s (err e) h = (tt, omega arith)

  pub found_rows :
      (fs : List PeerFilter) (s : G.State)
      → All (Row fs (G.begin s)) (view G (find_body G fs) s).0
        × (length (view G (find_body G fs) s).0 ≤ 10)
  unfolding find_body view update
  found_rows fs s =
      rw (update_captured G (find_body G fs) s) (peers_found-rows fs (G.begin s) _ refl)

  -- Why a peer is due: its record has not expired, its last crawl is a week old, it was seen in the
  -- last ninety days, and it is not banned.
  pub record IsDue (s : G.State) (pin : Bool) (t₁ t₂ t₃ : ℕ) (j : Job I) : Type 0 where
    pub due : Peer
    pub row : G.peer_row s due.peer_id ≡ some due
    pub not_banned : due.banned ≡ false
    pub unexpired : t₁ < due.ipns_expiration
    pub crawled_long_ago : due.last_crawled < t₂ - day * 7
    pub seen_lately : t₃ - day * 90 < due.last_seen
    pub its_id : I.decode_peer due.peer_id ≡ ok j.peer
    pub expiration : j.expiration ≡ due.ipns_expiration
    pub refetched : j.fetch_new_record ≡ true
    pub pinned_as_set : j.pin_record ≡ pin

  job_of-IsDue :
      (pin : Bool) (t₁ t₂ t₃ : ℕ) (s : G.State) (p : Peer) (r : Result I.PeerId)
      (q : Result I.Entry)
      → G.peer_row s p.peer_id ≡ some p
      → peer_matches_all (old_filters t₁ t₂ t₃) p ≡ true
      → I.decode_peer p.peer_id ≡ r
      → All (IsDue s pin t₁ t₂ t₃) (job_of G I pin p r q) × (length (job_of G I pin p r q) ≤ 1)
  job_of-IsDue pin t₁ t₂ t₃ s p (ok pid) (ok rec) row m d = (
    (
      record {
        due = p;
        row = row;
        not_banned = ground arith;
        unexpired = ground arith;
        crawled_long_ago = ground arith;
        seen_lately = ground arith;
        its_id = d;
        expiration = refl;
        refetched = refl;
        pinned_as_set = refl;
      },
      tt,
    ),
    omega arith,
  )
  job_of-IsDue pin t₁ t₂ t₃ s p (ok pid) (err e) row m d = (tt, omega arith)
  job_of-IsDue pin t₁ t₂ t₃ s p (err e) q row m d = (tt, omega arith)

  old_jobs-IsDue :
      (pin : Bool) (t₁ t₂ t₃ : ℕ) (s : G.State) (ps : List Peer)
      → All (Row (old_filters t₁ t₂ t₃) s) ps
      → All (IsDue s pin t₁ t₂ t₃) (old_jobs G I pin ps)
        × (length (old_jobs G I pin ps) ≤ length ps)
  unfolding old_jobs
  old_jobs-IsDue pin t₁ t₂ t₃ s [] h = (tt, omega arith)
  old_jobs-IsDue pin t₁ t₂ t₃ s (p ∷ ps) h =
      let q = I.unmarshal_entry p.ipns_record in
      let (due, one) = job_of-IsDue pin t₁ t₂ t₃ s p (I.decode_peer p.peer_id) q h.0.0 h.0.1 refl in
      let (rest, fewer) = old_jobs-IsDue pin t₁ t₂ t₃ s ps h.1 in
      (
        All-append (IsDue s pin t₁ t₂ t₃) _ (old_jobs G I pin ps) due rest,
        omega (
          arith,
          one,
          fewer,
          length-append (job_of G I pin p (I.decode_peer p.peer_id) q) (old_jobs G I pin ps),
        ),
      )

  IsDue-begin :
      (s : G.State) (pin : Bool) (t₁ t₂ t₃ : ℕ) (j : Job I)
      → IsDue (G.begin s) pin t₁ t₂ t₃ j
      → IsDue s pin t₁ t₂ t₃ j
  IsDue-begin s pin t₁ t₂ t₃ j d = record {
    due = d.due;
    row = sym ((L.begin_tables s).rows d.due.peer_id) ∙ d.row;
    not_banned = d.not_banned;
    unexpired = d.unexpired;
    crawled_long_ago = d.crawled_long_ago;
    seen_lately = d.seen_lately;
    its_id = d.its_id;
    expiration = d.expiration;
    refetched = d.refetched;
    pinned_as_set = d.pinned_as_set;
  }

  -- Every job that the ticker for old peers queues is for a peer that is due, and there are at most
  -- ten of them.
  pub old_tick-IsDue :
      (pin : Bool) (t₁ t₂ t₃ : ℕ) (s : G.State)
      → All (IsDue s pin t₁ t₂ t₃) (old_tick G I pin t₁ t₂ t₃ s).0
        × (length (old_tick G I pin t₁ t₂ t₃ s).0 ≤ 10)
  unfolding old_tick
  old_tick-IsDue pin t₁ t₂ t₃ s =
      let fs = old_filters t₁ t₂ t₃ in
      let found = view G (find_body G fs) s in
      let (rows, few) = found_rows fs s in
      let (due, fewer) = old_jobs-IsDue pin t₁ t₂ t₃ (G.begin s) found.0 rows in
      elim (Bool-cases (goes_on found.1)) [
        | inl on ↦ rw on (All-map _ _ (IsDue-begin s pin t₁ t₂ t₃) due, omega (arith, few, fewer))
        | inr off ↦ rw off (tt, omega arith)
      ]

  -- A peer whose record has not expired and that was seen in the last ninety days.
  abbrev pub IsAlive : G.State → ℕ → ℕ → Peer → Type 0
  IsAlive s t₁ t₂ p =
      (G.peer_row s p.peer_id ≡ some p) × (t₁ < p.ipns_expiration) × (t₂ - day * 90 < p.last_seen)

  pub Row-IsAlive :
      (t₁ t₂ : ℕ) (s : G.State) (p : Peer)
      → Row (unpin_filters t₁ t₂) (G.begin s) p
      → IsAlive s t₁ t₂ p
  Row-IsAlive t₁ t₂ s p (row, m) =
      (sym ((L.begin_tables s).rows p.peer_id) ∙ row, ground arith, ground arith)
