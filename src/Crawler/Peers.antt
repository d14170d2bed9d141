-- ===== src/Crawler/Peers.antt =====
-- The operations on one peer's row: CrawlNode, BanNode and UnbanNode of crawler/crawler.go, and
-- the updatePeer callback that listenPeers registers there.
pub mod Rows
pub mod Ban
pub mod Gate
pub mod Unpin
use obcrawler.Base.{
  ℕ, String, Bool, true, false, Option, none, some, List, [], ◌∷◌, ◌++◌, if◌then◌else◌,
}
use obcrawler.Go.{GoError, message, Result, ok, err, tolerate}
use obcrawler.Ipfs.{Ipfs, Job}
use obcrawler.Repo.Models.{Peer, CidRecord, blank}
use obcrawler.Repo.Gorm.{Gorm, peer_id_is, owner_is}
use obcrawler.Repo.Database.{Outcome, update, view}

-- A row that was found, or the zero value that First leaves in `peer`.
abbrev pub or_blank : Option Peer → Peer
or_blank none = blank
or_blank (some p) = p

-- The row after a connection was made or lost. The clock is read once for a new peer's
-- FirstSeen and then for LastSeen.
abbrev pub touched : String → ℕ → ℕ → Option Peer → Peer
touched id first now none = record blank { first_seen = first; peer_id = id; last_seen = now }
touched id first now (some p) = record p { last_seen = now }

module _ (G : Gorm) where
  -- db.Where("peer_id=?", id).First(&peer), where a missing record is no error
  unfoldable pub load_peer : String → G.State → Result (Option Peer)
  load_peer id s = tolerate (G.first_peer (peer_id_is id ∷ []) s)

  -- `return db.Save(&peer).Error`, with the captured variables so far
  unfoldable pub save_last : {A : Type 0} → A → Peer → G.State → Outcome G.State A
  save_last a p s = let (e, t) = G.save_peer p s in (a, e, t)

  -- `return db.Where("peer_id=?", id).Find(&cidsRecs).Error`
  unfoldable pub find_records : String → G.State → Outcome G.State (List CidRecord)
  find_records id s = elim (G.find_cids (owner_is id ∷ []) s) [
    | ok rs ↦ (rs, none, s)
    | err e ↦ ([], some e, s)
  ]

  -- `if err := db.Save(&peer).Error; err != nil { return err }`, and the rest of BanNode's closure
  unfoldable pub save_and_find : Peer → String → G.State → Outcome G.State (List CidRecord)
  unfolding find_records
  save_and_find p id s =
      let (e, t) = G.save_peer p s in elim e [ none ↦ find_records id t | some x ↦ ([], some x, t) ]

module _ (G : Gorm) (I : Ipfs) where
  unfoldable pub check_body : I.PeerId → G.State → Outcome G.State (Unit {0})
  unfolding load_peer
  check_body pid s = elim (load_peer G (I.pretty pid) s) [
    | ok found ↦
        if (or_blank found).banned then (tt, some (message "peer is banned"), s) else (tt, none, s)
    | err e ↦ (tt, some e, s)
  ]

  -- The job that CrawlNode sends. The send is in a goroutine of its own, so it never blocks the
  -- call: the jobs that an operation starts to send are a part of its result.
  abbrev pub manual_job : Bool → I.PeerId → Job I
  manual_job pin_records pid = record {
    peer = pid;
    ipns_record = none;
    expiration = 0;
    fetch_new_record = true;
    pin_record = pin_records;
  }

  unfoldable pub crawl_node : Bool → I.PeerId → G.State → Outcome G.State (List (Job I))
  unfolding check_body view
  crawl_node pin_records pid s =
      let (_, e, t) = view G (check_body pid) s in
      elim e [ none ↦ (manual_job pin_records pid ∷ [], none, t) | some x ↦ ([], some x, t) ]

  -- The calls of Pin().Rm that unpinCID makes, and its error. The errors of Rm are dropped.
  unfoldable pub unpin_cid : List I.Node → I.Cid → List (I.Node × I.Cid) × Option GoError
  unpin_cid [] c = ([], none)
  unpin_cid (n ∷ ns) c = elim (I.core_api n) [
    | none ↦ let (calls, e) = unpin_cid ns c in ((n, c) ∷ calls, e)
    | some e ↦ ([], some e)
  ]

  -- The loop over a peer's records: what does not decode is skipped, an error is only logged.
  unfoldable pub unpin_records : List I.Node → List CidRecord → List (I.Node × I.Cid)
  unfolding unpin_cid
  unpin_records nodes [] = []
  unpin_records nodes (r ∷ rs) = elim (I.decode_cid r.cid) [
    | ok c ↦ (unpin_cid nodes c).0 ++ unpin_records nodes rs
    | err e ↦ unpin_records nodes rs
  ]

  unfoldable pub ban_body : I.PeerId → G.State → Outcome G.State (List CidRecord)
  unfolding load_peer save_and_find
  ban_body pid s = elim (load_peer G (I.pretty pid) s) [
    | ok found ↦
        save_and_find G (record (or_blank found) { peer_id = I.pretty pid; banned = true })
          (I.pretty pid) s
    | err e ↦ ([], some e, s)
  ]

  unfoldable pub ban_node :
      List I.Node → I.PeerId → G.State → Outcome G.State (List (I.Node × I.Cid))
  unfolding ban_body unpin_records update
  ban_node nodes pid s =
      let (rs, e, t) = update G (ban_body pid) s in
      elim e [ none ↦ (unpin_records nodes rs, none, t) | some x ↦ ([], some x, t) ]

  unfoldable pub unban_body : I.PeerId → G.State → Outcome G.State (Unit {0})
  unfolding load_peer save_last
  unban_body pid s = elim (load_peer G (I.pretty pid) s) [
    | ok found ↦
        save_last G tt (record (or_blank found) { peer_id = I.pid_string pid; banned = false }) s
    | err e ↦ (tt, some e, s)
  ]

  unfoldable pub unban_node : I.PeerId → G.State → Outcome G.State (Unit {0})
  unfolding unban_body update
  unban_node pid s = update G (unban_body pid) s

  unfoldable pub seen_body : I.PeerId → ℕ → ℕ → G.State → Outcome G.State (Unit {0})
  unfolding load_peer save_last
  seen_body pid first now s = elim (load_peer G (I.pretty pid) s) [
    | ok found ↦ save_last G tt (touched (I.pretty pid) first now found) s
    | err e ↦ (tt, some e, s)
  ]

  -- An error is only logged.
  unfoldable pub update_peer : I.PeerId → ℕ → ℕ → G.State → G.State
  unfolding seen_body update
  update_peer pid first now s = (update G (seen_body pid first now) s).2
