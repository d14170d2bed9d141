-- ===== src/Crawler/Worker/Marked.antt =====
-- The row that the last transaction of processJob (crawler/worker.go) leaves.
use obcrawler.Base.{
  ℕ, String, ◌≡◌, ◌≢◌, ◌∙◌, sym, Option, none, some, same, if◌then◌else◌, ◌⊎◌, inl, inr, string_dec,
}
use obcrawler.Go.{ok}
use obcrawler.Ipfs.{Ipfs, Job}
use obcrawler.Repo.Models.{Peer}
use obcrawler.Repo.Gorm.{Gorm, IsLawful}
use obcrawler.Repo.Database.{Outcome, update, finish}
use obcrawler.Repo.Database.Atomic.{update_done}
use obcrawler.Crawler.Network.{Network}
use obcrawler.Crawler.Peers.{load_peer, save_last, or_blank}
use obcrawler.Crawler.Peers.Rows.{load_peer-row}
use obcrawler.Crawler.Worker.Run.{crawled, crawled_body}

-- No statement of the database fails that gorm does not have to refuse: a row whose key is not empty
-- is updated or inserted, but one with the empty key is always inserted, so it must not be there.
pub record Reliable (G : Gorm) : Type 0 where
  pub loads : (id : String) (s : G.State) → (found : Option Peer) × (load_peer G id s ≡ ok found)
  pub saves :
      (p : Peer) (s : G.State)
      → (p.peer_id ≢ "") ⊎ (G.peer_row s p.peer_id ≡ none)
      → (G.save_peer p s).0 ≡ none
  pub commits : (s t : G.State) → (G.commit s t).0 ≡ none

module _ (G : Gorm) (L : IsLawful G) (I : Ipfs) (N : Network I) where
  -- The row that the deferred update saves has a key, or is inserted where there is none yet.
  abbrev pub Savable : Job I → G.State → Type 0
  Savable j s =
      ((or_blank (G.peer_row s (I.pretty j.peer))).peer_id ≢ "") ⊎ (G.peer_row s "" ≡ none)

  saves_key :
      (j : Job I) (s : G.State) (found : Option Peer)
      → found ≡ G.peer_row s (I.pretty j.peer)
      → Savable j s
      → ((or_blank found).peer_id ≢ "") ⊎ (G.peer_row s (or_blank found).peer_id ≡ none)
  saves_key j s found e (inl keyed) = inl (rw e keyed)
  saves_key j s none e (inr free) = inr free
  saves_key j s (some p) e (inr free) = elim (string_dec p.peer_id "") [
    | yes keyless ↦ inr (rw keyless free)
    | no keyed ↦ inl keyed
  ]

  crawled_body-row :
      (j : Job I) (ca pa : ℕ) (s : G.State) (id : String)
      → Reliable G
      → Savable j s
      → let k = crawled G I N j ca pa (G.peer_row s (I.pretty j.peer)) in
        ((crawled_body G I N j ca pa s).1 ≡ none)
        × (G.peer_row (crawled_body G I N j ca pa s).2 id
            ≡ (if same id k.peer_id then some k else G.peer_row s id))
  unfolding crawled_body save_last
  crawled_body-row j ca pa s id R savable =
      let (found, e) = R.loads (I.pretty j.peer) s in
      let row = load_peer-row G L (I.pretty j.peer) s found e in
      let k = crawled G I N j ca pa found in
      let saved = R.saves k s (saves_key j s found (sym row) savable) in
      rw (e, crawled_body, row) (saved, L.save_peer_row k s id saved)

  update-Reliable :
      {A : Type 0} (fn : G.State → Outcome G.State A) (s : G.State)
      → Reliable G
      → (fn (G.begin s)).1 ≡ none
      → (update G fn s).1 ≡ none
  unfolding update finish
  update-Reliable fn s R h = rw (h, finish) (R.commits s (fn (G.begin s)).2)

  Savable-begin : (j : Job I) (s : G.State) → Savable j s → Savable j (G.begin s)
  Savable-begin j s (inl keyed) = inl (rw ((L.begin_tables s).rows (I.pretty j.peer)) keyed)
  Savable-begin j s (inr free) = inr ((L.begin_tables s).rows "" ∙ free)

  pub mark-row :
      (j : Job I) (ca pa : ℕ) (s : G.State) (id : String)
      → Reliable G
      → Savable j s
      → let k = crawled G I N j ca pa (G.peer_row s (I.pretty j.peer)) in
        G.peer_row (update G (crawled_body G I N j ca pa) s).2 id
        ≡ (if same id k.peer_id then some k else G.peer_row s id)
  mark-row j ca pa s id R savable =
      let start = L.begin_tables s in
      let (quiet, row) = crawled_body-row j ca pa (G.begin s) id R (Savable-begin j s savable) in
      let done = update_done G L (crawled_body G I N j ca pa) s (update-Reliable _ s R quiet) in
      done.1.rows id ∙ row ∙ rw (start.rows id, start.rows (I.pretty j.peer))
