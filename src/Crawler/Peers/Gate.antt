-- ===== src/Crawler/Peers/Gate.antt =====
-- Which peers CrawlNode queues.
use obcrawler.Base.{◌≡◌, ◌≢◌, Bool, false, none, List, [], ◌∷◌, arith, inl, inr, ◌⊎◌, Option-cases}
use obcrawler.Go.{Result-cases}
use obcrawler.Ipfs.{Ipfs}
use obcrawler.Repo.Gorm.{Gorm, IsLawful, SameTables}
use obcrawler.Repo.Database.{update, view}
use obcrawler.Repo.Database.Atomic.{update_done, update_pure}
use obcrawler.Crawler.Peers.{or_blank, load_peer, check_body, crawl_node, manual_job, ban_node}
use obcrawler.Crawler.Peers.Rows.{load_peer-row}
use obcrawler.Crawler.Peers.Ban.{ban_node-row}

module _ (G : Gorm) (L : IsLawful G) (I : Ipfs) where
  check_body-open :
      (pid : I.PeerId) (s : G.State)
      → (check_body G I pid s).1 ≡ none
      → (or_blank (G.peer_row s (I.pretty pid))).banned ≡ false
  unfolding check_body
  check_body-open pid s h = elim (Result-cases (load_peer G (I.pretty pid) s)) [
    | inl (found, e) ↦ ground (arith, load_peer-row G L (I.pretty pid) s found e)
    | inr (x, e) ↦ ground arith
  ]

  -- CrawlNode either queues one job for the peer, which fetches a new record, and then the peer is
  -- not marked as banned; or it returns an error and queues nothing.
  pub crawl_node-gate :
      (pin : Bool) (pid : I.PeerId) (s : G.State)
      → ((crawl_node G I pin pid s).1 ≡ none)
          × ((crawl_node G I pin pid s).0 ≡ manual_job G I pin pid ∷ [])
          × ((or_blank (G.peer_row s (I.pretty pid))).banned ≡ false)
        ⊎ ((crawl_node G I pin pid s).1 ≢ none) × ((crawl_node G I pin pid s).0 ≡ [])
  unfolding crawl_node view update
  crawl_node-gate pin pid s = elim (Option-cases (view G (check_body G I pid) s).1) [
    | inl e ↦
        let done = update_done G L (check_body G I pid) s e in
        inl (
          ground arith,
          ground arith,
          ground (
            arith,
            check_body-open pid (G.begin s) done.0,
            (L.begin_tables s).rows (I.pretty pid),
          ),
        )
    | inr (x, e) ↦ inr (ground arith, ground arith)
  ]

  check_body-state : (pid : I.PeerId) (s : G.State) → (check_body G I pid s).2 ≡ s
  unfolding check_body
  check_body-state pid s = ground arith

  crawl_node-state :
      (pin : Bool) (pid : I.PeerId) (s : G.State)
      → (crawl_node G I pin pid s).2 ≡ (view G (check_body G I pid) s).2
  unfolding crawl_node
  crawl_node-state pin pid s = ground arith

  -- CrawlNode changes no row and no record.
  pub crawl_node-pure :
      (pin : Bool) (pid : I.PeerId) (s : G.State) → SameTables G (crawl_node G I pin pid s).2 s
  unfolding view update
  crawl_node-pure pin pid s =
      rw crawl_node-state (update_pure G L (check_body G I pid) s (check_body-state pid))

  -- After a BanNode that reported no error, CrawlNode of the same peer is refused.
  pub crawl-ban :
      (nodes : List I.Node) (pin : Bool) (pid : I.PeerId) (s : G.State)
      → (ban_node G I nodes pid s).1 ≡ none
      → let t = (ban_node G I nodes pid s).2 in
        ((crawl_node G I pin pid t).1 ≢ none) × ((crawl_node G I pin pid t).0 ≡ [])
  crawl-ban nodes pin pid s h = elim (crawl_node-gate pin pid (ban_node G I nodes pid s).2) [
    | inl queued ↦ ground (arith, ban_node-row G L I nodes pid s (I.pretty pid) h, queued.2)
    | inr refused ↦ refused
  ]
