-- ===== src/Crawler/Worker/Steps.antt =====
-- What processJob does to the database, as steps of the whole crawler.
use obcrawler.Base.{ℕ, String, ◌≡◌, ◌≢◌, ◌∙◌, ap, none, some, arith, inl, inr, Option-cases}
use obcrawler.Go.{Result-cases}
use obcrawler.Ipfs.{Ipfs, Job}
use obcrawler.Repo.Gorm.{Gorm, IsLawful}
use obcrawler.Repo.Database.{update}
use obcrawler.Repo.Database.Atomic.{update_done, update_atomic}
use obcrawler.Crawler.Network.{Network}
use obcrawler.Crawler.Peers.{load_peer, save_last}
use obcrawler.Crawler.Pubsub.{Message}
use obcrawler.Crawler.Records.Others.{update-others}
use obcrawler.Crawler.Worker.Defs.{Work}
use obcrawler.Crawler.Worker.Run.{Setup, crawled, crawled_body, process_job}
use obcrawler.Crawler.Worker.Job.{process_job-ended, run_deferred-db}
use obcrawler.Crawler.System.{System, Reach, here, next, saves, marks}

module _ (G : Gorm) (L : IsLawful G) (I : Ipfs) (N : Network I) where
  crawled_body-copies :
      (j : Job I) (ca pa : ℕ) (s : G.State) (a o : String)
      → (crawled_body G I N j ca pa s).1 ≡ none
      → G.copies (crawled_body G I N j ca pa s).2 a o ≡ G.copies s a o
  unfolding crawled_body save_last
  crawled_body-copies j ca pa s a o h = elim (Result-cases (load_peer G (I.pretty j.peer) s)) [
    | inl (found, e) ↦ ground (arith, L.save_peer_copies (crawled G I N j ca pa found) s a o)
    | inr (x, e) ↦ ground arith
  ]

  mark-copies :
      (j : Job I) (ca pa : ℕ) (s : G.State) (a o : String)
      → G.copies (update G (crawled_body G I N j ca pa) s).2 a o ≡ G.copies s a o
  mark-copies j ca pa s a o = elim (Option-cases (update G (crawled_body G I N j ca pa) s).1) [
    | inl e ↦
        let (body, tables) = update_done G L (crawled_body G I N j ca pa) s e in
        tables.copies a o
        ∙ crawled_body-copies j ca pa (G.begin s) a o body
        ∙ (L.begin_tables s).copies a o
    | inr (x, e) ↦ (update_atomic G L (crawled_body G I N j ca pa) s x e).copies a o
  ]

  -- However a crawl goes, it leaves the CID records of all other peers as they were.
  pub process_job-others :
      (c : Setup I) (n : I.Node) (ca pa : ℕ) (j : Job I) (w : N.World) (db : G.State)
      (t : Work G I N) (a o : String)
      → o ≢ I.pretty j.peer
      → process_job G I N c n ca pa j w db ≡ some t
      → G.copies t.db a o ≡ G.copies db a o
  process_job-others c n ca pa j w db t a o ne h =
      let (s, back, e) = process_job-ended G L I N c n ca pa j w db t h in
      ap (λ (u : Work G I N). G.copies u.db a o) e
      ∙ ap (λ (d : G.State). G.copies d a o) (run_deferred-db G L I N n ca pa s)
      ∙ mark-copies s.job ca pa s.db a o
      ∙ elim back.stage [
        | inl same_db ↦ rw same_db
        | inr (graph, saved) ↦ rw saved (update-others G L I (I.pretty j.peer) graph db a o ne)
      ]

  -- What a crawl does to the database, if it returns, is what steps of the whole crawler do that
  -- are no UnbanNode: at most one transaction on the records, and one that marks the peer's row.
  pub process_job-Reach :
      (message_id : Message I → String) (kept : String) (c : Setup I) (n : I.Node) (ca pa : ℕ)
      (j : Job I) (w : N.World) (s : System G I) (t : Work G I N)
      → process_job G I N c n ca pa j w s.db ≡ some t
      → Reach G I N message_id kept s (record s { db = t.db })
  process_job-Reach message_id kept c n ca pa j w s t h =
      let (u, back, e) = process_job-ended G L I N c n ca pa j w s.db t h in
      let last : t.db ≡ (update G (crawled_body G I N u.job ca pa) u.db).2 =
        ap (λ (v : Work G I N). v.db) e ∙ run_deferred-db G L I N n ca pa u in
      let before : Reach G I N message_id kept s (record s { db = u.db }) = elim back.stage [
        | inl same_db ↦ rw same_db here
        | inr (graph, saved) ↦ rw saved (next here (saves j graph))
      ] in
      rw last (next before (marks u.job ca pa))
