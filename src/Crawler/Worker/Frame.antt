-- ===== src/Crawler/Worker/Frame.antt =====
-- What processJob of crawler/worker.go leaves as it is in the database.
use obcrawler.Base.{
  ℕ, String, ◌≡◌, ◌≢◌, refl, ◌∙◌, ap, Option, none, some, arith, same, inl, inr, Option-cases,
  Bool-cases,
}
use obcrawler.Ipfs.{Ipfs, Job}
use obcrawler.Repo.Models.{Peer}
use obcrawler.Repo.Gorm.{Gorm, IsLawful}
use obcrawler.Repo.Database.{update}
use obcrawler.Repo.Database.Atomic.{update_atomic}
use obcrawler.Crawler.Network.{Network}
use obcrawler.Crawler.Worker.Defs.{Work}
use obcrawler.Crawler.Worker.Run.{Setup, crawled, crawled_body, process_job}
use obcrawler.Crawler.Worker.Job.{process_job-ended, run_deferred-db}
use obcrawler.Crawler.System.Reads.{mark-row}

-- A row without its times of the last crawl and the last pin.
abbrev pub untimed : Option Peer → Option Peer
untimed none = none
untimed (some p) = some (record p { last_crawled = 0; last_pinned = 0 })

module _ (G : Gorm) (L : IsLawful G) (I : Ipfs) (N : Network I) where
  crawled-untimed :
      (j : Job I) (ca pa : ℕ) (s : G.State) (id : String) (found : Option Peer)
      → G.peer_row s (I.pretty j.peer) ≡ found
      → id ≢ ""
      → id ≡ (crawled G I N j ca pa found).peer_id
      → untimed (some (crawled G I N j ca pa found)) ≡ untimed (G.peer_row s id)
  crawled-untimed j ca pa s id none row named key = absurd (named key)
  crawled-untimed j ca pa s id (some p) row named key =
      let its_key : p.peer_id ≡ I.pretty j.peer = L.row_key s (I.pretty j.peer) p row in
      let there : G.peer_row s id ≡ some p = ap (G.peer_row s) (key ∙ its_key) ∙ row in
      rw there refl

  mark-untimed :
      (j : Job I) (ca pa : ℕ) (s : G.State) (id : String)
      → id ≢ ""
      → untimed (G.peer_row (update G (crawled_body G I N j ca pa) s).2 id)
        ≡ untimed (G.peer_row s id)
  mark-untimed j ca pa s id named =
      elim (Option-cases (update G (crawled_body G I N j ca pa) s).1) [
        | inr (x, e) ↦ ap untimed ((update_atomic G L (crawled_body G I N j ca pa) s x e).rows id)
        | inl e ↦
            let found = G.peer_row s (I.pretty j.peer) in
            let k = crawled G I N j ca pa found in
            let row = mark-row G L I N j ca pa s id e in
            elim (Bool-cases (same id (crawled G I N j ca pa found).peer_id)) [
              | inl here ↦
                  let key : id ≡ (crawled G I N j ca pa found).peer_id = ground arith in
                  ap untimed {y = some k} (row ∙ rw here refl)
                  ∙ crawled-untimed j ca pa s id found refl named key
              | inr elsewhere ↦ ap untimed {y = G.peer_row s id} (row ∙ rw elsewhere refl)
            ]
      ]

  -- However a crawl goes, it leaves each row with a key as it was but for its two times.
  pub process_job-untimed :
      (c : Setup I) (n : I.Node) (ca pa : ℕ) (j : Job I) (w : N.World) (db : G.State)
      (t : Work G I N) (id : String)
      → id ≢ ""
      → process_job G I N c n ca pa j w db ≡ some t
      → untimed (G.peer_row t.db id) ≡ untimed (G.peer_row db id)
  process_job-untimed c n ca pa j w db t id named h =
      let (s, back, e) = process_job-ended G L I N c n ca pa j w db t h in
      ap (λ (u : Work G I N). untimed (G.peer_row u.db id)) e
      ∙ ap (λ (d : G.State). untimed (G.peer_row d id)) (run_deferred-db G L I N n ca pa s)
      ∙ mark-untimed s.job ca pa s.db id named
      ∙ ap untimed (back.same_rows id)
