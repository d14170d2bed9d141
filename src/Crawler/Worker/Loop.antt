-- ===== src/Crawler/Worker/Loop.antt =====
-- worker of crawler/worker.go: the loop that receives jobs. What the cases of its `select` deliver
-- is a list of arrivals.
use obcrawler.Base.{
  ℕ, String, ◌<◌, ◌≤◌, ◌≡◌, ◌≢◌, Bool, true, false, none, some, Option, List, [], ◌∷◌, map, arith,
  refl, ◌∙◌, inl, inr, All, Option-cases,
}
use obcrawler.Ipfs.{Ipfs, Job, DecodesCids}
use obcrawler.Repo.Gorm.{Gorm, IsLawful}
use obcrawler.Crawler.Network.{Network}
use obcrawler.Crawler.Graph.Keys.{total}
use obcrawler.Crawler.Graph.Reach.{Fixed}
use obcrawler.Crawler.Worker.Run.{Setup, process_job}
use obcrawler.Crawler.Worker.Returns.{process_job-returns}
use obcrawler.Crawler.Worker.Steps.{process_job-others}
use obcrawler.Crawler.Worker.Frame.{untimed, process_job-untimed}

-- `case <-c.shutdown`, and `case job := <-c.workChan` with the node that processJob picks and the
-- times at which the job has crawled and pinned.
pub data Arrival (I : Ipfs) : Type 0 where
  shutting_down : Arrival I
  arrives : I.Node → ℕ → ℕ → Job I → Arrival I

module _ (G : Gorm) (I : Ipfs) (N : Network I) where
  -- Whether the loop has returned, and the world and the database.
  pub record Worked : Type 0 where
    pub returned : Bool
    pub world : N.World
    pub db : G.State

  -- none where a job never returns.
  unfoldable pub worker : Setup I → List (Arrival I) → N.World → G.State → Option Worked
  worker c [] w db = some (record { returned = false; world = w; db = db })
  worker c (shutting_down ∷ es) w db = some (record { returned = true; world = w; db = db })
  worker c (arrives n ca pa j ∷ es) w db = elim (process_job G I N c n ca pa j w db) [
    | none ↦ none
    | some t ↦ worker c es t.world t.db
  ]

  -- No job for the peer with this key.
  abbrev pub NotFor : String → Arrival I → Type 0
  NotFor key shutting_down = Unit
  NotFor key (arrives n ca pa j) = key ≢ I.pretty j.peer

  -- Whatever jobs a worker gets through, it leaves each row with a key as it was but for its times
  -- of the last crawl and the last pin, so neither the mark nor the record of a peer changes; and the
  -- CID records of a peer for which it gets no job are as they were.
  pub worker-frame :
      (L : IsLawful G) (c : Setup I) (es : List (Arrival I)) (w : N.World) (db : G.State)
      (t : Worked) (id a o : String)
      → id ≢ ""
      → All (NotFor o) es
      → worker c es w db ≡ some t
      → (untimed (G.peer_row t.db id) ≡ untimed (G.peer_row db id))
        × (G.copies t.db a o ≡ G.copies db a o)
  unfolding worker
  worker-frame L c [] w db t id a o named spared h =
      let same_db : db ≡ t.db = ground arith in rw (← same_db) (refl, refl)
  worker-frame L c (shutting_down ∷ es) w db t id a o named spared h =
      let same_db : db ≡ t.db = ground arith in rw (← same_db) (refl, refl)
  worker-frame L c (arrives n ca pa j ∷ es) w db t id a o named spared h =
      elim (Option-cases (process_job G I N c n ca pa j w db)) [
        | inl e ↦ absurd (ground arith)
        | inr (u, e) ↦
            let (rows, copies) =
              worker-frame L c es u.world u.db t id a o named spared.1 (ground arith) in
            (
              rows ∙ process_job-untimed G L I N c n ca pa j w db u id named e,
              copies ∙ process_job-others G L I N c n ca pa j w db u a o spared.0 e,
            )
      ]

  abbrev pub Healthy : Arrival I → Type 0
  Healthy shutting_down = Unit
  Healthy (arrives n ca pa j) = I.core_api n ≡ none

  -- Where the nodes' core APIs work, shutdown strands no call, every notification is received, a
  -- CID determines its links, decoding undoes printing, no CID leads back to itself and the fuel
  -- covers the weights, a worker gets through all its jobs: none of them blocks it.
  pub worker-returns :
      (children : I.Cid → List I.Cid) (weight : String → ℕ) (c : Setup I) (es : List (Arrival I))
      (w : N.World) (db : G.State)
      → Fixed I N children
      → DecodesCids I
      → All Healthy es
      → ((v : N.World) → N.stranded v ≡ false)
      → ((k : ℕ) (v : N.World) → N.received k v ≡ true)
      → ((d : I.Cid) → total weight (map I.cid_string (children d)) < weight (I.cid_string d))
      → ((d : I.Cid) → weight (I.cid_string d) ≤ c.fuel d)
      → worker c es w db ≢ none
  unfolding worker
  worker-returns children weight c [] w db fixed dec healthy served hears falls enough = λ p. cc
  worker-returns children weight c (shutting_down ∷ es) w db fixed dec healthy served hears falls
        enough =
      λ p. cc
  worker-returns children weight c (arrives n ca pa j ∷ es) w db fixed dec healthy served hears
        falls enough =
      elim (Option-cases (process_job G I N c n ca pa j w db)) [
        | inl e ↦ absurd (
            process_job-returns G I N children weight c n ca pa j w db fixed dec healthy.0 served
              hears falls enough e)
        | inr (u, e) ↦
            rw (e, worker)
              (worker-returns children weight c es u.world u.db fixed dec healthy.1 served hears
                falls enough)
      ]
