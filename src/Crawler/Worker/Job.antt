-- ===== src/Crawler/Worker/Job.antt =====
-- What processJob leaves behind, on every path on which it returns.
use obcrawler.Base.{
  ℕ, String, ◌≡◌, ◌≢◌, refl, ◌∙◌, ap, sym, Bool, true, false, Option, none, some, List, [], ◌∷◌,
  ◌++◌, arith, same, if◌then◌else◌, append-nil, same_self, inl, inr, Bool-cases,
}
use obcrawler.Ipfs.{Ipfs, Job}
use obcrawler.Repo.Models.{Peer, blank}
use obcrawler.Repo.Gorm.{Gorm, IsLawful}
use obcrawler.Repo.Database.{update}
use obcrawler.Crawler.Network.{Network}
use obcrawler.Crawler.Peers.{or_blank}
use obcrawler.Crawler.Worker.Defs.{Event, record_put, Work, Flow, next, stop, halted}
use obcrawler.Crawler.Worker.Run.{
  Setup, crawled, crawled_body, put_back, finish_job, notify_all, run_deferred, all_received,
  deferred_done, body_done, start_work, process_job, job_body,
}
use obcrawler.Crawler.Worker.Marked.{Reliable, Savable, mark-row}
use obcrawler.Crawler.Worker.Triple.{Ends}
use obcrawler.Crawler.Worker.Back.{Back, job_body-Back}

module _ (G : Gorm) (L : IsLawful G) (I : Ipfs) (N : Network I) where
  abbrev pub put_events : I.Node → Bool → Option I.Entry → List (Event I N.Profile N.Listing)
  put_events n false o = []
  put_events n true none = []
  put_events n true (some rec) = record_put n rec ∷ []

  put_back-parts :
      (n : I.Node) (s : Work G I N)
      → ((put_back G I N n s).db ≡ s.db)
        × ((put_back G I N n s).job ≡ s.job)
        × ((put_back G I N n s).events
            ≡ s.events ++ put_events n s.job.pin_record s.job.ipns_record)
  unfolding put_back
  put_back-parts n s = go s.job.pin_record s.job.ipns_record refl refl
    where
      go :
          (b : Bool) (o : Option I.Entry)
          → s.job.pin_record ≡ b
          → s.job.ipns_record ≡ o
          → ((put_back G I N n s).db ≡ s.db)
            × ((put_back G I N n s).job ≡ s.job)
            × ((put_back G I N n s).events ≡ s.events ++ put_events n b o)
      go false o eb eo = rw eb (refl, refl, sym (append-nil _))
      go true none eb eo = rw (eb, eo) (refl, refl, sym (append-nil _))
      go true (some rec) eb eo = rw (eb, eo) (refl, refl, refl)

  pub run_deferred-db :
      (n : I.Node) (ca pa : ℕ) (s : Work G I N)
      → (run_deferred G I N n ca pa s).db ≡ (update G (crawled_body G I N s.job ca pa) s.db).2
  unfolding run_deferred finish_job notify_all
  run_deferred-db n ca pa s =
      let (same_db, same_job, _) = put_back-parts n (notify_all G I N s) in rw (same_db, same_job)

  -- The state where the body ended, and the deferred functions after it.
  abbrev pub EndedAt : Setup I → I.Node → ℕ → ℕ → Job I → G.State → Work G I N → Type 0
  EndedAt c n ca pa j db t =
      (s : Work G I N) × Back G L I N j db s × (t ≡ run_deferred G I N n ca pa s)

  deferred_done-ended :
      (c : Setup I) (n : I.Node) (ca pa : ℕ) (j : Job I) (db : G.State) (s t : Work G I N)
      → Back G L I N j db s
      → deferred_done G I N n ca pa s ≡ some t
      → EndedAt c n ca pa j db t
  deferred_done-ended c n ca pa j db s t h e =
      elim (Bool-cases (all_received G I N s.deferred s.world)) [
        | inl on ↦ (s, h, ground arith)
        | inr off ↦ absurd (ground arith)
      ]

  body_done-ended :
      (c : Setup I) (n : I.Node) (ca pa : ℕ) (j : Job I) (db : G.State) (r : Flow (Work G I N) Unit)
      (t : Work G I N)
      → Ends (λ a s. Back G L I N j db s) (Back G L I N j db) r
      → body_done G I N n ca pa r ≡ some t
      → EndedAt c n ca pa j db t
  body_done-ended c n ca pa j db (next a s) t h e = deferred_done-ended c n ca pa j db s t h e
  body_done-ended c n ca pa j db (stop s) t h e = deferred_done-ended c n ca pa j db s t h e
  body_done-ended c n ca pa j db halted t h e = cc

  pub process_job-ended :
      (c : Setup I) (n : I.Node) (ca pa : ℕ) (j : Job I) (w : N.World) (db : G.State)
      (t : Work G I N)
      → process_job G I N c n ca pa j w db ≡ some t
      → EndedAt c n ca pa j db t
  unfolding process_job
  process_job-ended c n ca pa j w db t h =
      body_done-ended c n ca pa j db (job_body G I N c n (start_work G I N j w db)) t
        ((job_body-Back G L I N j db c n).at (start_work G I N j w db) (record {
          front = record {
            same_db = refl;
            quiet = refl;
            same_peer = refl;
            same_pin = refl;
            timely = tt;
            dated = inl (refl, refl);
          };
          nothing_deferred = refl;
        }))
        h

  Savable-Back :
      (j : Job I) (db : G.State) (s : Work G I N)
      → Back G L I N j db s
      → Savable G L I N j db
      → Savable G L I N s.job s.db
  Savable-Back j db s back (inl keyed) =
      inl (rw (back.same_peer, back.same_rows (I.pretty j.peer)) keyed)
  Savable-Back j db s back (inr free) = inr (back.same_rows "" ∙ free)

  -- The row that a crawl saves, in terms of the job as it was queued.
  pub process_job-row :
      (c : Setup I) (n : I.Node) (ca pa : ℕ) (j : Job I) (w : N.World) (db : G.State)
      (t : Work G I N) (id : String)
      → Reliable G
      → Savable G L I N j db
      → process_job G I N c n ca pa j w db ≡ some t
      → let k = crawled G I N j ca pa (G.peer_row db (I.pretty j.peer)) in
        G.peer_row t.db id ≡ (if same id k.peer_id then some k else G.peer_row db id)
  process_job-row c n ca pa j w db t id R savable h =
      let (s, back, e) = process_job-ended c n ca pa j w db t h in
      ap (λ (u : Work G I N). G.peer_row u.db id) e
      ∙ ap (λ (d : G.State). G.peer_row d id) (run_deferred-db n ca pa s)
      ∙ mark-row G L I N s.job ca pa s.db id R (Savable-Back j db s back savable)
      ∙ rw (back.same_peer, back.same_pin, back.same_rows (I.pretty j.peer), back.same_rows id)

  -- However the crawl of a known peer with a key that is not empty goes, if it returns and no load,
  -- save or commit of the database fails but for the insertion of a second row with the empty key,
  -- its row has the new time of the last crawl, and the new time of the last pin if the job was to
  -- pin; nothing else of the row changes, and no other row.
  pub process_job-marks :
      (c : Setup I) (n : I.Node) (ca pa : ℕ) (j : Job I) (w : N.World) (db : G.State)
      (t : Work G I N) (p : Peer) (id : String)
      → Reliable G
      → I.pretty j.peer ≢ ""
      → G.peer_row db (I.pretty j.peer) ≡ some p
      → process_job G I N c n ca pa j w db ≡ some t
      → G.peer_row t.db id ≡ (
          if same id (I.pretty j.peer)
          then some (record p {
            last_crawled = ca;
            last_pinned = if j.pin_record then pa else p.last_pinned;
          })
          else G.peer_row db id)
  process_job-marks c n ca pa j w db t p id R named known h =
      let key = L.row_key db (I.pretty j.peer) p known in
      let keyed : (or_blank (G.peer_row db (I.pretty j.peer))).peer_id ≢ "" =
        rw known (rw key named) in
      ground (arith, process_job-row c n ca pa j w db t id R (inl keyed) h, key)

  -- The first crawl of a peer that the database does not know, if it returns, leaves it unknown: the
  -- times are saved in a row whose key is empty. That assumes that there is no such row yet, that the
  -- peer's key is not empty, and that no load, save or commit of the database fails but for the
  -- insertion of a second row with the empty key.
  pub process_job-unknown :
      (c : Setup I) (n : I.Node) (ca pa : ℕ) (j : Job I) (w : N.World) (db : G.State)
      (t : Work G I N)
      → Reliable G
      → G.peer_row db (I.pretty j.peer) ≡ none
      → G.peer_row db "" ≡ none
      → I.pretty j.peer ≢ ""
      → process_job G I N c n ca pa j w db ≡ some t
      → (G.peer_row t.db (I.pretty j.peer) ≡ none)
        × (G.peer_row t.db ""
            ≡ some
                (record blank { last_crawled = ca; last_pinned = if j.pin_record then pa else 0 }))
  process_job-unknown c n ca pa j w db t R unknown free named h = (
    ground (arith, process_job-row c n ca pa j w db t (I.pretty j.peer) R (inr free) h),
    ground (arith, process_job-row c n ca pa j w db t "" R (inr free) h, same_self ""),
  )
