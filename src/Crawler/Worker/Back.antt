-- ===== src/Crawler/Worker/Back.antt =====
-- The rest of the body, and what holds of the state where it ends, on whichever path.
use obcrawler.Base.{
  String, ◌≡◌, ◌≢◌, ap, sym, true, Option, none, some, List, [], ◌∷◌, ◌++◌, arith, All, All-append,
  contains, Bool-cases, Option-cases, inl, inr, ◌⊎◌, same_self, map-append,
}
use obcrawler.Go.{GoError, ok, Result-cases}
use obcrawler.Ipfs.{Ipfs, Job}
use obcrawler.Repo.Gorm.{Gorm, IsLawful}
use obcrawler.Repo.Database.{Outcome, update}
use obcrawler.Repo.Database.Atomic.{update_atomic}
use obcrawler.Crawler.Network.{Network}
use obcrawler.Crawler.Records.{save_body}
use obcrawler.Crawler.Records.Dropped.{Alone}
use obcrawler.Crawler.Records.Exact.{update-row, update-unpins_sound}
use obcrawler.Crawler.Peers.{unpin_cid}
use obcrawler.Crawler.Worker.Defs.{
  Event, notified, record_put, pinned, unpinned, Work, Flow, next, stop, halted,
}
use obcrawler.Crawler.Worker.Run.{
  Setup, records_saved, save_graph, api_opened, open_api, pin_root, unpin_events, unpin_texts,
  unpin_all, job_body,
}
use obcrawler.Crawler.Worker.Triple.{Triple, Ends, Triple-bind}
use obcrawler.Crawler.Worker.Front.{
  Front, Start, Unsent, Dated, Timely, refresh-Front, root_cid-front, load_root-front,
  find_link-front, crawl_profile-front, crawl_listings-front, cached_graph-front,
}

module _ (G : Gorm) (L : IsLawful G) (I : Ipfs) (N : Network I) (j : Job I) (db : G.State) where
  abbrev pub owner : String
  owner = I.pretty j.peer

  -- The peer had the CID, under one of its texts, and no other peer had it.
  abbrev pub OnlyOurs : String → Type 0
  OnlyOurs text = (G.copies db text owner ≢ 0) × Alone G L owner db text

  abbrev pub IsFileEvent : Event I N.Profile N.Listing → Type 0
  IsFileEvent (notified o) = ⊥
  IsFileEvent (record_put n rec) = ⊥
  IsFileEvent (pinned n c) = Unit
  IsFileEvent (unpinned n c) = (text : String) × (I.decode_cid text ≡ ok c) × OnlyOurs text

  -- The database is as it was at the start, or as the transaction on the records has left it.
  abbrev pub Stage : G.State → Type 0
  Stage t = (t ≡ db) ⊎ ((graph : List I.Cid) × (t ≡ (update G (save_body G I owner graph) db).2))

  pub record Back (s : Work G I N) : Type 0 where
    pub stage : Stage s.db
    pub same_rows : (id : String) → G.peer_row s.db id ≡ G.peer_row db id
    pub files : All IsFileEvent s.events
    pub same_peer : s.job.peer ≡ j.peer
    pub same_pin : s.job.pin_record ≡ j.pin_record
    pub timely : Timely G I N j db s.job.expiration s.deferred
    pub dated : (s.deferred ≡ []) ⊎ Dated G I N j db s.job

  record Listed (unpin : List String) (s : Work G I N) : Type 0 where
    back : Back s
    ours : (text : String) → contains unpin text ≡ true → OnlyOurs text

  Front-Back : (s : Work G I N) → Front G I N j db s → Back s
  Front-Back s p = record {
    stage = inl p.same_db;
    same_rows = λ id. rw p.same_db;
    files = rw p.quiet tt;
    same_peer = p.same_peer;
    same_pin = p.same_pin;
    timely = p.timely;
    dated = inr p.dated;
  }

  Unsent-Back : (s : Work G I N) → Unsent G I N j db s → Back s
  Unsent-Back s p = record {
    stage = inl p.same_db;
    same_rows = λ id. rw p.same_db;
    files = rw p.quiet tt;
    same_peer = p.same_peer;
    same_pin = p.same_pin;
    timely = rw p.nothing_deferred tt;
    dated = inl p.nothing_deferred;
  }

  saved : List I.Cid → Outcome G.State (List String)
  saved graph = update G (save_body G I owner graph) db

  records_saved-Back :
      (graph : List I.Cid) (r : Outcome G.State (List String)) (s : Work G I N)
      → Front G I N j db s
      → r ≡ saved graph
      → Ends Listed Back (records_saved G I N r s)
  unfolding saved
  records_saved-Back graph (unpin, none, t) s p e =
      let done : (saved graph).1 ≡ none = sym (ap (λ (q : Outcome G.State (List String)). q.1) e) in
      let list : unpin ≡ (saved graph).0 = ap (λ (q : Outcome G.State (List String)). q.0) e in
      let state : t ≡ (saved graph).2 = ap (λ (q : Outcome G.State (List String)). q.2) e in
      record {
        back = record {
          stage = inr (graph, state);
          same_rows = λ id. rw state (update-row G L I owner graph db id done);
          files = rw p.quiet tt;
          same_peer = p.same_peer;
          same_pin = p.same_pin;
          timely = p.timely;
          dated = inr p.dated;
        };
        ours = λ text m. update-unpins_sound G L I owner graph db text done (rw (← list) m);
      }
  records_saved-Back graph (unpin, some x, t) s p e =
      let failed : (saved graph).1 ≡ some x =
        sym (ap (λ (q : Outcome G.State (List String)). q.1) e) in
      let state : t ≡ (saved graph).2 = ap (λ (q : Outcome G.State (List String)). q.2) e in
      record {
        stage = inr (graph, state);
        same_rows =
            λ id. rw state ((update_atomic G L (save_body G I owner graph) db x failed).rows id);
        files = rw p.quiet tt;
        same_peer = p.same_peer;
        same_pin = p.same_pin;
        timely = p.timely;
        dated = inr p.dated;
      }

  save_graph-Back :
      (graph : List I.Cid) → Triple (Front G I N j db) (save_graph G I N graph) Listed Back
  unfolding save_graph saved
  save_graph-Back graph = record {
    at = λ s p. records_saved-Back graph _ s p (rw (p.same_peer, p.same_db));
  }

  api_opened-Back :
      (o : Option GoError) (unpin : List String) (s : Work G I N)
      → Listed unpin s
      → Ends (λ a t. Listed unpin t) Back (api_opened G I N o s)
  api_opened-Back none unpin s p = p
  api_opened-Back (some e) unpin s p = p.back

  open_api-Back :
      (n : I.Node) (unpin : List String)
      → Triple (Listed unpin) (open_api G I N n) (λ a t. Listed unpin t) Back
  open_api-Back n unpin = record { at = λ s p. api_opened-Back (I.core_api n) unpin s p }

  Back-events :
      (s : Work G I N) (w : N.World) (es : List (Event I N.Profile N.Listing))
      → Back s
      → All IsFileEvent es
      → Back (record s { world = w; events = s.events ++ es })
  Back-events s w es p h = record {
    stage = p.stage;
    same_rows = p.same_rows;
    files = All-append IsFileEvent s.events es p.files h;
    same_peer = p.same_peer;
    same_pin = p.same_pin;
    timely = p.timely;
    dated = p.dated;
  }

  pin_root-Back :
      (c : Setup I) (n : I.Node) (root : I.Cid) (unpin : List String)
      → Triple (Listed unpin) (pin_root G I N c n root) (λ a t. Listed unpin t) Back
  unfolding pin_root
  pin_root-Back c n root unpin = record {
    at = λ s p. elim (Bool-cases c.pin_files) [
      | inl on ↦ rw on (record {
        back = Back-events s (N.pin_add n root s.world).1 (pinned n root ∷ []) p.back (tt, tt);
        ours = p.ours;
      })
      | inr off ↦ rw off p
    ];
  }

  unpin_cid-files :
      (ns : List I.Node) (text : String) (c : I.Cid)
      → I.decode_cid text ≡ ok c
      → OnlyOurs text
      → All IsFileEvent (unpin_events G I N (unpin_cid G I ns c).0)
  unfolding unpin_cid
  unpin_cid-files [] text c d o = tt
  unpin_cid-files (n ∷ ns) text c d o = elim (Option-cases (I.core_api n)) [
    | inl e ↦ rw (e, unpin_cid) ((text, d, o), unpin_cid-files ns text c d o)
    | inr (x, e) ↦ rw (e, unpin_cid) tt
  ]

  unpin_texts-files :
      (c : Setup I) (ts : List String)
      → ((text : String) → contains ts text ≡ true → OnlyOurs text)
      → All IsFileEvent (unpin_events G I N (unpin_texts G I N c ts))
  unfolding unpin_texts
  unpin_texts-files c [] ours = tt
  unpin_texts-files c (t ∷ ts) ours =
      let ih = unpin_texts-files c ts (λ text m. ours text (ground arith)) in
      elim (Result-cases (I.decode_cid t)) [
        | inl (id, e) ↦
            rw (e, unpin_texts, map-append)
              (All-append IsFileEvent _ _
                (unpin_cid-files c.nodes t id e (ours t (ground (arith, same_self t)))) ih)
        | inr (x, e) ↦ rw (e, unpin_texts) ih
      ]

  unpin_all-Back :
      (c : Setup I) (unpin : List String)
      → Triple (Listed unpin) (unpin_all G I N c unpin) (λ a t. Back t) Back
  unfolding unpin_all
  unpin_all-Back c unpin = record {
    at = λ s p.
        Back-events s s.world (unpin_events G I N (unpin_texts G I N c unpin)) p.back
          (unpin_texts-files c unpin p.ours);
  }

  Ends-weaken :
      {A : Type 0} {F : Work G I N → Type 0} (Q : A → Work G I N → Type 0) (r : Flow (Work G I N) A)
      → ((s : Work G I N) → F s → Back s)
      → Ends Q F r
      → Ends Q Back r
  Ends-weaken Q (next a s) f h = h
  Ends-weaken Q (stop s) f h = f s h
  Ends-weaken Q halted f h = tt

  early :
      {A : Type 0} {P : Work G I N → Type 0} (Q : A → Work G I N → Type 0)
      (m : Work G I N → Flow (Work G I N) A)
      → Triple P m Q (Front G I N j db)
      → Triple P m Q Back
  early Q m h = record { at = λ s p. Ends-weaken Q (m s) Front-Back (h.at s p) }

  earliest :
      {A : Type 0} {P : Work G I N → Type 0} (Q : A → Work G I N → Type 0)
      (m : Work G I N → Flow (Work G I N) A)
      → Triple P m Q (Unsent G I N j db)
      → Triple P m Q Back
  earliest Q m h = record { at = λ s p. Ends-weaken Q (m s) Unsent-Back (h.at s p) }

  abbrev Ready : {A : Type 0} → A → Work G I N → Type 0
  Ready a s = Front G I N j db s

  abbrev Done : Unit {0} → Work G I N → Type 0
  Done a s = Back s

  pub job_body-Back :
      (c : Setup I) (n : I.Node) → Triple (Start G I N j db) (job_body G I N c n) Done Back
  unfolding job_body
  job_body-Back c n =
      Triple-bind Ready Done Back _ _ (earliest Ready _ (refresh-Front G I N j db n c.quorum)) λ _.
        Triple-bind Ready Done Back _ _ (early Ready _ (root_cid-front G I N j db)) λ root.
          Triple-bind Ready Done Back _ _ (early Ready _ (load_root-front G I N j db n root)) λ nd.
            Triple-bind Ready Done Back _ _
              (early Ready _ (find_link-front G I N j db nd "profile.json"))
              λ profile.
                Triple-bind Ready Done Back _ _
                  (early Ready _ (find_link-front G I N j db nd "listings.json"))
                  λ listings.
                    Triple-bind Ready Done Back _ _
                      (early Ready _ (crawl_profile-front G I N j db n profile))
                      λ _.
                        Triple-bind Ready Done Back _ _
                          (early Ready _ (crawl_listings-front G I N j db n listings))
                          λ found.
                            Triple-bind Ready Done Back _ _
                              (early Ready _ (cached_graph-front G I N j db c n root))
                              λ graph. Triple-bind Listed Done Back _ _ (save_graph-Back _) λ unpin.
                                Triple-bind (λ a s. Listed unpin s) Done Back _ _
                                  (open_api-Back n unpin)
                                  λ _.
                                    Triple-bind (λ a s. Listed unpin s) Done Back _ _
                                      (pin_root-Back c n root unpin) λ _. unpin_all-Back c unpin
