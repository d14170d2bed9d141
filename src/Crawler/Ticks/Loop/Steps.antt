-- ===== src/Crawler/Ticks/Loop/Steps.antt =====
-- The goroutine of the tickers in Start of crawler/crawler.go as steps of the whole crawler, and the
-- nodes that it calls.
use obcrawler.Base.{
  ℕ, zero, suc, ◌+◌, ◌*◌, ◌≤◌, ◌<◌, false, none, length-append, String, ◌≡◌, ◌∙◌, refl, Bool, some,
  List, [], ◌∷◌, ◌++◌, map, length, arith, All, All-append, Has, ◌⊎◌, inl, inr, Bool-cases,
  Option-cases,
}
use obcrawler.Go.{Result, ok, err, Result-cases}
use obcrawler.Ipfs.{Ipfs, Job}
use obcrawler.Repo.Models.{Peer, CidRecord}
use obcrawler.Repo.Gorm.{Gorm, IsLawful}
use obcrawler.Repo.Database.{Outcome, view}
use obcrawler.Crawler.Network.{Network}
use obcrawler.Crawler.Peers.{unpin_cid, unpin_records, find_records}
use obcrawler.Crawler.Pubsub.{Message}
use obcrawler.Crawler.System.{System, Reach, here, next, Reach-trans, ticks, unpins}
use obcrawler.Crawler.Ticks.{
  old_tick, goes_on, unpins_after, unpin_peers, unpin_tick, unpin_filters, find_body,
}
use obcrawler.Crawler.Launch.{ℤ}
use obcrawler.Crawler.Ticks.Due.{old_tick-IsDue}
use obcrawler.Crawler.Ticks.Loop.{
  crawl_ticker, gc_ticker, old_node_ticker, Event, crawl_due, gc_due, old_due, unpin_due,
  shutting_down, Call, find_peer, collect_garbage, remove_pin, get_elem?, find_for, crawl_tick,
  Ticking, ticker_events, ticker_loop, is_positive,
}

module _ (I : Ipfs) (nodes : List I.Node) where
  -- The call is made on one of the nodes.
  abbrev pub OnNodes : Call I → Type 0
  OnNodes (find_peer n pid) = Has n nodes
  OnNodes (collect_garbage n) = Has n nodes
  OnNodes (remove_pin (n, c)) = Has n nodes

  -- What `mrand.Intn(len(c.nodes))` returns.
  abbrev pub IsDrawn : Event I → Type 0
  IsDrawn (crawl_due r key) = r < length nodes
  IsDrawn _ = Unit

  collect-OnNodes :
      (ns : List I.Node)
      → ((n : I.Node) → Has n ns → Has n nodes)
      → All OnNodes (map collect_garbage ns)
  collect-OnNodes [] h = tt
  collect-OnNodes (n ∷ ns) h = (h n (inl refl), collect-OnNodes ns (λ m p. h m (inr p)))

  abbrev IsOn : I.Node × I.Cid → Type 0
  IsOn (n, c) = Has n nodes

module _ (G : Gorm) (I : Ipfs) (nodes : List I.Node) where
  unpin_cid-IsOn :
      (ns : List I.Node) (c : I.Cid)
      → ((n : I.Node) → Has n ns → Has n nodes)
      → All (IsOn I nodes) (unpin_cid G I ns c).0
  unfolding unpin_cid
  unpin_cid-IsOn [] c h = tt
  unpin_cid-IsOn (n ∷ ns) c h = elim (Option-cases (I.core_api n)) [
    | inl e ↦ rw (e, unpin_cid) (h n (inl refl), unpin_cid-IsOn ns c (λ m p. h m (inr p)))
    | inr (x, e) ↦ rw (e, unpin_cid) tt
  ]

  unpin_records-IsOn : (rs : List CidRecord) → All (IsOn I nodes) (unpin_records G I nodes rs)
  unfolding unpin_records
  unpin_records-IsOn [] = tt
  unpin_records-IsOn (r ∷ rs) = elim (Result-cases (I.decode_cid r.cid)) [
    | inl (c, e) ↦
        rw (e, unpin_records)
          (All-append (IsOn I nodes) (unpin_cid G I nodes c).0 (unpin_records G I nodes rs)
            (unpin_cid-IsOn nodes c (λ n h. h)) (unpin_records-IsOn rs))
    | inr (x, e) ↦ rw (e, unpin_records) (unpin_records-IsOn rs)
  ]

  after-IsOn :
      (o : Outcome G.State (List CidRecord)) → All (IsOn I nodes) (unpins_after G I nodes o).0
  after-IsOn (rs, e, s) = elim (Bool-cases (goes_on e)) [
    | inl on ↦ rw on (unpin_records-IsOn rs)
    | inr off ↦ rw off tt
  ]

  unpin_peers-IsOn :
      (ps : List Peer) (s : G.State) → All (IsOn I nodes) (unpin_peers G I nodes ps s).0
  unfolding unpin_peers
  unpin_peers-IsOn [] s = tt
  unpin_peers-IsOn (p ∷ ps) s =
      let first = view G (find_records G p.peer_id) s in
      All-append (IsOn I nodes) (unpins_after G I nodes first).0
        (unpin_peers G I nodes ps first.2).0 (after-IsOn first) (unpin_peers-IsOn ps first.2)

  unpin_tick-IsOn : (t₁ t₂ : ℕ) (s : G.State) → All (IsOn I nodes) (unpin_tick G I nodes t₁ t₂ s).0
  unfolding unpin_tick
  unpin_tick-IsOn t₁ t₂ s =
      let found = view G (find_body G (unpin_filters t₁ t₂)) s in
      elim (Bool-cases (goes_on found.1)) [
        | inl on ↦ rw on (unpin_peers-IsOn found.0 found.2)
        | inr off ↦ rw off tt
      ]

  remove-OnNodes :
      (calls : List (I.Node × I.Cid))
      → All (IsOn I nodes) calls
      → All (OnNodes I nodes) (map remove_pin calls)
  remove-OnNodes [] h = tt
  remove-OnNodes ((n, c) ∷ calls) h = (h.0, remove-OnNodes calls h.1)

  get_elem-Has :
      (ns : List I.Node) (r : ℕ)
      → r < length ns
      → (n : I.Node) × (get_elem? ns r ≡ some n) × Has n ns
  get_elem-Has [] r h = absurd (omega arith)
  get_elem-Has (n ∷ ns) zero h = (n, refl, inl refl)
  get_elem-Has (n ∷ ns) (suc r) h =
      let (m, e, has) = get_elem-Has ns r (omega (arith, h)) in (m, e, inr has)

module _ (G : Gorm) (I : Ipfs) (id_from_public_key : I.PublicKey → Result I.PeerId)
    (nodes : List I.Node) where
  find_for-OnNodes :
      (r : ℕ) (id : Result I.PeerId)
      → r < length nodes
      → (calls : List (Call I)) × (find_for G I id_from_public_key nodes r id ≡ some calls)
        × All (OnNodes I nodes) calls
  find_for-OnNodes r (err e) h = ([], refl, tt)
  find_for-OnNodes r (ok pid) h =
      let (n, e, has) = get_elem-Has G I nodes nodes r h in
      (find_peer n pid ∷ [], rw e refl, (has, tt))

crawl_tick-OnNodes :
    (G : Gorm) (I : Ipfs) (id_from_public_key : I.PublicKey → Result I.PeerId) (nodes : List I.Node)
    (r : ℕ) (key : Result I.PublicKey)
    → r < length nodes
    → (calls : List (Call I)) × (crawl_tick G I id_from_public_key nodes r key ≡ some calls)
      × All (OnNodes I nodes) calls
unfolding crawl_tick
crawl_tick-OnNodes G I ids [] r key h = absurd (omega arith)
crawl_tick-OnNodes G I ids (n ∷ ns) r (err e) h = ([], refl, tt)
crawl_tick-OnNodes G I ids (n ∷ ns) r (ok key) h = find_for-OnNodes G I ids (n ∷ ns) r (ids key) h

-- How often the ticker for old peers ticks.
abbrev pub old_ticks : {I : Ipfs} → List (Event I) → ℕ
old_ticks [] = 0
old_ticks (old_due t₁ t₂ t₃ ∷ es) = 1 + old_ticks es
old_ticks (crawl_due r key ∷ es) = old_ticks es
old_ticks (gc_due ∷ es) = old_ticks es
old_ticks (unpin_due t₁ t₂ ∷ es) = old_ticks es
old_ticks (shutting_down ∷ es) = old_ticks es

module _ (G : Gorm) (L : IsLawful G) (I : Ipfs) (id_from_public_key : I.PublicKey → Result I.PeerId)
    (N : Network I) (message_id : Message I → String) (kept : String) (pin : Bool)
    (nodes : List I.Node) where
  -- What the tickers share with the rest of the crawler.
  abbrev pub system_of : Ticking G I id_from_public_key → System G I
  system_of s = record { db = s.db; queue = s.sent }

  -- What a run of the loop is: it does not panic, what it does to the database and the jobs are steps
  -- of the crawler, it sends ten jobs at most for each tick of the ticker for old peers, its calls are
  -- made on the nodes, and it stops either no ticker or those but unPinTicker.
  pub record Runs (es : List (Event I)) (s : Ticking G I id_from_public_key) : Type 0 where
    pub after : Ticking G I id_from_public_key
    pub runs : ticker_events G I id_from_public_key pin nodes es s ≡ some after
    pub steps : Reach G I N message_id kept (system_of s) (system_of after)
    pub few : length after.sent ≤ length s.sent + 10 * old_ticks es
    pub on_nodes : All (OnNodes I nodes) after.calls
    pub stopped :
        (after.stopped ≡ s.stopped)
        ⊎ (after.stopped ≡ s.stopped ++ crawl_ticker ∷ gc_ticker ∷ old_node_ticker ∷ [])

  -- A run whose first event is a tick.
  ticks-Runs :
      (e : Event I) (es : List (Event I)) (s : Ticking G I id_from_public_key) (db : G.State)
      (sent : List (Job I)) (calls : List (Call I))
      → let t : Ticking G I id_from_public_key = record s { db = db; sent = sent; calls = calls } in
        (ticker_events G I id_from_public_key pin nodes (e ∷ es) s
          ≡ ticker_events G I id_from_public_key pin nodes es t)
        → Reach G I N message_id kept (system_of s) (system_of t)
        → length sent + 10 * old_ticks es ≤ length s.sent + 10 * old_ticks (e ∷ es)
        → Runs es t
        → Runs (e ∷ es) s
  ticks-Runs e es s db sent calls tick steps more rest = record {
    after = rest.after;
    runs = tick ∙ rest.runs;
    steps = Reach-trans G I N message_id kept steps rest.steps;
    few = let least = rest.few in omega (arith, more, least);
    on_nodes = rest.on_nodes;
    stopped = rest.stopped;
  }

  ticker_events-Runs :
      (es : List (Event I)) (s : Ticking G I id_from_public_key)
      → All (IsDrawn I nodes) es
      → All (OnNodes I nodes) s.calls
      → Runs es s
  unfolding ticker_events
  ticker_events-Runs [] s drawn on = record {
    after = s;
    runs = refl;
    steps = here;
    few = omega arith;
    on_nodes = on;
    stopped = inl refl;
  }
  ticker_events-Runs (crawl_due r key ∷ es) s drawn on =
      let (calls, e, new) = crawl_tick-OnNodes G I id_from_public_key nodes r key drawn.0 in
      ticks-Runs (crawl_due r key) es s s.db s.sent (s.calls ++ calls) (rw (e, ticker_events) refl)
        here (omega arith)
        (ticker_events-Runs es _ drawn.1 (All-append (OnNodes I nodes) s.calls calls on new))
  ticker_events-Runs (gc_due ∷ es) s drawn on =
      let calls = map collect_garbage nodes in
      ticks-Runs gc_due es s s.db s.sent (s.calls ++ calls) refl here (omega arith) (
        ticker_events-Runs es _ drawn.1 (
          All-append (OnNodes I nodes) s.calls calls on (collect-OnNodes I nodes nodes (λ n h. h))))
  ticker_events-Runs (old_due t₁ t₂ t₃ ∷ es) s drawn on =
      let (jobs, db) = old_tick G I pin t₁ t₂ t₃ s.db in
      ticks-Runs (old_due t₁ t₂ t₃) es s db (jobs ++ s.sent) s.calls refl
        (next here (ticks pin t₁ t₂ t₃))
        (omega (arith, length-append jobs s.sent, (old_tick-IsDue G L I pin t₁ t₂ t₃ s.db).1))
        (ticker_events-Runs es _ drawn.1 on)
  ticker_events-Runs (unpin_due t₁ t₂ ∷ es) s drawn on =
      let (calls, db) = unpin_tick G I nodes t₁ t₂ s.db in
      ticks-Runs (unpin_due t₁ t₂) es s db s.sent (s.calls ++ map remove_pin calls) refl
        (next here (unpins nodes t₁ t₂)) (omega arith)
        (ticker_events-Runs es _ drawn.1 (
          All-append (OnNodes I nodes) s.calls (map remove_pin calls) on
            (remove-OnNodes G I nodes calls (unpin_tick-IsOn G I nodes t₁ t₂ s.db))))
  ticker_events-Runs (shutting_down ∷ es) s drawn on = record {
    after = _;
    runs = refl;
    steps = here;
    few = omega arith;
    on_nodes = on;
    stopped = inr refl;
  }

  -- The goroutine of the tickers panics at once where the interval between crawls is not positive.
  -- Else, if the random numbers are indices of nodes, it does not panic; what it does to the database
  -- and to the jobs are steps of the whole crawler; it sends ten jobs at most for each tick of the
  -- ticker for old peers; it calls IPFS on the crawler's nodes only; and it stops either no ticker or
  -- all but unPinTicker.
  pub ticker_loop-Reach :
      (interval : ℤ) (es : List (Event I)) (s : Ticking G I id_from_public_key)
      → All (IsDrawn I nodes) es
      → All (OnNodes I nodes) s.calls
      → ((is_positive interval ≡ false)
          × (ticker_loop G I id_from_public_key interval pin nodes es s ≡ none))
        ⊎ (Runs es s
            × (ticker_loop G I id_from_public_key interval pin nodes es s
                ≡ ticker_events G I id_from_public_key pin nodes es s))
  unfolding ticker_loop
  ticker_loop-Reach interval es s drawn on = elim (Bool-cases (is_positive interval)) [
    | inl runs ↦ inr (ticker_events-Runs es s drawn on, ground arith)
    | inr stays ↦ inl (stays, ground arith)
  ]
