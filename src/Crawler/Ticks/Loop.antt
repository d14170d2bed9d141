-- ===== src/Crawler/Ticks/Loop.antt =====
-- The goroutine of Start in crawler/crawler.go with its four tickers: what each iteration of its
-- `select` does, until the shutdown.
pub mod Steps
use obcrawler.Base.{
  ℕ, zero, suc, ◌<◌, ◌≡◌, ◌≢◌, refl, Bool, true, false, Option, none, some, List, [], ◌∷◌, ◌++◌,
  map, length, arith, All, All-append, Has, inl, inr, if◌then◌else◌,
}
use obcrawler.Go.{Result, ok, err}
use obcrawler.Ipfs.{Ipfs, Job}
use obcrawler.Repo.Gorm.{Gorm}
use obcrawler.Crawler.Launch.{ℤ, pos, negsuc}
use obcrawler.Crawler.Ticks.{old_tick, unpin_tick}

pub data Ticker : Type 0 where
  crawl_ticker gc_ticker old_node_ticker un_pin_ticker : Ticker

-- What a case of the `select` delivers: the tick of a ticker, with what `mrand.Intn` and
-- `crypto.GenerateEd25519Key` or the reads of the clock then give, or the shutdown.
pub data Event (I : Ipfs) : Type 0 where
  crawl_due : ℕ → Result I.PublicKey → Event I
  gc_due : Event I
  old_due : ℕ → ℕ → ℕ → Event I
  unpin_due : ℕ → ℕ → Event I
  shutting_down : Event I

-- The calls of IPFS: Routing.FindPeer, corerepo.GarbageCollectAsync, and Pin().Rm.
pub data Call (I : Ipfs) : Type 0 where
  find_peer : I.Node → I.PeerId → Call I
  collect_garbage : I.Node → Call I
  remove_pin : I.Node × I.Cid → Call I

abbrev pub is_positive : ℤ → Bool
is_positive (pos zero) = false
is_positive (pos (suc n)) = true
is_positive (negsuc n) = false

-- `nodes[r]`; none is a panic.
abbrev pub get_elem? : {A : Type 0} → List A → ℕ → Option A
get_elem? [] r = none
get_elem? (x ∷ xs) zero = some x
get_elem? (x ∷ xs) (suc r) = get_elem? xs r

module _ (G : Gorm) (I : Ipfs) (id_from_public_key : I.PublicKey → Result I.PeerId) where
  abbrev pub find_with : Option I.Node → I.PeerId → Option (List (Call I))
  find_with none pid = none
  find_with (some n) pid = some (find_peer n pid ∷ [])

  abbrev pub find_for : List I.Node → ℕ → Result I.PeerId → Option (List (Call I))
  find_for nodes r (err e) = some []
  find_for nodes r (ok pid) = find_with (get_elem? nodes r) pid

  -- case <-crawlTicker.C. Intn panics where there are no nodes. What FindPeer returns is only
  -- logged.
  unfoldable pub crawl_tick : List I.Node → ℕ → Result I.PublicKey → Option (List (Call I))
  crawl_tick [] r key = none
  crawl_tick (n ∷ ns) r (err e) = some []
  crawl_tick (n ∷ ns) r (ok key) = find_for (n ∷ ns) r (id_from_public_key key)

  -- The database, the jobs that are sent, the calls of IPFS in order, and the tickers that have
  -- been stopped.
  pub record Ticking : Type 0 where
    pub db : G.State
    pub sent : List (Job I)
    pub calls : List (Call I)
    pub stopped : List Ticker

  -- The loop. none is a panic.
  unfoldable pub ticker_events : Bool → List I.Node → List (Event I) → Ticking → Option Ticking
  unfolding crawl_tick old_tick unpin_tick
  ticker_events pin nodes [] s = some s
  ticker_events pin nodes (crawl_due r key ∷ es) s = elim (crawl_tick nodes r key) [
    | none ↦ none
    | some calls ↦ ticker_events pin nodes es (record s { calls = s.calls ++ calls })
  ]
  ticker_events pin nodes (gc_due ∷ es) s =
      ticker_events pin nodes es (record s { calls = s.calls ++ map collect_garbage nodes })
  ticker_events pin nodes (old_due t₁ t₂ t₃ ∷ es) s =
      let (jobs, db) = old_tick G I pin t₁ t₂ t₃ s.db in
      ticker_events pin nodes es (record s { db = db; sent = jobs ++ s.sent })
  ticker_events pin nodes (unpin_due t₁ t₂ ∷ es) s =
      let (unpins, db) = unpin_tick G I nodes t₁ t₂ s.db in
      ticker_events pin nodes es (record s { db = db; calls = s.calls ++ map remove_pin unpins })
  ticker_events pin nodes (shutting_down ∷ es) s =
      some (record s { stopped = s.stopped ++ crawl_ticker ∷ gc_ticker ∷ old_node_ticker ∷ [] })

  -- The goroutine, with the interval between crawls. time.NewTicker panics where it is not positive,
  -- as for the first ticker it may be; those of the others are constants.
  unfoldable pub ticker_loop : ℤ → Bool → List I.Node → List (Event I) → Ticking → Option Ticking
  unfolding ticker_events
  ticker_loop interval pin nodes es s =
      let run = ticker_events pin nodes es s in if is_positive interval then run else none
