-- ===== src/Crawler/Start.antt =====
-- Start of crawler/crawler.go, with the part of listenPubsub (crawler/pubsub.go) that subscribes.
use obcrawler.Base.{
  ℕ, zero, suc, ◌<◌, ◌≤◌, ◌≡◌, refl, true, Option, none, some, List, [], ◌∷◌, ◌++◌, map, length,
  arith,
}
use obcrawler.Go.{GoError, Result, ok, err}
use obcrawler.Crawler.Pubsub.{all_subs, close_subs, close_subs-panics}

-- What is begun: a node, its notifications of connections, the goroutine of the tickers, a worker,
-- the reader of a subscription, and the goroutine that handles messages and shuts down.
pub data Begun (N S : Type 0) : Type 0 where
  node_started : N → Begun N S
  peers_heard : N → Begun N S
  tickers : Begun N S
  worker_begun : Begun N S
  reader : S → Begun N S
  handler_begun : List (Option S) → Begun N S

module _ {N S : Type 0} (subscribe : N → Result S) where
  -- `nodes[:n]`; none is a panic, here or at a nil node that the capacity allows.
  unfoldable pub slice : ℕ → List N → Option (List N)
  slice zero ns = some []
  slice (suc k) [] = none
  slice (suc k) (n ∷ ns) = elim (slice k ns) [ none ↦ none | some ms ↦ some (n ∷ ms) ]

  -- The subscriptions, up to the first node that fails.
  unfoldable pub subscribe_nodes : List N → List S × Option GoError
  subscribe_nodes [] = ([], none)
  subscribe_nodes (n ∷ ns) =
      let (subs, e) = subscribe_nodes ns in
      elim (subscribe n) [ ok s ↦ (s ∷ subs, e) | err x ↦ ([], some x) ]

  abbrev pub handled : ℕ → List S × Option GoError → List (Begun N S) × Option GoError
  handled num (subs, some e) = (map reader subs, some e)
  handled num (subs, none) = (map reader subs ++ handler_begun (all_subs num subs) ∷ [], none)

  unfoldable pub listen_pubsub : ℕ → List N → Option (List (Begun N S) × Option GoError)
  listen_pubsub num nodes = elim (slice num nodes) [
    | none ↦ none
    | some ns ↦ some (handled num (subscribe_nodes ns))
  ]

  abbrev pub nodes_begun : List N → List (Begun N S)
  nodes_begun [] = []
  nodes_begun (n ∷ ns) = node_started n ∷ peers_heard n ∷ nodes_begun ns

  abbrev pub workers_begun : ℕ → List (Begun N S)
  workers_begun zero = []
  workers_begun (suc k) = worker_begun ∷ workers_begun k

  abbrev pub with_begun :
      List (Begun N S)
      → Option (List (Begun N S) × Option GoError)
      → Option (List (Begun N S) × Option GoError)
  with_begun before none = none
  with_begun before (some (after, e)) = some (before ++ after, e)

  -- What is begun, in order, and the error.
  unfoldable pub start : List N → ℕ → ℕ → Option (List (Begun N S) × Option GoError)
  start nodes num_workers num_pubsub =
      with_begun (nodes_begun nodes ++ tickers ∷ workers_begun num_workers)
        (listen_pubsub num_pubsub nodes)

  slice_fits :
      (k : ℕ) (nodes : List N) → k ≤ length nodes → (ms : List N) × (slice k nodes ≡ some ms)
  unfolding slice
  slice_fits zero nodes h = ([], refl)
  slice_fits (suc k) [] h = absurd (omega arith)
  slice_fits (suc k) (n ∷ ns) h =
      let (ms, e) = slice_fits k ns (omega (arith, h)) in (n ∷ ms, rw e refl)

  -- What a Start is that returns: the nodes, the tickers and the workers have begun, with readers
  -- behind them; and without an error, the goroutine that handles messages has begun as well, whose
  -- list of subscriptions makes it panic on shutdown before it has closed any.
  abbrev pub Returned : List N → ℕ → List (Begun N S) → Option GoError → Type 0
  Returned nodes num_workers begun (some e) =
      (subs : List S) × (begun
        ≡ (nodes_begun nodes ++ tickers ∷ workers_begun num_workers) ++ map reader subs)
  Returned nodes num_workers begun none =
      (subs : List S) × (listed : List (Option S)) × (begun
        ≡ (nodes_begun nodes ++ tickers ∷ workers_begun num_workers)
          ++ (map reader subs ++ handler_begun listed ∷ []))
      × (close_subs listed ≡ ([], true))

  returned :
      (nodes : List N) (num_workers num_pubsub : ℕ) (r : List S × Option GoError)
      → 0 < num_pubsub
      → Returned nodes num_workers
          ((nodes_begun nodes ++ tickers ∷ workers_begun num_workers) ++ (handled num_pubsub r).0)
          (handled num_pubsub r).1
  returned nodes num_workers num_pubsub (subs, none) some_pubsub =
      (subs, all_subs num_pubsub subs, refl, close_subs-panics num_pubsub subs some_pubsub)
  returned nodes num_workers num_pubsub (subs, some e) some_pubsub = (subs, refl)

  -- With as many nodes as pubsub nodes, and one of these at least, Start returns. If it returns an
  -- error, the nodes, the tickers and the workers have begun all the same; if it returns none, the
  -- goroutine that handles messages will panic on shutdown.
  pub start_lem :
      (nodes : List N) (num_workers num_pubsub : ℕ)
      → 0 < num_pubsub
      → num_pubsub ≤ length nodes
      → (begun : List (Begun N S)) × (e : Option GoError) × (start nodes num_workers num_pubsub
          ≡ some (begun, e))
        × Returned nodes num_workers begun e
  unfolding start listen_pubsub
  start_lem nodes num_workers num_pubsub some_pubsub fits =
      let (ms, e) = slice_fits num_pubsub nodes fits in
      (
        (nodes_begun nodes ++ tickers ∷ workers_begun num_workers)
            ++ (handled num_pubsub (subscribe_nodes ms)).0,
        (handled num_pubsub (subscribe_nodes ms)).1,
        rw (e, listen_pubsub) refl,
        returned nodes num_workers num_pubsub (subscribe_nodes ms) some_pubsub,
      )
