-- ===== src/Main.antt =====
-- main of obcrawler.go: the exit code of the program.
pub mod Exit
use obcrawler.Base.{
  ℕ, zero, suc, ◌≡◌, ◌≢◌, refl, ◌∙◌, ap, Bool, true, false, Option, none, some, List, [], ◌∷◌, ◌++◌,
  All, arith, inl, inr, Option-cases, ◌↔◌, ◌&&◌, if◌then◌else◌,
}
use obcrawler.Go.{GoError, Result, ok, err, Result-cases}
use obcrawler.Crawler.Pubsub.{close_subs}
use obcrawler.Crawler.Stop.{Switches, stop, UpToFirst, stop_lem}

-- What happens while main waits: os.Interrupt, os.Kill, or the panic of another goroutine, as that
-- of the tickers where the interval is not positive, which ends the program.
pub data Signal : Type 0 where
  interrupt kill crash : Signal

-- The program waits, has exited with a code, or has panicked.
pub data Ending : Type 0 where
  waits : Ending
  exits : ℕ → Ending
  panics : Ending

-- repo.LoadConfig, NewCrawler and Start, each as what it returns; a crawler is what its nodes, its
-- switches and the subscriptions of its message handler are then. The handler is a goroutine: what
-- it does when Stop has closed the shutdown channel may come before main exits, or not.
pub record Program : Type 1 where
  pub Config : Type 0
  pub Node : Type 0
  pub load_config : Result Config
  pub new_crawler : Config → Result (List Node)
  pub start : List Node → Option GoError
  pub stop_node : Node → Option GoError
  pub Subscription : Type 0
  pub subscriptions : List Node → List (Option Subscription)
  pub handler_first : Bool

module _ (P : Program) where
  abbrev pub running : Switches P.Node
  running = record { shutdown_closed = false; cancelled = false; asked = [] }

  abbrev pub stopped : Option (Switches P.Node × Option GoError) → Ending
  stopped none = panics
  stopped (some (s, some e)) = exits 1
  stopped (some (s, none)) = exits 0

  -- Whether the message handler, which then closes its subscriptions, panics before main exits.
  abbrev pub crashes : List P.Node → Bool
  crashes nodes = P.handler_first && (close_subs (P.subscriptions nodes)).1

  -- Stop, and the exit behind it. A panic of any goroutine ends the program.
  abbrev pub interrupted : List P.Node → Ending
  interrupted nodes = if crashes nodes then panics else stopped (stop P.stop_node nodes running)

  -- The loop over the signals, which ends at the first.
  abbrev pub on_signals : List P.Node → List Signal → Ending
  on_signals nodes [] = waits
  on_signals nodes (kill ∷ signals) = exits 1
  on_signals nodes (crash ∷ signals) = panics
  on_signals nodes (interrupt ∷ signals) = interrupted nodes

  abbrev pub started : List P.Node → Option GoError → List Signal → Ending
  started nodes (some e) signals = exits 1
  started nodes none signals = on_signals nodes signals

  abbrev pub created : Result (List P.Node) → List Signal → Ending
  created (err e) signals = exits 1
  created (ok nodes) signals = started nodes (P.start nodes) signals

  abbrev pub configured : Result P.Config → List Signal → Ending
  configured (err e) signals = exits 1
  configured (ok cfg) signals = created (P.new_crawler cfg) signals

  -- log.Fatal exits with the code 1.
  unfoldable pub main : List Signal → Ending
  main signals = configured P.load_config signals

  -- Everything has come up, the first signal is an interrupt, and the nodes are as Q says.
  abbrev pub Interrupted : (List P.Node → Type 0) → List Signal → Type 0
  Interrupted Q signals =
      (cfg : P.Config) × (nodes : List P.Node) × (rest : List Signal) × (P.load_config ≡ ok cfg)
      × (P.new_crawler cfg ≡ ok nodes)
      × (P.start nodes ≡ none)
      × (signals ≡ interrupt ∷ rest)
      × Q nodes

  -- The message handler does not come first with a panic, and every node stops.
  abbrev pub StopsWell : List P.Node → Type 0
  StopsWell nodes = (crashes nodes ≡ false) × All (λ n. P.stop_node n ≡ none) nodes
