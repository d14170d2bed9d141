-- ===== src/Tests/Ticks.antt =====
-- A witness on the goroutine of the tickers: each of them ticks once, and the crawler shuts down.
use obcrawler.Base.{Bool, true, false, ◌≡◌, ◌⊎◌, none, List, [], ◌∷◌, arith}
use obcrawler.Go.{Result, ok, err, message}
use obcrawler.Repo.Memory.{memory, memory-IsLawful}
use obcrawler.Crawler.Launch.{ℤ, pos}
use obcrawler.Crawler.Ticks.Loop.{
  Ticking, is_positive, ticker_events, ticker_loop, Event, crawl_due, gc_due, old_due, unpin_due,
  shutting_down,
}
use obcrawler.Crawler.Ticks.Loop.Steps.{Runs, ticker_loop-Reach}
use obcrawler.Tests.System.{two, two_net, id_of, alone}

abbrev found_bob : Unit {0} → Result Bool
found_bob key = ok false

abbrev begun : Ticking memory two found_bob
begun = record { db = alone.db; sent = []; calls = []; stopped = [] }

abbrev one_round : List (Event two)
one_round =
    crawl_due 1 (ok tt)
    ∷ crawl_due 0 (err (message "no entropy"))
    ∷ gc_due
    ∷ old_due 1 2 3
    ∷ unpin_due 1 2
    ∷ shutting_down
    ∷ []

-- A minute.
abbrev interval : ℤ
interval = pos 60000000000

ticker_loop-Reach_example :
    ((is_positive interval ≡ false)
      × (ticker_loop memory two found_bob interval true (0 ∷ 1 ∷ []) one_round begun ≡ none))
    ⊎ (Runs memory memory-IsLawful two found_bob two_net id_of "alice" true
          (0 ∷ 1 ∷ [])
          one_round
          begun
        × (ticker_loop memory two found_bob interval true (0 ∷ 1 ∷ []) one_round begun
            ≡ ticker_events memory two found_bob true (0 ∷ 1 ∷ []) one_round begun))
ticker_loop-Reach_example =
    ticker_loop-Reach memory memory-IsLawful two found_bob two_net id_of "alice" true (0 ∷ 1 ∷ [])
      interval one_round begun (omega arith, (omega arith, (tt, (tt, (tt, (tt, tt)))))) tt
