-- ===== src/Crawler/Worker/Week.antt =====
-- processJob of crawler/worker.go, and the ticker for old peers of crawler/crawler.go at any time
-- behind it.
use obcrawler.Base.{ℕ, ◌≤◌, String}
use obcrawler.Ipfs.{Ipfs, Job}
use obcrawler.Repo.Gorm.{Gorm}
use obcrawler.Crawler.Network.{Network}
use obcrawler.Crawler.Peers.{or_blank}
use obcrawler.Crawler.Pubsub.{Message}
use obcrawler.Crawler.System.{System, Reach, here, next}
use obcrawler.Crawler.System.Rows.{Action, banning, unbanning, crawled_at, other}
use obcrawler.Crawler.System.Keyed.{action}

-- The action saves no time of a crawl before this one.
abbrev pub Since : ℕ → Action → Type 0
Since ca (crawled_at t) = ca ≤ t
Since ca (banning key) = Unit
Since ca (unbanning key) = Unit
Since ca other = Unit

module _ (G : Gorm) (I : Ipfs) where
  abbrev pub last_crawl : G.State → String → ℕ
  last_crawl s key = (or_blank (G.peer_row s key)).last_crawled

module _ (G : Gorm) (I : Ipfs) (N : Network I) (message_id : Message I → String)
    (kept : String) where
  -- No crawl that the run saves is from before this time.
  abbrev pub AllSince : ℕ → {s t : System G I} → Reach G I N message_id kept s t → Type 0
  AllSince ca here = Unit
  AllSince ca (next r st) = Since ca (action G I N message_id kept st) × AllSince ca r
