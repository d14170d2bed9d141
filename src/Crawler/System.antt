-- ===== src/Crawler/System.antt =====
-- The whole crawler as a transition system, over what its parts share: the database and the queue
-- of jobs. A part takes the database's mutex for each transaction, so what runs at the same time is
-- here one transaction after another, in any order.
--
-- A crawl in progress is not a part of the state: its two transactions may come at any time, for
-- any job. That allows more than the code does.
pub mod Rows
pub mod Writes
pub mod Reads
pub mod Jobs
pub mod Keyed
pub mod Banned
pub mod Spec
pub mod Genuine
use obcrawler.Base.{ℕ, String, Bool, ◌≡◌, ◌≢◌, List, ◌∷◌, ◌++◌}
use obcrawler.Go.{GoError}
use obcrawler.Ipfs.{Ipfs, Job}
use obcrawler.Repo.Gorm.{Gorm}
use obcrawler.Repo.Database.{update}
use obcrawler.Crawler.Network.{Network}
use obcrawler.Crawler.Peers.{crawl_node, ban_node, unban_node, update_peer}
use obcrawler.Crawler.Records.{save_body}
use obcrawler.Crawler.Pubsub.{Message, handle_message}
use obcrawler.Crawler.Resolver.{handler}
use obcrawler.Crawler.Ticks.{old_tick, unpin_tick}
use obcrawler.Crawler.Worker.Run.{crawled_body}

-- The database, and the jobs that goroutines are about to send on workChan.
pub record System (G : Gorm) (I : Ipfs) : Type 0 where
  pub db : G.State
  pub queue : List (Job I)

module _ (G : Gorm) (I : Ipfs) (N : Network I) (message_id : Message I → String) where
  -- The steps, but for an UnbanNode of the peer with the key `kept`.
  pub data Step (kept : String) (s : System G I) : System G I → Type 0 where
    crawls :
        (pin : Bool) (pid : I.PeerId)
        → Step kept s (record {
          db = (crawl_node G I pin pid s.db).2;
          queue = (crawl_node G I pin pid s.db).0 ++ s.queue;
        })
    bans :
        (nodes : List I.Node) (pid : I.PeerId)
        → Step kept s (record s { db = (ban_node G I nodes pid s.db).2 })
    unbans :
        (pid : I.PeerId)
        → I.pid_string pid ≢ kept
        → Step kept s (record s { db = (unban_node G I pid s.db).2 })
    connects :
        (pid : I.PeerId) (first now : ℕ)
        → Step kept s (record s { db = update_peer G I pid first now s.db })
    hears :
        (m : Message I) (first now : ℕ) (recent : List String)
        → Step kept s (record {
          db = (handle_message G I message_id m first now recent s.db).2;
          queue = (handle_message G I message_id m first now recent s.db).0 ++ s.queue;
        })
    ticks :
        (pin : Bool) (t₁ t₂ t₃ : ℕ)
        → Step kept s (record {
          db = (old_tick G I pin t₁ t₂ t₃ s.db).1;
          queue = (old_tick G I pin t₁ t₂ t₃ s.db).0 ++ s.queue;
        })
    unpins :
        (nodes : List I.Node) (t₁ t₂ : ℕ)
        → Step kept s (record s { db = (unpin_tick G I nodes t₁ t₂ s.db).1 })
    answers :
        (render : GoError → List ℕ) (text : String)
        → Step kept s (record s { db = (handler G I render text s.db).1 })
    -- `case job := <-c.workChan`
    takes :
        (before after : List (Job I)) (j : Job I)
        → s.queue ≡ before ++ j ∷ after
        → Step kept s (record s { queue = before ++ after })
    -- the transaction of processJob on the CID records, and the one that it defers
    saves :
        (j : Job I) (graph : List I.Cid)
        → Step kept s (record s { db = (update G (save_body G I (I.pretty j.peer) graph) s.db).2 })
    marks :
        (j : Job I) (crawled_at pinned_at : ℕ)
        → Step kept s
            (record s { db = (update G (crawled_body G I N j crawled_at pinned_at) s.db).2 })

  pub data Reach (kept : String) (s : System G I) : System G I → Type 0 where
    here : Reach kept s s
    next : {t u : System G I} → Reach kept s t → Step kept t u → Reach kept s u

  pub Reach-trans :
      (kept : String) {s t u : System G I} → Reach kept s t → Reach kept t u → Reach kept s u
  Reach-trans kept r here = r
  Reach-trans kept r (next q st) = next (Reach-trans kept r q) st
