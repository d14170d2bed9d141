-- ===== src/Crawler/Pubsub/Loop.antt =====
-- The goroutine of listenPubsub (crawler/pubsub.go) that receives messages, with the timers that
-- forget them and a database that other goroutines write.
pub mod Lists
pub mod Timers
pub mod Spaced
use obcrawler.Base.{
  ℕ, ◌+◌, ◌≤◌, String, ◌≡◌, Bool, true, false, Option, List, [], ◌∷◌, ◌++◌, contains, if◌then◌else◌,
}
use obcrawler.Ipfs.{Ipfs, Job}
use obcrawler.Repo.Gorm.{Gorm}
use obcrawler.Crawler.Pubsub.{Message, forget, handle_message}

-- A timer that `time.AfterFunc` has started: when it is due, and the message that it forgets.
pub record Timer : Type 0 where
  pub due : ℕ
  pub id : String

-- A message that was not a recent one, and the time at which its timer was started.
pub record Handling : Type 0 where
  pub id : String
  pub at : ℕ

-- time.Minute, in seconds
abbrev pub minute : ℕ
minute = 60

module _ (G : Gorm) (I : Ipfs) (message_id : Message I → String) where
  -- The recent messages, the timers, the database, the jobs that were sent, whether the goroutine
  -- still runs, the time of the last event, and the messages that it has handled.
  pub record Loop : Type 0 where
    pub recent : List String
    pub timers : List Timer
    pub db : G.State
    pub sent : List (Job I)
    pub runs : Bool
    pub clock : ℕ
    pub handlings : List Handling

  abbrev start_timer : String → ℕ → List String → List Timer → List Timer
  start_timer id at recent timers =
      if contains recent id then timers else record { due = at + minute; id = id } ∷ timers

  abbrev note_handling : String → ℕ → List String → List Handling → List Handling
  note_handling id at recent handlings =
      if contains recent id then handlings else record { id = id; at = at } ∷ handlings

  -- case message := <-messageChan
  abbrev pub receive : Message I → ℕ → ℕ → ℕ → Loop → Loop
  receive m at first now s =
      let (jobs, recent, db) = handle_message G I message_id m first now s.recent s.db in
      record s {
        recent = recent;
        timers = start_timer (message_id m) at s.recent s.timers;
        db = db;
        sent = jobs ++ s.sent;
        clock = at;
        handlings = note_handling (message_id m) at s.recent s.handlings;
      }

  -- The events, at times that never go back.
  pub data Step (s : Loop) : Loop → Type 0 where
    receives :
        (m : Message I) (at first now : ℕ)
        → s.runs ≡ true
        → s.clock ≤ at
        → Step s (receive m at first now s)
    -- A timer that is due runs, in a goroutine of its own.
    fires :
        (before after : List Timer) (x : Timer) (at : ℕ)
        → s.timers ≡ before ++ x ∷ after
        → x.due ≤ at
        → s.clock ≤ at
        → Step s (record s { recent = forget x.id s.recent; timers = before ++ after; clock = at })
    -- case <-c.shutdown: the goroutine returns, or panics at a nil subscription.
    ends : Step s (record s { runs = false })
    -- Other goroutines change the database.
    others : (db : G.State) → Step s (record s { db = db })

  pub data Reach (s : Loop) : Loop → Type 0 where
    here : Reach s s
    next : {t u : Loop} → Reach s t → Step t u → Reach s u
