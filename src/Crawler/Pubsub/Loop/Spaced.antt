-- ===== src/Crawler/Pubsub/Loop/Spaced.antt =====
-- How often the goroutine of listenPubsub handles one message.
use obcrawler.Base.{
  ℕ, ◌+◌, ◌≤◌, String, ◌≡◌, refl, true, false, [], contains, arith, inl, inr, Has, length,
  length-append, Bool-cases,
}
use obcrawler.Go.{Result, ok, err}
use obcrawler.Ipfs.{Ipfs}
use obcrawler.Repo.Gorm.{Gorm}
use obcrawler.Repo.Database.{update}
use obcrawler.Crawler.Pubsub.{Message, Valid, handle_message, check_message, accept, hear_body}
use obcrawler.Crawler.Pubsub.Loop.{
  Timer, minute, Loop, Step, receives, fires, ends, others, Reach, here, next,
}
use obcrawler.Crawler.Pubsub.Loop.Lists.{Spaced}
use obcrawler.Crawler.Pubsub.Loop.Timers.{Inv, Inv-later, Inv-new, Inv-fires}

module _ (G : Gorm) (I : Ipfs) (message_id : Message I → String) where
  accept-jobs :
      (m : Message I) (first now : ℕ) (r : Result (Valid I)) (s : G.State)
      → length (accept G I m first now r s).0 ≤ 1
  accept-jobs m first now (err e) s = omega arith
  accept-jobs m first now (ok v) s =
      elim (Bool-cases (update G (hear_body G I m v.eol first now) s).0) [
        | inl b ↦ rw b (omega arith)
        | inr b ↦ rw b (omega arith)
      ]

  abbrev StateInv : Loop G I message_id → Type 0
  StateInv s = Inv s.recent s.timers s.clock s.handlings × (length s.sent ≤ length s.handlings)

  Step-StateInv : {s t : Loop G I message_id} → Step G I message_id s t → StateInv s → StateInv t
  unfolding handle_message
  Step-StateInv {s} (receives m at first now on later) (inv, few) =
      elim (Bool-cases (contains s.recent (message_id m))) [
        | inl old ↦ rw old (Inv-later s.recent s.timers s.clock s.handlings inv at later, few)
        | inr new ↦ rw new (
          Inv-new s.recent s.timers s.clock s.handlings inv at later (message_id m) new,
          omega (
            arith,
            few,
            accept-jobs m first now (check_message I m) s.db,
            length-append (accept G I m first now (check_message I m) s.db).0 s.sent,
          ),
        )
      ]
  Step-StateInv {s} (fires before after x at e due later) (inv, few) =
      (Inv-fires s.recent s.timers s.clock s.handlings inv at later before after x e due, few)
  Step-StateInv ends h = h
  Step-StateInv (others db) h = h

  Reach-StateInv : {s t : Loop G I message_id} → Reach G I message_id s t → StateInv s → StateInv t
  Reach-StateInv here h = h
  Reach-StateInv (next r st) h = Step-StateInv st (Reach-StateInv r h)

  -- A loop that has begun: nothing was received.
  abbrev pub IsNew : Loop G I message_id → Type 0
  IsNew s = (s.recent ≡ []) × (s.timers ≡ []) × (s.sent ≡ []) × (s.handlings ≡ [])

  new-StateInv : (s : Loop G I message_id) → IsNew s → StateInv s
  new-StateInv s (r, t, j, h) = (
    record {
      timed = rw t tt;
      apart = rw t tt;
      spaced = rw h tt;
      past = rw h tt;
      covered = rw h tt;
      waits = rw t tt;
      timer_of = λ id m. let none_there : contains s.recent id ≡ false = rw r refl in ground arith;
    },
    rw (j, h) (omega arith),
  )

  -- However messages, timers, the shutdown and other writers of the database interleave, the loop
  -- handles messages with the same hash a minute or more apart, and sends at most one job for each
  -- handling.
  pub Reach-Spaced :
      (s t : Loop G I message_id)
      → IsNew s
      → Reach G I message_id s t
      → Spaced t.handlings × (length t.sent ≤ length t.handlings)
  Reach-Spaced s t begun r =
      let (inv, few) = Reach-StateInv r (new-StateInv s begun) in (inv.spaced, few)

  -- A recent message has a timer that forgets it, due within a minute of the last event.
  pub Reach-contains :
      (s t : Loop G I message_id) (id : String)
      → IsNew s
      → Reach G I message_id s t
      → contains t.recent id ≡ true
      → (x : Timer) × Has x t.timers × (x.id ≡ id) × (x.due ≤ t.clock + minute)
  Reach-contains s t id begun r m =
      let (inv, _) = Reach-StateInv r (new-StateInv s begun) in inv.timer_of id m
