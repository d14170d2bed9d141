-- ===== src/Tests/Pubsub.antt =====
-- Witnesses on the goroutine that receives messages: one message comes three times.
use obcrawler.Base.{◌+◌, ◌≤◌, ◌≡◌, refl, true, [], Has, length, arith}
use obcrawler.Base.Tests.{string_dec}
use obcrawler.Repo.Memory.{memory}
use obcrawler.Crawler.Pubsub.{forget, handle_message}
use obcrawler.Crawler.Pubsub.Loop.{Timer, Loop, minute, receive, Reach, here, next, receives, fires}
use obcrawler.Crawler.Pubsub.Loop.Lists.{Spaced}
use obcrawler.Crawler.Pubsub.Loop.Spaced.{Reach-Spaced, Reach-contains}
use obcrawler.Tests.System.{two, alone, id_of, from_alice}

abbrev new_loop : Loop memory two id_of
new_loop = record {
  recent = [];
  timers = [];
  db = alone.db;
  sent = [];
  runs = true;
  clock = 90;
  handlings = [];
}

abbrev once : Loop memory two id_of
once = receive memory two id_of from_alice 100 1 2 new_loop

abbrev twice : Loop memory two id_of
twice = receive memory two id_of from_alice 130 3 4 once

abbrev first_timer : Timer
first_timer = record { due = 160; id = "id" }

abbrev forgotten : Loop memory two id_of
forgotten = record twice { recent = forget "id" twice.recent; timers = []; clock = 165 }

abbrev thrice : Loop memory two id_of
thrice = receive memory two id_of from_alice 170 5 6 forgotten

three_messages : Reach memory two id_of new_loop thrice
unfolding handle_message string_dec
three_messages =
    next
      (next
        (next (next here (receives from_alice 100 1 2 refl (omega arith)))
          (receives from_alice 130 3 4 refl (omega arith)))
        (fires [] [] first_timer 165 refl (omega arith) (omega arith)))
      (receives from_alice 170 5 6 refl (omega arith))

Reach-Spaced_example : Spaced thrice.handlings × (length thrice.sent ≤ length thrice.handlings)
Reach-Spaced_example =
    Reach-Spaced memory two id_of new_loop thrice (refl, refl, refl, refl) three_messages

Reach-contains_example :
    (x : Timer) × Has x thrice.timers × (x.id ≡ "id") × (x.due ≤ thrice.clock + minute)
unfolding handle_message forget string_dec
Reach-contains_example =
    Reach-contains memory two id_of new_loop thrice "id" (refl, refl, refl, refl) three_messages
      refl
