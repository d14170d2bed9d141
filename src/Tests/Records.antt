-- ===== src/Tests/Records.antt =====
-- Witnesses on the transaction that replaces a peer's records, on messages, and on the tickers.
use obcrawler.Base.{
  String, ◌≡◌, ◌≢◌, ◌↔◌, ◌≤◌, refl, true, false, some, List, [], ◌∷◌, All, length, contains, ◌*◌,
}
use obcrawler.Base.Tests.{string_dec}
use obcrawler.Go.{message, err}
use obcrawler.Ipfs.{Ipfs}
use obcrawler.Repo.Models.{blank}
use obcrawler.Repo.Memory.{Tables, memory, memory-IsLawful}
use obcrawler.Repo.Memory.Table.{lookup_row, first_row, without_row}
use obcrawler.Repo.Memory.Records.{matching, remaining}
use obcrawler.Repo.Database.{Outcome, update}
use obcrawler.Crawler.Records.{save_body}
use obcrawler.Crawler.Records.Saved.{texts}
use obcrawler.Crawler.Records.Dropped.{Alone}
use obcrawler.Crawler.Records.Exact.{update-copies, update-unpins}
use obcrawler.Crawler.Pubsub.{Message, Valid, handle_message, check_message, hear_body, pubsub_job}
use obcrawler.Crawler.Pubsub.Messages.{handle_message-saves}
use obcrawler.Crawler.Ticks.{old_tick, unpin_tick, day}
use obcrawler.Crawler.Ticks.Due.{old_tick-IsDue, IsDue}
use obcrawler.Crawler.Ticks.Alive.{unpin_tick-alive, FromAlive}
use obcrawler.Tests.{toy, known}

abbrev new_graph : List String
new_graph = "root" ∷ "a" ∷ []

update-copies_example :
    memory.copies (update memory (save_body memory toy "alice" new_graph) known).2 "a" "alice" ≡ 1
unfolding update save_body string_dec matching remaining
update-copies_example =
    update-copies memory memory-IsLawful toy "alice" new_graph known "a" "alice" (λ s. (_, refl))
      (λ fs s. refl) refl

update-unpins_example :
    (contains (update memory (save_body memory toy "alice" new_graph) known).0 "old" ≡ true) ↔ (
      (memory.copies known "old" "alice" ≢ 0)
      × (contains (texts toy new_graph) "old" ≡ false)
      × Alone memory memory-IsLawful "alice" known "old")
unfolding update save_body string_dec matching remaining
update-unpins_example =
    update-unpins memory memory-IsLawful toy "alice" new_graph known "old" (λ s. (_, refl)) refl

abbrev from_bob : Message toy
from_bob = record { from = "bob"; content = 9 ∷ [] }

abbrev id_of : Message toy → String
id_of m = "id"

abbrev valid_9 : Valid toy
valid_9 = record { entry = 9 ∷ []; eol = 900 }

handle_message-saves_example :
    (lookup_row "bob" (handle_message memory toy id_of from_bob 40 41 [] known).2.rows
      ≡ some (record blank {
        peer_id = "bob";
        first_seen = 40;
        last_seen = 41;
        ipns_expiration = 900;
        ipns_record = 9 ∷ [];
      }))
    × ((handle_message memory toy id_of from_bob 40 41 [] known).0
        ≡ pubsub_job memory toy from_bob valid_9 ∷ [])
    × ((handle_message memory toy id_of from_bob 40 41 [] known).1 ≡ "id" ∷ [])
unfolding update hear_body string_dec first_row lookup_row without_row check_message
handle_message-saves_example =
    handle_message-saves memory memory-IsLawful toy id_of from_bob 40 41 [] known valid_9 "bob" refl
      refl refl

abbrev banned_bob : Tables
banned_bob = (memory.save_peer (record blank { peer_id = "bob"; banned = true }) known).1

-- The same codecs, but no record parses.
abbrev garbled : Ipfs
garbled = record toy { unmarshal_entry = λ bs. err (message "proto: cannot parse") }

old_tick-IsDue_example :
    All
      (IsDue memory memory-IsLawful toy known true 100 (day * 8) (day * 90))
      (old_tick memory toy true 100 (day * 8) (day * 90) known).0
    × (length (old_tick memory toy true 100 (day * 8) (day * 90) known).0 ≤ 10)
old_tick-IsDue_example =
    old_tick-IsDue memory memory-IsLawful toy true 100 (day * 8) (day * 90) known

unpin_tick-alive_example :
    All
      (FromAlive memory memory-IsLawful toy known 100 (day * 90))
      (unpin_tick memory toy (0 ∷ []) 100 (day * 90) known).0
unpin_tick-alive_example = unpin_tick-alive memory memory-IsLawful toy (0 ∷ []) 100 (day * 90) known

-- Saves, then fails.
abbrev save_and_fail : Tables → Outcome Tables (Unit {0})
save_and_fail s = (tt, some (message "late"), (memory.save_peer blank s).1)
