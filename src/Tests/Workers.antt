-- ===== src/Tests/Workers.antt =====
-- Witnesses on a worker: what one crawl, and what a run of its loop, does to the database.
use obcrawler.Base.{String, ◌≡◌, ◌≢◌, refl, false, Option, none, some, List, [], ◌∷◌}
use obcrawler.Base.Tests.{string_dec}
use obcrawler.Repo.Memory.{memory, memory-IsLawful}
use obcrawler.Repo.Memory.Records.{matching, remaining}
use obcrawler.Repo.Memory.Table.{first_row}
use obcrawler.Crawler.Worker.Run.{process_job}
use obcrawler.Crawler.Worker.Loop.{Arrival, arrives, shutting_down, Worked, worker, worker-frame}
use obcrawler.Crawler.Worker.Frame.{untimed}
use obcrawler.Rpc.Models.{Models}
use obcrawler.Go.{ok}
use obcrawler.Tests.Rpc.{fields}
use obcrawler.Tests.{toy, net, known}
use obcrawler.Tests.Jobs.{setup, job_of_alice, job_of_carol, different}

abbrev both_jobs : List (Arrival toy)
both_jobs = arrives 0 50 60 job_of_alice ∷ arrives 0 70 80 job_of_carol ∷ shutting_down ∷ []

abbrev or_idle : Option (Worked memory toy net) → Worked memory toy net
or_idle none = record { returned = false; world = 0; db = known }
or_idle (some t) = t

abbrev worked : Worked memory toy net
unfolding worker
worked = or_idle (worker memory toy net setup both_jobs 0 known)

both_return : worker memory toy net setup both_jobs 0 known ≡ some worked
unfolding worker process_job string_dec matching first_row remaining
both_return = refl

alice_named : ◌≢◌ {A = String} "alice" ""
unfolding string_dec
alice_named = different "alice" "" refl

not_for_bob :
    (◌≢◌ {A = String} "bob" (toy.pretty job_of_alice.peer))
    × (◌≢◌ {A = String} "bob" (toy.pretty job_of_carol.peer))
unfolding string_dec
not_for_bob = (different "bob" "alice" refl, different "bob" "carol" refl)

worker-frame_example :
    (untimed (memory.peer_row worked.db "alice") ≡ untimed (memory.peer_row known "alice"))
    × (memory.copies worked.db "shared" "bob" ≡ memory.copies known "shared" "bob")
worker-frame_example =
    worker-frame memory toy net memory-IsLawful setup both_jobs 0 known worked "alice" "shared"
      "bob" alice_named (not_for_bob.0, (not_for_bob.1, (tt, tt))) both_return

-- A server that reads a profile's expiration and nothing else.
abbrev read_fields : Models
read_fields = record fields { timestamp_proto = λ t. ok t }
