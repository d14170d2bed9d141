-- ===== src/Tests/Concurrent.antt =====
-- A witness on the mutex: two threads call Update together.
use obcrawler.Base.{ℕ, refl, none, some, [], ◌∷◌}
use obcrawler.Go.{message}
use obcrawler.Repo.Memory.{Tables, memory}
use obcrawler.Repo.Models.{blank}
use obcrawler.Repo.Database.{Outcome}
use obcrawler.Repo.Database.Mutex.{
  outside, waiting, locked, begun, ran, finished, Shared, set_thread, end_now, Reach, here, next,
  calls, locks, begins, runs, ends, returns, Serial,
}
use obcrawler.Repo.Database.Mutex.Held.{Reach-Serial}
use obcrawler.Repo.Database.Mutex.Free.{Returns, Reach-Returns}
use obcrawler.Tests.{known, alice}

-- One saves alice again; the other saves a row, and then fails.
abbrev saving : Tables → Outcome Tables ℕ
saving s = (1, none, (memory.save_peer alice s).1)

abbrev failing : Tables → Outcome Tables ℕ
failing s = (2, some (message "late"), (memory.save_peer blank s).1)

abbrev before_calls : Shared memory ℕ
before_calls = record { db = known; holder = none; threads = λ i. outside; log = [] }

abbrev first_called : Shared memory ℕ
first_called = record before_calls {
  threads = set_thread memory ℕ 0 (waiting saving) before_calls.threads;
}

abbrev both_called : Shared memory ℕ
both_called = record first_called {
  threads = set_thread memory ℕ 1 (waiting failing) first_called.threads;
}

abbrev failing_locked : Shared memory ℕ
failing_locked = record both_called {
  holder = some 1;
  threads = set_thread memory ℕ 1 (locked failing) both_called.threads;
}

abbrev failing_begun : Shared memory ℕ
failing_begun = record failing_locked {
  db = memory.begin failing_locked.db;
  threads = set_thread memory ℕ 1 (begun failing failing_locked.db) failing_locked.threads;
}

abbrev failing_ran : Shared memory ℕ
failing_ran = record failing_begun {
  db = (failing failing_begun.db).2;
  threads =
      set_thread memory ℕ 1 (ran failing failing_locked.db (failing failing_begun.db))
        failing_begun.threads;
}

abbrev failing_ended : Shared memory ℕ
failing_ended = record failing_ran {
  db = (end_now memory ℕ failing_locked.db (failing failing_begun.db) failing_ran.db).2;
  threads =
      set_thread memory ℕ 1
        (finished failing
          (end_now memory ℕ failing_locked.db (failing failing_begun.db) failing_ran.db))
        failing_ran.threads;
}

abbrev failing_returned : Shared memory ℕ
failing_returned = record failing_ended {
  holder = none;
  threads = set_thread memory ℕ 1 (outside) failing_ended.threads;
  log =
      record {
        thread = 1;
        body = failing;
        result = (end_now memory ℕ failing_locked.db (failing failing_begun.db) failing_ran.db);
      }
      ∷ failing_ended.log;
}

abbrev saving_locked : Shared memory ℕ
saving_locked = record failing_returned {
  holder = some 0;
  threads = set_thread memory ℕ 0 (locked saving) failing_returned.threads;
}

abbrev saving_begun : Shared memory ℕ
saving_begun = record saving_locked {
  db = memory.begin saving_locked.db;
  threads = set_thread memory ℕ 0 (begun saving saving_locked.db) saving_locked.threads;
}

abbrev saving_ran : Shared memory ℕ
saving_ran = record saving_begun {
  db = (saving saving_begun.db).2;
  threads =
      set_thread memory ℕ 0 (ran saving saving_locked.db (saving saving_begun.db))
        saving_begun.threads;
}

abbrev saving_ended : Shared memory ℕ
saving_ended = record saving_ran {
  db = (end_now memory ℕ saving_locked.db (saving saving_begun.db) saving_ran.db).2;
  threads =
      set_thread memory ℕ 0
        (finished saving (end_now memory ℕ saving_locked.db (saving saving_begun.db) saving_ran.db))
        saving_ran.threads;
}

abbrev saving_returned : Shared memory ℕ
saving_returned = record saving_ended {
  holder = none;
  threads = set_thread memory ℕ 0 (outside) saving_ended.threads;
  log =
      record {
        thread = 0;
        body = saving;
        result = (end_now memory ℕ saving_locked.db (saving saving_begun.db) saving_ran.db);
      }
      ∷ saving_ended.log;
}

two_calls : Reach memory ℕ before_calls saving_returned
two_calls =
    (next
      (next
        (next
          (next
            (next
              (next
                (next
                  (next
                    (next
                      (next (next (next here (calls 0 saving refl)) (calls 1 failing refl))
                        (locks 1 failing refl refl))
                      (begins 1 failing refl))
                    (runs 1 failing failing_locked.db refl))
                  (ends 1 failing failing_locked.db (failing failing_begun.db) refl))
                (returns 1 failing
                  (end_now memory ℕ failing_locked.db (failing failing_begun.db) failing_ran.db)
                  refl))
              (locks 0 saving refl refl))
            (begins 0 saving refl))
          (runs 0 saving saving_locked.db refl))
        (ends 0 saving saving_locked.db (saving saving_begun.db) refl))
      (returns 0 saving (end_now memory ℕ saving_locked.db (saving saving_begun.db) saving_ran.db)
        refl))

Reach-Serial_example : Serial memory ℕ known saving_returned.log saving_returned.db
Reach-Serial_example =
    Reach-Serial memory ℕ before_calls saving_returned refl refl (λ i. refl) two_calls refl

one_begun : Reach memory ℕ before_calls failing_begun
one_begun =
    next
      (next (next (next here (calls 0 saving refl)) (calls 1 failing refl))
        (locks 1 failing refl refl))
      (begins 1 failing refl)

Reach-Returns_example : Returns memory ℕ 0 saving failing_begun
Reach-Returns_example =
    Reach-Returns memory ℕ before_calls failing_begun 0 saving refl refl (λ i. refl) one_begun refl
