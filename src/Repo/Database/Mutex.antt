-- ===== src/Repo/Database/Mutex.antt =====
-- View and Update of repo/database.go as threads: each call takes the mutex, begins a transaction,
-- runs its body, ends the transaction and gives the mutex back, and any other thread may take a
-- step in between.
pub mod Held
pub mod Free
use obcrawler.Base.{ℕ, ◌≡◌, Option, none, some, List, [], ◌∷◌, ◌==◌, if◌then◌else◌}
use obcrawler.Repo.Gorm.{Gorm}
use obcrawler.Repo.Database.{Outcome, finish, update}

module _ (G : Gorm) (A : Type 0) where
  abbrev pub Body : Type 0
  Body = G.State → Outcome G.State A

  -- Where a call of View or Update is. A transaction keeps the state in which it has begun.
  pub data Thread : Type 0 where
    outside : Thread
    waiting : Body → Thread
    locked : Body → Thread
    begun : Body → G.State → Thread
    ran : Body → G.State → Outcome G.State A → Thread
    finished : Body → Outcome G.State A → Thread

  -- A call that has returned, with its result.
  pub record Returned : Type 0 where
    pub thread : ℕ
    pub body : Body
    pub result : Outcome G.State A

  -- The database, the thread that holds the mutex, the threads, and the calls that have returned,
  -- the last one first.
  pub record Shared : Type 0 where
    pub db : G.State
    pub holder : Option ℕ
    pub threads : ℕ → Thread
    pub log : List Returned

  abbrev pub set_thread : ℕ → Thread → (ℕ → Thread) → ℕ → Thread
  set_thread i x f k = if k == i then x else f k

  -- What the end of a transaction makes of the database as it is then.
  abbrev pub end_now : G.State → Outcome G.State A → G.State → Outcome G.State A
  end_now start (a, e, t) now = finish G start (a, e, now)

  pub data Step (s : Shared) : Shared → Type 0 where
    calls :
        (i : ℕ) (fn : Body)
        → s.threads i ≡ outside
        → Step s (record s { threads = set_thread i (waiting fn) s.threads })
    -- d.mtx.Lock()
    locks :
        (i : ℕ) (fn : Body)
        → s.threads i ≡ waiting fn
        → s.holder ≡ none
        → Step s (record s { holder = some i; threads = set_thread i (locked fn) s.threads })
    -- tx := d.db.Begin()
    begins :
        (i : ℕ) (fn : Body)
        → s.threads i ≡ locked fn
        → Step s (record s { db = G.begin s.db; threads = set_thread i (begun fn s.db) s.threads })
    -- fn(tx)
    runs :
        (i : ℕ) (fn : Body) (start : G.State)
        → s.threads i ≡ begun fn start
        → Step s (record s {
          db = (fn s.db).2;
          threads = set_thread i (ran fn start (fn s.db)) s.threads;
        })
    -- tx.Rollback() or tx.Commit()
    ends :
        (i : ℕ) (fn : Body) (start : G.State) (o : Outcome G.State A)
        → s.threads i ≡ ran fn start o
        → Step s (record s {
          db = (end_now start o s.db).2;
          threads = set_thread i (finished fn (end_now start o s.db)) s.threads;
        })
    -- d.mtx.Unlock(), which is deferred
    returns :
        (i : ℕ) (fn : Body) (r : Outcome G.State A)
        → s.threads i ≡ finished fn r
        → Step s (record s {
          holder = none;
          threads = set_thread i outside s.threads;
          log = record { thread = i; body = fn; result = r } ∷ s.log;
        })

  pub data Reach (s : Shared) : Shared → Type 0 where
    here : Reach s s
    next : {t u : Shared} → Reach s t → Step t u → Reach s u

  -- The calls of the log, one whole call after the other from the state `s₀`, lead to the state,
  -- and each has returned what it returns alone.
  pub data Serial (s₀ : G.State) : List Returned → G.State → Type 0 where
    none_yet : Serial s₀ [] s₀
    serially :
        (log : List Returned) (s : G.State) (i : ℕ) (fn : Body)
        → Serial s₀ log s
        → Serial s₀
            (record { thread = i; body = fn; result = update G fn s } ∷ log)
            (update G fn s).2
