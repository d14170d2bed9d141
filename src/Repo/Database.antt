-- ===== src/Repo/Database.antt =====
-- The transactions of repo/database.go. The mutex makes them run one after the other, so each is
-- one step from state to state. A body returns what its closure writes to the caller's
-- variables, its error, and the state that it has reached.
pub mod Options
pub mod Open
pub mod Mutex
pub mod Atomic
use obcrawler.Base.{◌≡◌, Option, none, some}
use obcrawler.Go.{GoError}
use obcrawler.Repo.Gorm.{Gorm}

abbrev pub Outcome : Type 0 → Type 0 → Type 0
Outcome S A = A × Option GoError × S

module _ (G : Gorm) {A : Type 0} where
  -- `tx.Rollback()` on an error, else `tx.Commit().Error`
  unfoldable pub finish : G.State → Outcome G.State A → Outcome G.State A
  finish s (a, none, t) = let (e, u) = G.commit s t in (a, e, u)
  finish s (a, some e, t) = (a, some e, G.rollback s t)

  unfoldable pub update : (G.State → Outcome G.State A) → G.State → Outcome G.State A
  unfolding finish
  update fn s = finish s (fn (G.begin s))

  -- Only the name tells a read from a write: the code is the same.
  unfoldable pub view : (G.State → Outcome G.State A) → G.State → Outcome G.State A
  unfolding finish
  view fn s = finish s (fn (G.begin s))
