-- ===== src/Go.antt =====
-- Go's error values, and the result of a call that may fail.
use obcrawler.Base.{ℕ, String, Option, none, some, ◌≡◌, refl, ◌⊎◌, inl, inr}

-- `record_not_found` is gorm.ErrRecordNotFound, the one library error that the code tells apart;
-- `message` is an error of the code's own; `foreign` is any other error of a called library.
pub data GoError : Type 0 where
  record_not_found : GoError
  message : String → GoError
  foreign : ℕ → GoError

pub data Result {ℓ} (A : Type ℓ) : Type ℓ where
  ok : A → Result A
  err : GoError → Result A

infixl 10 ◌>>=◌
abbrev pub ◌>>=◌ {ℓ κ} : {A : Type ℓ} {B : Type κ} → Result A → (A → Result B) → Result B
ok a >>= f = f a
err e >>= f = err e

-- `if err != nil { return err }` where a missing record is no error.
abbrev pub tolerate {ℓ} : {A : Type ℓ} → Result A → Result (Option A)
tolerate (ok a) = ok (some a)
tolerate (err record_not_found) = ok none
tolerate (err e) = err e

-- To split on a result and keep the equation.
pub Result-cases {ℓ} :
    {A : Type ℓ} (r : Result A) → ((a : A) × (r ≡ ok a)) ⊎ ((e : GoError) × (r ≡ err e))
Result-cases (ok a) = inl (a, refl)
Result-cases (err e) = inr (e, refl)

-- A chain that succeeds has a first step that succeeds, and the rest does from there.
pub bind-ok {ℓ} :
    {A B : Type ℓ} (m : Result A) (f : A → Result B) (b : B)
    → (m >>= f) ≡ ok b
    → (a : A) × (m ≡ ok a) × (f a ≡ ok b)
bind-ok (ok a) f b h = (a, refl, h)
bind-ok (err e) f b h = cc
