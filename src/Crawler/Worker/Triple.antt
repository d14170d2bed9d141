-- ===== src/Crawler/Worker/Triple.antt =====
-- Conditions before and after a part of processJob's body.
use obcrawler.Crawler.Worker.Defs.{Flow, next, stop, halted, continue, ◌>>=◌}

-- `Q` holds where the flow goes on, and `R` where it meets a return.
abbrev pub Ends : {S A : Type 0} → (A → S → Type 0) → (S → Type 0) → Flow S A → Type 0
Ends Q R (next a s) = Q a s
Ends Q R (stop s) = R s
Ends Q R halted = Unit

pub record Triple {S A : Type 0} (P : S → Type 0) (m : S → Flow S A) (Q : A → S → Type 0)
    (R : S → Type 0) : Type 0 where
  pub at : (s : S) → P s → Ends Q R (m s)

module _ {S A B : Type 0} (Q : A → S → Type 0) (Q' : B → S → Type 0) (R : S → Type 0) where
  Ends-continue :
      (r : Flow S A) (f : A → S → Flow S B)
      → Ends Q R r
      → ((a : A) → Triple (Q a) (f a) Q' R)
      → Ends Q' R (continue r f)
  Ends-continue (next a s) f h k = (k a).at s h
  Ends-continue (stop s) f h k = h
  Ends-continue halted f h k = tt

  -- The rule for one step and the rest.
  pub Triple-bind :
      {P : S → Type 0} (m : S → Flow S A) (f : A → S → Flow S B)
      → Triple P m Q R
      → ((a : A) → Triple (Q a) (f a) Q' R)
      → Triple P (m >>= f) Q' R
  Triple-bind m f hm hf = record { at = λ s p. Ends-continue (m s) f (hm.at s p) hf }
