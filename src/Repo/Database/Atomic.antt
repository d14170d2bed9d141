-- ===== src/Repo/Database/Atomic.antt =====
-- What a transaction leaves behind.
use obcrawler.Base.{◌≡◌, none, some, refl, inl, inr, Option-cases}
use obcrawler.Go.{GoError}
use obcrawler.Repo.Gorm.{Gorm, IsLawful, SameTables, SameTables-trans}
use obcrawler.Repo.Database.{Outcome, update, finish}

module _ (G : Gorm) (L : IsLawful G) {A : Type 0} where
  finish_failed :
      (s : G.State) (r : Outcome G.State A) (e : GoError)
      → (finish G s r).1 ≡ some e
      → SameTables G (finish G s r).2 s
  unfolding finish
  finish_failed s (b, none, t) e h = L.commit_failed s t e h
  finish_failed s (b, some e', t) e h = L.rollback_tables s t

  finish_done :
      (s : G.State) (r : Outcome G.State A)
      → (finish G s r).1 ≡ none
      → (r.1 ≡ none) × SameTables G (finish G s r).2 r.2
  unfolding finish
  finish_done s (b, none, t) h = (cc, L.commit_tables s t h)
  finish_done s (b, some e', t) h = cc

  -- A transaction that reports an error has left the tables as they were, whatever it did.
  pub update_atomic :
      (fn : G.State → Outcome G.State A) (s : G.State) (e : GoError)
      → (update G fn s).1 ≡ some e
      → SameTables G (update G fn s).2 s
  unfolding update
  update_atomic fn s e h = finish_failed s (fn (G.begin s)) e h

  -- One that reports none has run its body without an error, and left what the body made.
  pub update_done :
      (fn : G.State → Outcome G.State A) (s : G.State)
      → (update G fn s).1 ≡ none
      → ((fn (G.begin s)).1 ≡ none) × SameTables G (update G fn s).2 (fn (G.begin s)).2
  unfolding update
  update_done fn s h = finish_done s (fn (G.begin s)) h

module _ (G : Gorm) (L : IsLawful G) {A : Type 0} where
  -- A transaction whose body writes nothing leaves the tables as they were.
  pub update_pure :
      (fn : G.State → Outcome G.State A) (s : G.State)
      → ((u : G.State) → (fn u).2 ≡ u)
      → SameTables G (update G fn s).2 s
  update_pure fn s reads = elim (Option-cases (update G fn s).1) [
    | inl e ↦ SameTables-trans G _ _ s (update_done G L fn s e).1 (rw reads (L.begin_tables s))
    | inr (x, e) ↦ update_atomic G L fn s x e
  ]

finish_captured :
    (G : Gorm) {A : Type 0} (s : G.State) (r : Outcome G.State A) → (finish G s r).0 ≡ r.0
unfolding finish
finish_captured G s (b, none, t) = refl
finish_captured G s (b, some e', t) = refl

-- The variables that the body's closure writes keep what it wrote, also after a rollback.
pub update_captured :
    (G : Gorm) {A : Type 0} (fn : G.State → Outcome G.State A) (s : G.State)
    → (update G fn s).0 ≡ (fn (G.begin s)).0
unfolding update
update_captured G fn s = finish_captured G s (fn (G.begin s))
