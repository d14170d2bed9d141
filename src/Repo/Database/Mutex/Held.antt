-- ===== src/Repo/Database/Mutex/Held.antt =====
-- The calls of View and Update of repo/database.go by several threads, against one call after the
-- other.
use obcrawler.Base.{
  ℕ, ◌≡◌, ◌≢◌, refl, ◌∙◌, ap, sym, subst, none, some, List, [], ◌∷◌, ◌==◌, arith, inl, inr,
  Bool-cases,
}
use obcrawler.Repo.Gorm.{Gorm}
use obcrawler.Repo.Database.{Outcome, finish, update}
use obcrawler.Repo.Database.Mutex.{
  Body, Thread, outside, waiting, locked, begun, ran, finished, Returned, Shared, set_thread,
  end_now, Step, calls, locks, begins, runs, ends, returns, Reach, here, next, Serial, none_yet,
  serially,
}

module _ (G : Gorm) (A : Type 0) (s₀ : G.State) where
  -- The thread does not hold the mutex.
  abbrev pub IsOut : Thread G A → Type 0
  IsOut outside = Unit
  IsOut (waiting fn) = Unit
  IsOut _ = ⊥

  -- How far the thread that holds the mutex has come from the end of the last call.
  abbrev pub Inside : Thread G A → List (Returned G A) → G.State → Type 0
  Inside (locked fn) log db = Serial G A s₀ log db
  Inside (begun fn s) log db = Serial G A s₀ log s × (db ≡ G.begin s)
  Inside (ran fn s o) log db = Serial G A s₀ log s × (o ≡ fn (G.begin s)) × (db ≡ o.2)
  Inside (finished fn r) log db =
      (s : G.State) × Serial G A s₀ log s × (r ≡ update G fn s) × (db ≡ r.2)
  Inside _ log db = ⊥

  pub data Inv (s : Shared G A) : Type 0 where
    free : s.holder ≡ none → ((j : ℕ) → IsOut (s.threads j)) → Serial G A s₀ s.log s.db → Inv s
    held :
        (i : ℕ)
        → s.holder ≡ some i
        → ((j : ℕ) → j ≢ i → IsOut (s.threads j))
        → Inside (s.threads i) s.log s.db
        → Inv s

  pub set_thread_self : (i : ℕ) (x : Thread G A) (f : ℕ → Thread G A) → set_thread G A i x f i ≡ x
  set_thread_self i x f = ground arith

  pub set_thread_ne :
      (i j : ℕ) (x : Thread G A) (f : ℕ → Thread G A) → j ≢ i → set_thread G A i x f j ≡ f j
  set_thread_ne i j x f ne = ground arith

  -- The other threads are out, whatever the thread does.
  set_thread-IsOut_others :
      (i : ℕ) (x : Thread G A) (f : ℕ → Thread G A)
      → ((j : ℕ) → j ≢ i → IsOut (f j))
      → (j : ℕ) → j ≢ i
      → IsOut (set_thread G A i x f j)
  set_thread-IsOut_others i x f h j ne = rw (set_thread_ne i j x f ne) (h j ne)

  set_thread-IsOut :
      (i : ℕ) (x : Thread G A) (f : ℕ → Thread G A)
      → IsOut x
      → ((j : ℕ) → j ≢ i → IsOut (f j))
      → (j : ℕ) → IsOut (set_thread G A i x f j)
  set_thread-IsOut i x f out h j = elim (Bool-cases (j == i)) [
    | inl e ↦ rw e out
    | inr e ↦ let ne : j ≢ i = ground arith in rw e (h j ne)
  ]

  set_thread-IsOut_waiting :
      (i j : ℕ) (x : Thread G A) (f : ℕ → Thread G A)
      → IsOut x
      → ((k : ℕ) → k ≢ j → IsOut (f k))
      → (k : ℕ) → k ≢ j
      → IsOut (set_thread G A i x f k)
  set_thread-IsOut_waiting i j x f out h k ne = elim (Bool-cases (k == i)) [
    | inl e ↦ rw e out
    | inr e ↦ rw e (h k ne)
  ]

  set_thread-Inside :
      (i : ℕ) (x : Thread G A) (f : ℕ → Thread G A) (log : List (Returned G A)) (db : G.State)
      → Inside x log db
      → Inside (set_thread G A i x f i) log db
  set_thread-Inside i x f log db h = rw (set_thread_self i x f) h

  -- A thread that is not out holds the mutex.
  holds :
      {s : Shared G A} (i : ℕ) (x : Thread G A)
      → Inv s
      → s.threads i ≡ x
      → (IsOut x → ⊥)
      → (s.holder ≡ some i) × ((j : ℕ) → j ≢ i → IsOut (s.threads j)) × Inside x s.log s.db
  holds i x (free none_holds out done) e busy = absurd (busy (subst IsOut e (out i)))
  holds {s} i x (held j h others ins) e busy = elim (Bool-cases (i == j)) [
    | inr ne ↦ let apart : i ≢ j = ground arith in absurd (busy (subst IsOut e (others i apart)))
    | inl eq ↦
        let same_thread : j ≡ i = ground arith in
        subst
          (λ k.
            (s.holder ≡ some k)
              × ((m : ℕ) → m ≢ k → IsOut (s.threads m))
              × Inside (s.threads k) s.log s.db
            → (s.holder ≡ some i) × ((m : ℕ) → m ≢ i → IsOut (s.threads m)) × Inside x s.log s.db)
          (sym same_thread) (λ (a, b, c). (a, b, subst (λ t. Inside t s.log s.db) e c))
          (h, others, ins)
  ]

  same_end :
      (start : G.State) (fn : Body G A) (o : Outcome G.State A) (now : G.State)
      → o ≡ fn (G.begin start)
      → now ≡ o.2
      → end_now G A start o now ≡ update G fn start
  unfolding update
  same_end start fn o now ran_it same_db =
      ap (λ d. finish G start (o.0, o.1, d)) same_db ∙ ap (finish G start) ran_it

  Step-Inv : {s t : Shared G A} → Step G A s t → Inv s → Inv t
  Step-Inv {s} (calls i fn e) (free none_holds out done) =
      free none_holds (set_thread-IsOut i (waiting fn) s.threads tt (λ j ne. out j)) done
  Step-Inv {s} (calls i fn e) (held j h others ins) = elim (Bool-cases (j == i)) [
    | inl eq ↦
        let same_thread : j ≡ i = ground arith in
        absurd (subst (λ t. Inside t s.log s.db) (ap s.threads same_thread ∙ e) ins)
    | inr ne ↦
        let apart : j ≢ i = ground arith in
        held j h (set_thread-IsOut_waiting i j (waiting fn) s.threads tt others)
          (rw (set_thread_ne i j (waiting fn) s.threads apart) ins)
  ]
  Step-Inv {s} (locks i fn e h) (free none_holds out done) =
      held i refl (set_thread-IsOut_others i (locked fn) s.threads (λ j ne. out j))
        (set_thread-Inside i (locked fn) s.threads s.log s.db done)
  Step-Inv {s} (locks i fn e h) (held j h' others ins) = cc
  Step-Inv {s} (begins i fn e) inv =
      let (h, others, log) = holds i (locked fn) inv e (λ o. o) in
      held i h (set_thread-IsOut_others i _ s.threads others)
        (set_thread-Inside i _ s.threads _ _ (log, refl))
  Step-Inv {s} (runs i fn start e) inv =
      let (h, others, (log, db)) = holds i (begun fn start) inv e (λ o. o) in
      held i h (set_thread-IsOut_others i _ s.threads others)
        (set_thread-Inside i _ s.threads _ _ (log, ap fn db, refl))
  Step-Inv {s} (ends i fn start o e) inv =
      let (h, others, (log, ran_it, db)) = holds i (ran fn start o) inv e (λ o. o) in
      held i h (set_thread-IsOut_others i _ s.threads others)
        (set_thread-Inside i _ s.threads _ _ (start, log, same_end start fn o s.db ran_it db, refl))
  Step-Inv {s} (returns i fn r e) inv =
      let (h, others, (start, log, result, db)) = holds i (finished fn r) inv e (λ o. o) in
      free refl (set_thread-IsOut i outside s.threads tt others) (
        subst (λ d. Serial G A s₀ (record { thread = i; body = fn; result = r } ∷ s.log) d) (sym db)
          (subst (λ u. Serial G A s₀ (record { thread = i; body = fn; result = u } ∷ s.log) u.2)
            (sym result) (serially s.log start i fn log)))

  pub Reach-Inv : {s t : Shared G A} → Reach G A s t → Inv s → Inv t
  Reach-Inv here h = h
  Reach-Inv (next r st) h = Step-Inv st (Reach-Inv r h)

module _ (G : Gorm) (A : Type 0) where
  Inv-Serial :
      (s₀ : G.State) (t : Shared G A) → Inv G A s₀ t → t.holder ≡ none → Serial G A s₀ t.log t.db
  Inv-Serial s₀ t (free none_holds out done) h = done
  Inv-Serial s₀ t (held i taken others ins) h = cc

  -- However the threads' steps interleave: whenever no thread holds the mutex, the calls that have
  -- returned, one whole transaction after the other in the order of their returns, lead to the
  -- database as it is, and each has returned what `update` returns there.
  pub Reach-Serial :
      (s t : Shared G A)
      → s.holder ≡ none
      → s.log ≡ []
      → ((i : ℕ) → s.threads i ≡ outside)
      → Reach G A s t
      → t.holder ≡ none
      → Serial G A s.db t.log t.db
  Reach-Serial s t unheld empty idle r released =
      let start : Inv G A s.db s = free unheld (λ j. rw (idle j) tt) (rw empty none_yet) in
      Inv-Serial s.db t (Reach-Inv G A s.db r start) released

  -- Two threads are never in a transaction together.
  pub Reach-exclusive :
      (s t : Shared G A) (i j : ℕ) (fn fn' : Body G A) (u u' : G.State)
      → s.holder ≡ none
      → s.log ≡ []
      → ((k : ℕ) → s.threads k ≡ outside)
      → Reach G A s t
      → t.threads i ≡ begun fn u
      → t.threads j ≡ begun fn' u'
      → i ≡ j
  Reach-exclusive s t i j fn fn' u u' unheld empty idle r busy busy' =
      let start : Inv G A s.db s = free unheld (λ k. rw (idle k) tt) (rw empty none_yet) in
      let inv = Reach-Inv G A s.db r start in
      let (holds_i, _, _) = holds G A s.db i (begun fn u) inv busy (λ o. o) in
      let (holds_j, _, _) = holds G A s.db j (begun fn' u') inv busy' (λ o. o) in ground arith
