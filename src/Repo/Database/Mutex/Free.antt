-- ===== src/Repo/Database/Mutex/Free.antt =====
-- How a call of View or Update of repo/database.go that waits for the mutex comes to return.
use obcrawler.Base.{ℕ, ◌≡◌, ◌≢◌, refl, ap, ◌∙◌, sym, subst, none, List, [], ◌∷◌}
use obcrawler.Repo.Gorm.{Gorm}
use obcrawler.Repo.Database.{Outcome}
use obcrawler.Repo.Database.Mutex.{
  Body, Thread, outside, waiting, locked, begun, ran, finished, Returned, Shared, set_thread, Step,
  locks, begins, runs, ends, returns, Reach, here, next, none_yet,
}
use obcrawler.Repo.Database.Mutex.Held.{
  Inv, free, held, Inside, Reach-Inv, set_thread_self, set_thread_ne,
}

module _ (G : Gorm) (A : Type 0) where
  Step-Reach : {s t u : Shared G A} → Step G A s t → Reach G A t u → Reach G A s u
  Step-Reach st here = next here st
  Step-Reach st (next r last) = next (Step-Reach st r) last

  Reach-trans : {s t u : Shared G A} → Reach G A s t → Reach G A t u → Reach G A s u
  Reach-trans r here = r
  Reach-trans r (next q st) = next (Reach-trans r q) st

  -- The thread can end its call: a state can be reached in which the mutex is free, the call stands
  -- in the log, and the other threads are where they were.
  record CanEnd (i : ℕ) (fn : Body G A) (s : Shared G A) : Type 0 where
    later : Shared G A
    reached : Reach G A s later
    released : later.holder ≡ none
    result : Outcome G.State A
    logged : later.log ≡ record { thread = i; body = fn; result = result } ∷ s.log
    others : (j : ℕ) → j ≢ i → later.threads j ≡ s.threads j

  -- After one more step of the thread.
  Step-CanEnd :
      (i : ℕ) (fn : Body G A) (x : Thread G A) {s t : Shared G A}
      → Step G A s t
      → t.log ≡ s.log
      → t.threads ≡ set_thread G A i x s.threads
      → CanEnd i fn t
      → CanEnd i fn s
  Step-CanEnd i fn x {s} st same_log moved c = record {
    later = c.later;
    reached = Step-Reach st c.reached;
    released = c.released;
    result = c.result;
    logged = rw (← same_log) c.logged;
    others =
        λ j ne. c.others j ne ∙ ap (λ f. f j) moved ∙ set_thread_ne G A s.db i j x s.threads ne;
  }

  finished-CanEnd :
      (s : Shared G A) (i : ℕ) (fn : Body G A) (r : Outcome G.State A)
      → s.threads i ≡ finished fn r
      → CanEnd i fn s
  finished-CanEnd s i fn r e = record {
    later = _;
    reached = next here (returns i fn r e);
    released = refl;
    result = r;
    logged = refl;
    others = λ j ne. set_thread_ne G A s.db i j outside s.threads ne;
  }

  ran-CanEnd :
      (s : Shared G A) (i : ℕ) (fn : Body G A) (start : G.State) (o : Outcome G.State A)
      → s.threads i ≡ ran fn start o
      → CanEnd i fn s
  ran-CanEnd s i fn start o e =
      Step-CanEnd i fn _ (ends i fn start o e) refl refl
        (finished-CanEnd _ i fn _ (set_thread_self G A s.db i _ s.threads))

  begun-CanEnd :
      (s : Shared G A) (i : ℕ) (fn : Body G A) (start : G.State)
      → s.threads i ≡ begun fn start
      → CanEnd i fn s
  begun-CanEnd s i fn start e =
      Step-CanEnd i fn _ (runs i fn start e) refl refl
        (ran-CanEnd _ i fn start _ (set_thread_self G A s.db i _ s.threads))

  locked-CanEnd : (s : Shared G A) (i : ℕ) (fn : Body G A) → s.threads i ≡ locked fn → CanEnd i fn s
  locked-CanEnd s i fn e =
      Step-CanEnd i fn _ (begins i fn e) refl refl
        (begun-CanEnd _ i fn _ (set_thread_self G A s.db i _ s.threads))

  waiting-CanEnd :
      (s : Shared G A) (i : ℕ) (fn : Body G A)
      → s.holder ≡ none
      → s.threads i ≡ waiting fn
      → CanEnd i fn s
  waiting-CanEnd s i fn h e =
      Step-CanEnd i fn _ (locks i fn e h) refl refl
        (locked-CanEnd _ i fn (set_thread_self G A s.db i _ s.threads))

  Inside-CanEnd :
      (s₀ : G.State) (s : Shared G A) (i : ℕ) (x : Thread G A)
      → s.threads i ≡ x
      → Inside G A s₀ x s.log s.db
      → (fn : Body G A) × CanEnd i fn s
  Inside-CanEnd s₀ s i (locked fn) e h = (fn, locked-CanEnd s i fn e)
  Inside-CanEnd s₀ s i (begun fn start) e h = (fn, begun-CanEnd s i fn start e)
  Inside-CanEnd s₀ s i (ran fn start o) e h = (fn, ran-CanEnd s i fn start o e)
  Inside-CanEnd s₀ s i (finished fn r) e h = (fn, finished-CanEnd s i fn r e)
  Inside-CanEnd s₀ s i outside e h = absurd h
  Inside-CanEnd s₀ s i (waiting fn) e h = absurd h

  -- A later state in which the call stands at the head of the log.
  abbrev pub Returns : ℕ → Body G A → Shared G A → Type 0
  Returns i fn s =
      (t : Shared G A) × Reach G A s t
      × (o : Outcome G.State A) × (log : List (Returned G A)) × (t.log
          ≡ record { thread = i; body = fn; result = o } ∷ log)

  CanEnd-Returns : (i : ℕ) (fn : Body G A) (s : Shared G A) → CanEnd i fn s → Returns i fn s
  CanEnd-Returns i fn s c = (c.later, c.reached, c.result, s.log, c.logged)

  -- First the holder ends its call, then the thread that waits.
  Inv-Returns :
      (s₀ : G.State) (i : ℕ) (fn : Body G A) (s : Shared G A)
      → Inv G A s₀ s
      → s.threads i ≡ waiting fn
      → Returns i fn s
  Inv-Returns s₀ i fn s (free none_holds out done) e =
      CanEnd-Returns i fn s (waiting-CanEnd s i fn none_holds e)
  Inv-Returns s₀ i fn s (held j h others ins) e =
      let (gn, c) = Inside-CanEnd s₀ s j (s.threads j) refl ins in
      let ne : i ≢ j =
        λ eq. subst (λ x. Inside G A s₀ x s.log s.db) (ap s.threads (sym eq) ∙ e) ins in
      let still_waits : c.later.threads i ≡ waiting fn = c.others i ne ∙ e in
      let (t, r, o, log, found) =
        CanEnd-Returns i fn c.later (waiting-CanEnd c.later i fn c.released still_waits) in
      (t, Reach-trans c.reached r, o, log, found)

  -- The mutex cannot lock up: from every state that the threads reach, each call that waits for the
  -- mutex can still return.
  pub Reach-Returns :
      (s t : Shared G A) (i : ℕ) (fn : Body G A)
      → s.holder ≡ none
      → s.log ≡ []
      → ((k : ℕ) → s.threads k ≡ outside)
      → Reach G A s t
      → t.threads i ≡ waiting fn
      → Returns i fn t
  Reach-Returns s t i fn unheld empty idle r waits =
      let start : Inv G A s.db s = free unheld (λ k. rw (idle k) tt) (rw empty none_yet) in
      Inv-Returns s.db i fn t (Reach-Inv G A s.db r start) waits
