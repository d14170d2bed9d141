-- ===== src/Crawler/Cancel.antt =====
-- The cancellation of cat and dagGet in crawler/worker.go, which both use the same three parts: the
-- call itself, whose deferred function sends on the channel catDone when the call is over; a
-- goroutine that receives from it, or calls cancel on shutdown; and the shutdown channel.
use obcrawler.Base.{◌≡◌, ◌≢◌, refl, Bool, true, false, subst, sym}

pub data Caller : Type 0 where
  calling handing_over returned_home : Caller

pub data Watcher : Type 0 where
  watching over : Watcher

pub record Call : Type 0 where
  pub caller : Caller
  pub watcher : Watcher
  pub shut_down : Bool

abbrev pub started : Call
started = record { caller = calling; watcher = watching; shut_down = false }

pub data Step (s : Call) : Call → Type 0 where
  -- close(c.shutdown)
  shut : Step s (record s { shut_down = true })
  -- `case <-c.shutdown: cancel()`, after which the goroutine is over
  cancel : s.shut_down ≡ true → s.watcher ≡ watching → Step s (record s { watcher = over })
  -- the library call comes back, with a result or because it was cancelled
  come_back : s.caller ≡ calling → Step s (record s { caller = handing_over })
  -- `catDone <- struct{}{}` meets `case <-catDone: return`
  hand_over :
      s.caller ≡ handing_over
      → s.watcher ≡ watching
      → Step s (record s { caller = returned_home; watcher = over })

pub data Reach (s : Call) : Call → Type 0 where
  here : Reach s s
  next : {t u : Call} → Reach s t → Step t u → Reach s u

-- The goroutine is over, and the call has not returned.
pub record IsLost (s : Call) : Type 0 where
  pub nobody_receives : s.watcher ≡ over
  pub not_returned : s.caller ≢ returned_home

Step-IsLost : {s t : Call} → Step s t → IsLost s → IsLost t
Step-IsLost shut h = record { nobody_receives = h.nobody_receives; not_returned = h.not_returned }
Step-IsLost (cancel d w) h = record { nobody_receives = refl; not_returned = h.not_returned }
Step-IsLost (come_back c) h = record { nobody_receives = h.nobody_receives; not_returned = λ e. cc }
Step-IsLost (hand_over c w) h = let gone = h.nobody_receives in cc

Reach-IsLost : (s t : Call) → IsLost s → Reach s t → IsLost t
Reach-IsLost s t h here = h
Reach-IsLost s t h (next r st) = Step-IsLost st (Reach-IsLost s _ h r)

IsLost-cancel : (s t : Call) → s.caller ≢ returned_home → t ≡ record s { watcher = over } → IsLost t
IsLost-cancel s t running e =
    subst IsLost (sym e) (record { nobody_receives = refl; not_returned = running })

-- Where shutdown reaches the goroutine before the call is over, the call never returns: its
-- deferred send has no receiver left.
pub cancel_blocks :
    (s t u : Call)
    → s.caller ≢ returned_home
    → s.watcher ≡ watching
    → s.shut_down ≡ true
    → t ≡ record s { watcher = over }
    → Reach t u
    → u.caller ≢ returned_home
cancel_blocks s t u running w d e r =
    let lost = Reach-IsLost t u (IsLost-cancel s t running e) r in lost.not_returned

-- A call that is not shut down returns: from its start, two steps lead home.
pub call_returns : (t : Call) × Reach started t × (t.caller ≡ returned_home)
call_returns = (
  record { caller = returned_home; watcher = over; shut_down = false },
  next (next here (come_back refl)) (hand_over refl refl),
  refl,
)

-- The goroutine receives only from a call that has come to its deferred send, so a call that has
-- returned has always been through it, and the goroutine is over by then.
Step-over :
    {s t : Call}
    → Step s t
    → (s.caller ≡ returned_home → s.watcher ≡ over)
    → t.caller ≡ returned_home
    → t.watcher ≡ over
Step-over shut h e = h e
Step-over (cancel d w) h e = refl
Step-over (come_back c) h e = cc
Step-over (hand_over c w) h e = refl

-- No goroutine is leaked by a call that returns.
pub returned_over : (t : Call) → Reach started t → t.caller ≡ returned_home → t.watcher ≡ over
returned_over t here e = cc
returned_over t (next r st) e = Step-over st (returned_over _ r) e
