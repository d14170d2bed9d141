-- ===== src/Crawler/Subs/Lock.antt =====
-- notifySubscribers and Close as threads. The notifier holds the read lock while it sends to one
-- channel after the other; the channels have no buffer, so a send waits for the client to receive.
-- A client receives until its stream is done, and from then on its deferred Close waits for the
-- write lock.
use obcrawler.Base.{
  ℕ, ◌≡◌, ◌≢◌, refl, Has, inl, inr, subst, List, [], ◌∷◌, arith, ◌==◌, if◌then◌else◌,
}

pub data Client : Type 0 where
  receiving closing closed : Client

-- `idle`, or holding the read lock with these channels still to send to.
pub data Notifier : Type 0 where
  idle : Notifier
  sending : List ℕ → Notifier

pub record System : Type 0 where
  pub notifier : Notifier
  pub client : ℕ → Client

abbrev pub set_client : ℕ → Client → (ℕ → Client) → ℕ → Client
set_client c x f k = if k == c then x else f k

pub data Step (s : System) : System → Type 0 where
  -- c.subMtx.RLock(), with the channels of the map
  lock : (chs : List ℕ) → s.notifier ≡ idle → Step s (record s { notifier = sending chs })
  -- sub.Out <- obj, received
  send :
      (c : ℕ) (chs : List ℕ)
      → s.notifier ≡ sending (c ∷ chs)
      → s.client c ≡ receiving
      → Step s (record s { notifier = sending chs })
  -- c.subMtx.RUnlock()
  unlock : s.notifier ≡ sending [] → Step s (record s { notifier = idle })
  -- the stream is done: the client receives no more
  leave :
      (c : ℕ)
      → s.client c ≡ receiving
      → Step s (record s { client = set_client c closing s.client })
  -- c.subMtx.Lock() of Close, which waits for the notifier's read lock
  close :
      (c : ℕ)
      → s.client c ≡ closing
      → s.notifier ≡ idle
      → Step s (record s { client = set_client c closed s.client })

pub data Reach (s : System) : System → Type 0 where
  here : Reach s s
  next : {t u : System} → Reach s t → Step t u → Reach s u

-- The notifier is about to send to a client that has left.
pub record IsStuck (c : ℕ) (s : System) : Type 0 where
  pub waits : (chs : List ℕ) × (s.notifier ≡ sending (c ∷ chs))
  pub left : s.client c ≡ closing

Step-IsStuck : {c : ℕ} {s t : System} → Step s t → IsStuck c s → IsStuck c t
Step-IsStuck (lock chs e) h = let (_, w) = h.waits in cc
Step-IsStuck {c} {s} (send d chs e r) h =
    let (chs', w) = h.waits in
    let same_client : c ≡ d = ground arith in
    let still : s.client c ≡ receiving = rw same_client r in let gone = h.left in cc
Step-IsStuck (unlock e) h = let (_, w) = h.waits in cc
Step-IsStuck {c} (leave d r) h = record { waits = h.waits; left = ground (arith, h.left) }
Step-IsStuck (close d r e) h = let (_, w) = h.waits in cc

-- Once the notifier waits for a client that has left, it does so for ever: the client is never
-- closed and the read lock is never given back, whatever the other threads do.
pub Reach-IsStuck : (c : ℕ) (s t : System) → IsStuck c s → Reach s t → IsStuck c t
Reach-IsStuck c s t h here = h
Reach-IsStuck c s t h (next r st) = Step-IsStuck st (Reach-IsStuck c s _ h r)

-- A client that has left while the notifier has still to send to it.
pub record IsOwed (c : ℕ) (s : System) : Type 0 where
  pub owed : (chs : List ℕ) × (s.notifier ≡ sending chs) × Has c chs
  pub left : s.client c ≡ closing

Step-IsOwed : {c : ℕ} {s t : System} → Step s t → IsOwed c s → IsOwed c t
Step-IsOwed (lock chs e) h = let (_, w, _) = h.owed in cc
Step-IsOwed {c} {s} (send d chs e r) h =
    let (chs', w, has) = h.owed in
    let same_chs : chs' ≡ d ∷ chs = ground arith in
    elim (subst (Has c) same_chs has) [
      | inl p ↦ let still : s.client c ≡ receiving = rw p r in let gone = h.left in cc
      | inr later ↦ record { owed = (chs, refl, later); left = h.left }
    ]
Step-IsOwed (unlock e) h =
    let (chs', w, has) = h.owed in
    let none_left : chs' ≡ [] = ground arith in absurd (subst (Has _) none_left has)
Step-IsOwed {c} (leave d r) h = record { owed = h.owed; left = ground (arith, h.left) }
Step-IsOwed (close d r e) h = let (_, w, _) = h.owed in cc

Reach-IsOwed : (c : ℕ) (s t : System) → IsOwed c s → Reach s t → IsOwed c t
Reach-IsOwed c s t h here = h
Reach-IsOwed c s t h (next r st) = Step-IsOwed st (Reach-IsOwed c s _ h r)

Reach-trans : {s t u : System} → Reach s t → Reach t u → Reach s u
Reach-trans r here = r
Reach-trans r (next q st) = next (Reach-trans r q) st

-- The notifier has taken the lock, and a client has left before it was sent to.
abbrev pub left_early : ℕ → List ℕ → System → System
left_early c chs s = record { notifier = sending chs; client = set_client c closing s.client }

-- If a client leaves just after the notifier has taken the lock, and its channel is one of those of
-- the map, at any place, then in every state from there on, which are states that the threads can
-- reach, the notifier holds the lock and the client is not closed.
pub deadlock_reached :
    (c : ℕ) (chs : List ℕ) (s t : System)
    → s.notifier ≡ idle
    → s.client c ≡ receiving
    → Has c chs
    → Reach (left_early c chs s) t
    → Reach s t × (t.notifier ≢ idle) × (t.client c ≡ closing)
deadlock_reached c chs s t e r has later =
    let start : IsOwed c (left_early c chs s) = record {
      owed = (chs, refl, has);
      left = ground arith;
    } in
    let end = Reach-IsOwed c (left_early c chs s) t start later in
    let (_, w, _) = end.owed in
    (Reach-trans (next (next here (lock chs e)) (leave c r)) later, (λ q. cc), end.left)
