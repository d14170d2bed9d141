-- ===== src/Crawler/Pubsub/Loop/Lists.antt =====
-- The lists of the loop of listenPubsub (crawler/pubsub.go): timers, handlings and recent messages.
use obcrawler.Base.{
  ◌+◌, ◌≤◌, String, ◌≡◌, ◌≢◌, refl, sym, false, List, [], ◌∷◌, ◌++◌, contains, arith, ◌⊎◌, inl, inr,
  All, Has,
}
use obcrawler.Crawler.Pubsub.{forget}
use obcrawler.Crawler.Pubsub.Loop.{Timer, Handling, minute}

-- Handlings of one message are a minute apart, the last handling first.
abbrev pub Spaced : List Handling → Type 0
Spaced [] = Unit
Spaced (h ∷ hs) = All (λ g. (g.id ≢ h.id) ⊎ (g.at + minute ≤ h.at)) hs × Spaced hs

abbrev pub OtherIds : String → List Timer → Type 0
OtherIds id ts = All (λ u. u.id ≢ id) ts

-- No two timers forget the same message.
abbrev pub Apart : List Timer → Type 0
Apart [] = Unit
Apart (t ∷ ts) = OtherIds t.id ts × Apart ts

pub OtherIds-drop :
    (id : String) (before after : List Timer) (x : Timer)
    → OtherIds id (before ++ x ∷ after)
    → OtherIds id (before ++ after) × (x.id ≢ id)
OtherIds-drop id [] after x h = (h.1, h.0)
OtherIds-drop id (b ∷ bs) after x h =
    let (rest, ne) = OtherIds-drop id bs after x h.1 in ((h.0, rest), ne)

pub Apart-drop :
    (before after : List Timer) (x : Timer)
    → Apart (before ++ x ∷ after)
    → Apart (before ++ after) × OtherIds x.id (before ++ after)
Apart-drop [] after x h = (h.1, h.0)
Apart-drop (b ∷ bs) after x h =
    let (rest, ids) = Apart-drop bs after x h.1 in
    let (kept, ne) = OtherIds-drop b.id bs after x h.0 in ((kept, rest), (λ e. ne (sym e), ids))

pub All-drop :
    {A : Type 0} (P : A → Type 0) (before after : List A) (x : A)
    → All P (before ++ x ∷ after)
    → All P (before ++ after) × P x
All-drop P [] after x h = (h.1, h.0)
All-drop P (b ∷ bs) after x h = let (rest, p) = All-drop P bs after x h.1 in ((h.0, rest), p)

-- Forgetting a message leaves the others.
pub contains-forget :
    (id k : String) (recent : List String)
    → k ≢ id
    → contains (forget id recent) k ≡ contains recent k
unfolding forget
contains-forget id k [] ne = refl
contains-forget id k (r ∷ rs) ne = ground (arith, contains-forget id k rs ne)

pub contains-forget_self :
    (id : String) (recent : List String) → contains (forget id recent) id ≡ false
unfolding forget
contains-forget_self id [] = refl
contains-forget_self id (r ∷ rs) = ground (arith, contains-forget_self id rs)

pub All-both :
    {A : Type 0} {P Q R : A → Type 0} (xs : List A)
    → ((a : A) → P a → Q a → R a)
    → All P xs
    → All Q xs
    → All R xs
All-both [] f p q = tt
All-both (x ∷ xs) f p q = (f x p.0 q.0, All-both xs f p.1 q.1)

pub Has-drop :
    {A : Type 0} (t : A) (before after : List A) (x : A)
    → Has t (before ++ x ∷ after)
    → Has t (before ++ after) ⊎ (t ≡ x)
Has-drop t [] after x (inl e) = inr e
Has-drop t [] after x (inr h) = inl h
Has-drop t (b ∷ bs) after x (inl e) = inl (inl e)
Has-drop t (b ∷ bs) after x (inr h) = elim (Has-drop t bs after x h) [
  | inl m ↦ inl (inr m)
  | inr e ↦ inr e
]
