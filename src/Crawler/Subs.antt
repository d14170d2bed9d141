-- ===== src/Crawler/Subs.antt =====
-- The subscriptions of crawler/crawler.go: Subscribe, a subscription's Close, notifySubscribers, and
-- the lock that they share. A subscription is known by its channel.
pub mod Lock
use obcrawler.Base.{
  ℕ, ◌≡◌, ◌≢◌, refl, ◌∙◌, Bool, true, false, Option, none, some, List, [], ◌∷◌, arith, ◌==◌,
  if◌then◌else◌, map, Has, inl, inr, ◌⊎◌,
}

-- c.subs: a map from random ids to channels. Its order is that of a Go map, so it means nothing.
abbrev pub Subs : Type 0
Subs = List (ℕ × ℕ)

unfoldable pub lookup_sub : ℕ → Subs → Option ℕ
lookup_sub i [] = none
lookup_sub i ((j, ch) ∷ subs) = if i == j then some ch else lookup_sub i subs

unfoldable pub delete_sub : ℕ → Subs → Subs
delete_sub i [] = []
delete_sub i ((j, ch) ∷ subs) =
    let rest = delete_sub i subs in if i == j then rest else (j, ch) ∷ rest

-- c.subs[i] = sub
unfoldable pub subscribe : ℕ → ℕ → Subs → Subs
unfolding delete_sub
subscribe i ch subs = (i, ch) ∷ delete_sub i subs

-- The Close of the subscription with the id: the channel that it closes, and the map.
unfoldable pub close_sub : ℕ → Subs → Option ℕ × Subs
unfolding lookup_sub delete_sub
close_sub i subs = elim (lookup_sub i subs) [
  | none ↦ (none, subs)
  | some ch ↦ (some ch, delete_sub i subs)
]

-- The channels that notifySubscribers sends to.
abbrev pub channels : Subs → List ℕ
channels = map (λ e. e.1)

lookup-delete :
    (i k : ℕ) (subs : Subs)
    → lookup_sub k (delete_sub i subs) ≡ (if k == i then none else lookup_sub k subs)
unfolding lookup_sub delete_sub
lookup-delete i k [] = ground arith
lookup-delete i k ((j, ch) ∷ subs) = ground (arith, lookup-delete i k subs)

-- Subscribe gives the id the channel, and leaves the other ids theirs.
pub lookup-subscribe :
    (i k ch : ℕ) (subs : Subs)
    → lookup_sub k (subscribe i ch subs) ≡ (if k == i then some ch else lookup_sub k subs)
unfolding lookup_sub subscribe
lookup-subscribe i k ch subs = ground (arith, lookup-delete i k subs)

-- After Close the id has no channel, every other id has the one it had, and the same Close once
-- more closes nothing.
pub close_sub_lem :
    (i k : ℕ) (subs : Subs)
    → (lookup_sub k (close_sub i subs).1 ≡ (if k == i then none else lookup_sub k subs))
      × (close_sub i (close_sub i subs).1 ≡ (none, (close_sub i subs).1))
unfolding close_sub
close_sub_lem i k subs =
    (ground (arith, lookup-delete i k subs), ground (arith, lookup-delete i i subs))

-- What Subscribe put in is what its Close takes out, unless the same random id was drawn in
-- between; then that Close closes the later subscription's channel, and the earlier one's is never
-- closed.
pub close-subscribe :
    (i k ch ch' : ℕ) (subs : Subs)
    → (close_sub i (subscribe k ch' (subscribe i ch subs))).0 ≡ some (if i == k then ch' else ch)
unfolding close_sub subscribe lookup_sub
close-subscribe i k ch ch' subs = ground (arith, lookup-delete k i (subscribe i ch subs))
