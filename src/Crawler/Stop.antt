-- ===== src/Crawler/Stop.antt =====
-- Stop of crawler/crawler.go.
use obcrawler.Base.{
  ◌≡◌, refl, ap, Bool, true, false, Option, none, some, List, [], ◌∷◌, ◌++◌, All, inl, inr,
  Option-cases,
}
use obcrawler.Go.{GoError}

-- The channel `shutdown`, the context, and the nodes that were asked to stop, in order.
pub record Switches (N : Type 0) : Type 0 where
  pub shutdown_closed : Bool
  pub cancelled : Bool
  pub asked : List N

module _ {N : Type 0} (stop_node : N → Option GoError) where
  unfoldable pub stop_nodes : List N → List N × Option GoError
  stop_nodes [] = ([], none)
  stop_nodes (n ∷ ns) =
      let (asked, e) = stop_nodes ns in
      elim (stop_node n) [ some x ↦ (n ∷ [], some x) | none ↦ (n ∷ asked, e) ]

  -- none is a panic: the channel is closed already.
  unfoldable pub stop : List N → Switches N → Option (Switches N × Option GoError)
  unfolding stop_nodes
  stop nodes s = elim s.shutdown_closed [
    | true ↦ none
    | false ↦
        let (asked, e) = stop_nodes nodes in
        some (record { shutdown_closed = true; cancelled = true; asked = s.asked ++ asked }, e)
  ]

  -- Which nodes a Stop asks, and its error: all of them and none, where all stop; else those up to
  -- the first that fails, and its error.
  abbrev pub UpToFirst : List N → List N → Option GoError → Type 0
  UpToFirst nodes asked none = (asked ≡ nodes) × All (λ n. stop_node n ≡ none) nodes
  UpToFirst nodes asked (some e) =
      (before : List N) × (n : N) × (after : List N) × (nodes ≡ before ++ n ∷ after)
      × (asked ≡ before ++ n ∷ [])
      × All (λ m. stop_node m ≡ none) before
      × (stop_node n ≡ some e)

  ask_one :
      (n : N) (nodes asked : List N) (e : Option GoError)
      → stop_node n ≡ none
      → UpToFirst nodes asked e
      → UpToFirst (n ∷ nodes) (n ∷ asked) e
  ask_one n nodes asked none stops h = (ap (λ ms. n ∷ ms) h.0, (stops, h.1))
  ask_one n nodes asked (some e) stops (before, m, after, split, given, well, fails) =
      (n ∷ before, m, after, ap (λ ms. n ∷ ms) split, ap (λ ms. n ∷ ms) given, (stops, well), fails)

  stop_nodes-UpToFirst :
      (nodes : List N) → UpToFirst nodes (stop_nodes nodes).0 (stop_nodes nodes).1
  unfolding stop_nodes
  stop_nodes-UpToFirst [] = (refl, tt)
  stop_nodes-UpToFirst (n ∷ ns) = elim (Option-cases (stop_node n)) [
    | inl e ↦ rw (e, stop_nodes) (ask_one n ns _ _ e (stop_nodes-UpToFirst ns))
    | inr (x, e) ↦ rw (e, stop_nodes) ([], n, ns, refl, refl, tt, e)
  ]

  -- The first Stop closes the channel, cancels the context, and asks the nodes in their order up to
  -- the first that fails, whose error it returns; the nodes behind that one are not asked. A second
  -- Stop panics.
  pub stop_lem :
      (nodes : List N) (s : Switches N)
      → s.shutdown_closed ≡ false
      → (t : Switches N) × (asked : List N) × (e : Option GoError) × (stop nodes s ≡ some (t, e))
        × (t.shutdown_closed ≡ true)
        × (t.cancelled ≡ true)
        × (t.asked ≡ s.asked ++ asked)
        × UpToFirst nodes asked e
        × (stop nodes t ≡ none)
  unfolding stop
  stop_lem nodes s still_open = (
    record { shutdown_closed = true; cancelled = true; asked = s.asked ++ (stop_nodes nodes).0 },
    (stop_nodes nodes).0,
    (stop_nodes nodes).1,
    rw still_open refl,
    refl,
    refl,
    refl,
    stop_nodes-UpToFirst nodes,
    refl,
  )
