-- ===== src/Main/Exit.antt =====
-- When the program ends well.
use obcrawler.Base.{
  ◌≡◌, ◌≢◌, refl, sym, inl, inr, Bool-cases, Option, none, some, List, [], ◌∷◌, ◌++◌, All, arith,
  ◌↔◌, subst,
}
use obcrawler.Go.{GoError, Result, ok, err}
use obcrawler.Crawler.Stop.{Switches, stop, UpToFirst, stop_lem}
use obcrawler.Main.{
  Signal, interrupt, kill, crash, Ending, waits, exits, panics, Program, running, stopped, crashes,
  interrupted, started, created, configured, main, Interrupted, StopsWell,
}

All-at :
    {A : Type 0} (P : A → Type 0) (xs : List A) (y : A) (ys : List A) → All P (xs ++ y ∷ ys) → P y
All-at P [] y ys h = h.0
All-at P (x ∷ xs) y ys h = All-at P xs y ys h.1

module _ (P : Program) where
  -- The error of a Stop is none exactly where all nodes stop.
  first-All :
      (nodes asked : List P.Node) (e : Option GoError)
      → UpToFirst P.stop_node nodes asked e
      → (e ≡ none) ↔ All (λ n. P.stop_node n ≡ none) nodes
  first-All nodes asked none h = ((λ p. h.1), (λ a. refl))
  first-All nodes asked (some e) (before, n, after, split, given, well, fails) = (
    (λ p. cc),
    (λ a.
        let at : P.stop_node n ≡ none =
          All-at _ before n after (subst (All (λ m. P.stop_node m ≡ none)) split a) in
        cc),
  )

  stopped-error :
      (t : Switches P.Node) (e : Option GoError) → (stopped P (some (t, e)) ≡ exits 0) ↔ (e ≡ none)
  stopped-error t none = ((λ h. refl), (λ h. refl))
  stopped-error t (some e) = ((λ h. ground arith), (λ h. cc))

  stopped-All :
      (nodes : List P.Node)
      → (stopped P (stop P.stop_node nodes (running P)) ≡ exits 0)
        ↔ All (λ n. P.stop_node n ≡ none) nodes
  stopped-All nodes =
      let (t, asked, e, is, _, _, _, first, _) = stop_lem P.stop_node nodes (running P) refl in
      let (to, from) = stopped-error t e in
      let (every, error_free) = first-All nodes asked e first in
      rw is ((λ h. every (to h)), (λ a. from (error_free a)))

  interrupted-StopsWell :
      (nodes : List P.Node) → (interrupted P nodes ≡ exits 0) ↔ StopsWell P nodes
  interrupted-StopsWell nodes =
      let (to, from) = stopped-All nodes in
      elim (Bool-cases (crashes P nodes)) [
        | inl on ↦ rw on ((λ h. absurd (ground arith)), (λ (off, all). absurd (ground arith)))
        | inr off ↦ rw off ((λ h. (refl, to h)), (λ (_, all). from all))
      ]

  module _ (x : Ending) (ended : x ≢ waits) (not_one : x ≢ exits 1) (calm : x ≢ panics) where
    abbrev Ends : List P.Node → Type 0
    Ends nodes = interrupted P nodes ≡ x

    abbrev StartsWell : List P.Node → Option GoError → List Signal → Type 0
    StartsWell nodes e signals =
        (rest : List Signal) × (e ≡ none) × (signals ≡ interrupt ∷ rest) × Ends nodes

    started-Ends :
        (nodes : List P.Node) (e : Option GoError) (signals : List Signal)
        → (started P nodes e signals ≡ x) ↔ StartsWell nodes e signals
    started-Ends nodes (some y) signals =
        ((λ h. absurd (not_one (sym h))), (λ (rest, e, sig, end). cc))
    started-Ends nodes none [] = ((λ h. absurd (ended (sym h))), (λ (rest, e, sig, end). cc))
    started-Ends nodes none (kill ∷ signals) =
        ((λ h. absurd (not_one (sym h))), (λ (rest, e, sig, end). cc))
    started-Ends nodes none (crash ∷ signals) =
        ((λ h. absurd (calm (sym h))), (λ (rest, e, sig, end). cc))
    started-Ends nodes none (interrupt ∷ signals) =
        ((λ h. (signals, refl, refl, h)), (λ (rest, e, sig, end). end))

    abbrev MadeWell : Result (List P.Node) → List Signal → Type 0
    MadeWell r signals =
        (nodes : List P.Node) × (rest : List Signal) × (r ≡ ok nodes)
        × (P.start nodes ≡ none)
        × (signals ≡ interrupt ∷ rest)
        × Ends nodes

    created-Ends :
        (r : Result (List P.Node)) (signals : List Signal)
        → (created P r signals ≡ x) ↔ MadeWell r signals
    created-Ends (err y) signals =
        ((λ h. absurd (not_one (sym h))), (λ (nodes, rest, e, st, sig, end). cc))
    created-Ends (ok nodes) signals =
        let (to, from) = started-Ends nodes (P.start nodes) signals in
        (
          (λ h. let (rest, st, sig, end) = to h in (nodes, rest, refl, st, sig, end)),
          (λ (nodes', rest, e, st, sig, end).
              let same_nodes : nodes' ≡ nodes = cc in
              from
                (subst (λ ns. StartsWell ns (P.start ns) signals) same_nodes (rest, st, sig, end))),
        )

    configured-Ends :
        (r : Result P.Config) (signals : List Signal)
        → (configured P r signals ≡ x)
          ↔ ((cfg : P.Config) × (r ≡ ok cfg) × MadeWell (P.new_crawler cfg) signals)
    configured-Ends (err y) signals = ((λ h. absurd (not_one (sym h))), (λ (cfg, e, made). cc))
    configured-Ends (ok cfg) signals =
        let (to, from) = created-Ends (P.new_crawler cfg) signals in
        (
          (λ h. (cfg, refl, to h)),
          (λ (cfg', e, made).
              let same_cfg : cfg' ≡ cfg = cc in
              from (subst (λ c. MadeWell (P.new_crawler c) signals) same_cfg made)),
        )

    main-Ends : (signals : List Signal) → (main P signals ≡ x) ↔ Interrupted P Ends signals
    unfolding main
    main-Ends signals =
        let (to, from) = configured-Ends P.load_config signals in
        (
          (λ h.
              let (cfg, l, (nodes, rest, c, st, sig, end)) = to h in
              (cfg, nodes, rest, l, c, st, sig, end)),
          (λ (cfg, nodes, rest, l, c, st, sig, end). from (cfg, l, (nodes, rest, c, st, sig, end))),
        )

  -- The program exits with the code 0 exactly where the configuration loads, the crawler is made and
  -- starts without an error, the first thing that happens then is an interrupt, not a kill or a
  -- panic of another goroutine, the message handler does not panic before main exits, and every node
  -- stops without an error.
  pub main-EndsWell :
      (signals : List Signal) → (main P signals ≡ exits 0) ↔ Interrupted P (StopsWell P) signals
  main-EndsWell signals =
      let (to, from) = main-Ends (exits 0) (λ p. cc) (λ p. ground arith) (λ p. cc) signals in
      (
        (λ h.
            let (cfg, nodes, rest, l, c, st, sig, end) = to h in
            (cfg, nodes, rest, l, c, st, sig, (interrupted-StopsWell nodes).0 end)),
        (λ (cfg, nodes, rest, l, c, st, sig, well).
            from (cfg, nodes, rest, l, c, st, sig, (interrupted-StopsWell nodes).1 well)),
      )
