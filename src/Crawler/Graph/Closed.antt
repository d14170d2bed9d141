-- ===== src/Crawler/Graph/Closed.antt =====
-- fetchGraph of crawler/worker.go: its result against the links, and the number of its rounds.
use obcrawler.Base.{
  ℕ, zero, suc, ◌≤◌, ◌<◌, String, ◌≡◌, ◌≢◌, refl, sym, ap, ◌∙◌, subst, ◌⊎◌, inl, inr, true, Option,
  none, some, List, [], ◌∷◌, ◌++◌, map, arith, contains, All, All-Has, ◌↔◌, Has, Has-append,
  Has-append_left, Has-append_right, same_self, string_dec,
}
use obcrawler.Go.{GoError, ok, err, Result-cases}
use obcrawler.Ipfs.{Ipfs, DecodesCids}
use obcrawler.Crawler.Network.{Network, returned, Called-cases}
use obcrawler.Crawler.Graph.{dag_get, take_out, insert_links, fetch_loop, fetch_graph}
use obcrawler.Crawler.Graph.Keys.{
  contains-take_out, take_out-All, total, total-take_out, contains-insert_links, insert_links-All,
  total-insert_links-le,
}
use obcrawler.Crawler.Graph.Reach.{
  Reach, here, step, Fixed, Pending, links-Pending, dag_get-ok, decoded, fetch_loop_sound,
}

cid_string-injective :
    (I : Ipfs) → DecodesCids I → (c d : I.Cid) → I.cid_string c ≡ I.cid_string d → c ≡ d
cid_string-injective I dec c d e = decoded I (I.cid_string d) c d dec e (dec d)

module _ (I : Ipfs) where
  contains-map :
      (d : I.Cid) (cs : List I.Cid)
      → Has d cs
      → contains (map I.cid_string cs) (I.cid_string d) ≡ true
  contains-map d [] h = absurd h
  contains-map d (c ∷ cs) (inl e) = ground (arith, ap I.cid_string e)
  contains-map d (c ∷ cs) (inr h) = ground (arith, contains-map d cs h)

  -- A CID that is fetched already, or waits to be.
  abbrev Known : List String → List I.Cid → I.Cid → Type 0
  Known m ret d = Has d ret ⊎ (contains m (I.cid_string d) ≡ true)

  abbrev pub IsClosed : (I.Cid → List I.Cid) → List String → List I.Cid → Type 0
  IsClosed children m ret = (c d : I.Cid) → Has c ret → Has d (children c) → Known m ret d

  module _ (dec : DecodesCids I) where
    -- One round keeps what is known, with the CID of the key that was taken out.
    round-Known :
        (i : ℕ) (x : String) (xs : List String) (cs : List I.Cid) (ret : List I.Cid) (c d : I.Cid)
        → I.cid_string c ≡ (take_out i x xs).0
        → Known (x ∷ xs) ret d
        → Known (insert_links I cs (take_out i x xs).1) (ret ++ c ∷ []) d
    round-Known i x xs cs ret c d e (inl h) = inl (Has-append_left d ret (c ∷ []) h)
    round-Known i x xs cs ret c d e (inr h) = elim (string_dec (I.cid_string d) (I.cid_string c)) [
      | yes p ↦ inl (Has-append_right d ret (c ∷ []) (inl (cid_string-injective I dec d c p)))
      | no p ↦ inr (
          ground (
            arith,
            e,
            contains-take_out i x xs (I.cid_string d),
            contains-insert_links I cs (take_out i x xs).1 (I.cid_string d),
          ))
    ]

    round-IsClosed :
        (children : I.Cid → List I.Cid) (i : ℕ) (x : String) (xs : List String) (cs : List I.Cid)
        (ret : List I.Cid) (c : I.Cid)
        → I.cid_string c ≡ (take_out i x xs).0
        → cs ≡ children c
        → IsClosed children (x ∷ xs) ret
        → IsClosed children (insert_links I cs (take_out i x xs).1) (ret ++ c ∷ [])
    round-IsClosed children i x xs cs ret c e links closed a d ha hd =
        elim (Has-append a ret (c ∷ []) ha) [
          | inl old ↦ round-Known i x xs cs ret c d e (closed a d old hd)
          | inr (inl new) ↦
              let hd' : Has d cs = subst (Has d) (ap children new ∙ sym links) hd in
              inr (
                ground (
                  arith,
                  contains-map d cs hd',
                  contains-insert_links I cs (take_out i x xs).1 (I.cid_string d),
                ))
          | inr (inr h) ↦ absurd h
        ]

module _ (I : Ipfs) (N : Network I) (children : I.Cid → List I.Cid) (fixed : Fixed I N children)
    (dec : DecodesCids I) (picks : ℕ → ℕ) (n : I.Node) (root : I.Cid) where
  fetch_loop-IsClosed :
      (fuel : ℕ) (m : List String) (ret ret' : List I.Cid) (w w' : N.World)
      → fetch_loop I N picks n fuel m ret w ≡ some (returned (ret', none) w')
      → All (Pending I N children root) m
      → IsClosed I children m ret
      → IsClosed I children [] ret' × ((d : I.Cid) → Known I m ret d → Has d ret')
  unfolding fetch_loop
  fetch_loop-IsClosed fuel [] ret ret' w w' h pm closed =
      let eq : ret ≡ ret' = ground arith in
      (
        subst (IsClosed I children []) eq closed,
        λ d k. elim k [ inl old ↦ subst (Has d) eq old | inr none_left ↦ cc ],
      )
  fetch_loop-IsClosed zero (x ∷ xs) ret ret' w w' h pm closed = cc
  fetch_loop-IsClosed (suc fuel) (x ∷ xs) ret ret' w w' h pm closed =
      let k : String = (take_out (picks fuel) x xs).0 in
      let rest : List String = (take_out (picks fuel) x xs).1 in
      let (pk, prest) = take_out-All (Pending I N children root) (picks fuel) x xs pm in
      elim (Result-cases (I.decode_cid k)) [
        | inr (y, bad) ↦ ground arith
        | inl (c, good) ↦ elim (Called-cases (dag_get I N n c w)) [
          | inl st ↦ ground arith
          | inr (err y, v, got) ↦ ground arith
          | inr (ok nd, v, got) ↦
              let same_cid : pk.0 ≡ c = decoded I k pk.0 c dec pk.1 good in
              let text : I.cid_string c ≡ k = ap I.cid_string (sym same_cid) ∙ pk.1 in
              let links : N.links nd ≡ children c = dag_get-ok I N children n c w v nd fixed got in
              let (closed', all_known) =
                fetch_loop-IsClosed fuel (insert_links I (N.links nd) rest) (ret ++ c ∷ []) ret' v
                  w' (ground arith)
                  (insert_links-All I (Pending I N children root) (N.links nd) rest
                    (links-Pending I N children root c (N.links nd)
                      (subst (Reach children root) same_cid pk.2) (λ d hd. subst (Has d) links hd))
                    prest)
                  (round-IsClosed I dec children (picks fuel) x xs (N.links nd) ret c text links
                    closed) in
              (
                closed',
                λ d kn.
                    all_known d (round-Known I dec (picks fuel) x xs (N.links nd) ret c d text kn),
              )
        ]
      ]

module _ (I : Ipfs) (N : Network I) (children : I.Cid → List I.Cid) (fixed : Fixed I N children)
    (dec : DecodesCids I) (picks : ℕ → ℕ) (n : I.Node) (root : I.Cid) where
  reached-Has :
      (ret : List I.Cid)
      → IsClosed I children [] ret
      → Has root ret
      → {c : I.Cid} → Reach children root c
      → Has c ret
  reached-Has ret closed start here = start
  reached-Has ret closed start (step {c = c} {d = d} r h) =
      elim (closed c d (reached-Has ret closed start r) h) [ inl m ↦ m | inr k ↦ cc ]

  -- Whatever choices the map's iteration makes, what fetchGraph returns is reachable from the
  -- root, also beside an error; and without an error it has every CID that is.
  pub fetch_graph-Reach :
      (fuel : ℕ) (ret : List I.Cid) (e : Option GoError) (w w' : N.World)
      → fetch_graph I N picks fuel n root w ≡ some (returned (ret, e) w')
      → All (Reach children root) ret × (e ≡ none → (c : I.Cid) → Reach children root c → Has c ret)
  unfolding fetch_graph
  fetch_graph-Reach fuel ret e w w' h =
      let start : All (Pending I N children root) (I.cid_string root ∷ []) =
        ((root, refl, here), tt) in
      (
        fetch_loop_sound I N children fixed dec picks n root fuel (I.cid_string root ∷ []) [] ret e
            w w' h start tt,
        λ ended.
            let (closed, known) =
              fetch_loop-IsClosed I N children fixed dec picks n root fuel (I.cid_string root ∷ [])
                [] ret w w' (h ∙ ap (λ x. some (returned (ret, x) w')) ended) start
                (λ a d no_member. absurd no_member) in
            λ c r.
              reached-Has ret closed
                (known root (inr (ground (arith, same_self (I.cid_string root))))) r,
      )

  -- The links lead nowhere in circles: every CID can be given a number above the sum of those of
  -- its links. Then that number of rounds is enough.
  pub fetch_loop-ends :
      (weight : String → ℕ)
      → ((c : I.Cid) → total weight (map I.cid_string (children c)) < weight (I.cid_string c))
      → (fuel : ℕ) (m : List String) (ret : List I.Cid) (w : N.World)
      → All (Pending I N children root) m
      → total weight m ≤ fuel
      → fetch_loop I N picks n fuel m ret w ≢ none
  unfolding fetch_loop
  fetch_loop-ends weight falls fuel [] ret w pm enough = λ p. cc
  fetch_loop-ends weight falls zero (x ∷ xs) ret w pm enough =
      let (c, text, r) = pm.0 in absurd (omega (arith, falls c, ap weight text))
  fetch_loop-ends weight falls (suc fuel) (x ∷ xs) ret w pm enough =
      let k : String = (take_out (picks fuel) x xs).0 in
      let rest : List String = (take_out (picks fuel) x xs).1 in
      let (pk, prest) = take_out-All (Pending I N children root) (picks fuel) x xs pm in
      elim (Result-cases (I.decode_cid k)) [
        | inr (y, bad) ↦ ground arith
        | inl (c, good) ↦ elim (Called-cases (dag_get I N n c w)) [
          | inl st ↦ ground arith
          | inr (err y, v, got) ↦ ground arith
          | inr (ok nd, v, got) ↦
              let same_cid : pk.0 ≡ c = decoded I k pk.0 c dec pk.1 good in
              let text : I.cid_string c ≡ k = ap I.cid_string (sym same_cid) ∙ pk.1 in
              let links : N.links nd ≡ children c = dag_get-ok I N children n c w v nd fixed got in
              let ih =
                fetch_loop-ends weight falls fuel (insert_links I (N.links nd) rest) (ret ++ c ∷ [])
                  v
                  (insert_links-All I (Pending I N children root) (N.links nd) rest
                    (links-Pending I N children root c (N.links nd)
                      (subst (Reach children root) same_cid pk.2) (λ d hd. subst (Has d) links hd))
                    prest)
                  (omega (
                    arith,
                    total-insert_links-le I weight (N.links nd) rest,
                    falls c,
                    ap weight text,
                    ap (λ cs. total weight (map I.cid_string cs)) links,
                    total-take_out weight (picks fuel) x xs,
                  )) in
              ground arith
        ]
      ]

  -- Where no CID leads back to itself, so that each can be given a number above the sum of those of
  -- its links, fetchGraph ends after as many rounds as the root's number, if it is not stuck.
  pub fetch_graph-ends :
      (weight : String → ℕ)
      → ((c : I.Cid) → total weight (map I.cid_string (children c)) < weight (I.cid_string c))
      → (fuel : ℕ) (w : N.World) → weight (I.cid_string root) ≤ fuel
      → fetch_graph I N picks fuel n root w ≢ none
  unfolding fetch_graph
  fetch_graph-ends weight falls fuel w enough =
      fetch_loop-ends weight falls fuel (I.cid_string root ∷ []) [] w ((root, refl, here), tt)
        (omega arith)

  -- What fetchGraph returns without an error are exactly the CIDs that are reachable from the root,
  -- whatever choices the map's iteration makes.
  pub fetch_graph-exact :
      (fuel : ℕ) (ret : List I.Cid) (w w' : N.World) (c : I.Cid)
      → fetch_graph I N picks fuel n root w ≡ some (returned (ret, none) w')
      → Has c ret ↔ Reach children root c
  fetch_graph-exact fuel ret w w' c h =
      let (sound, full) = fetch_graph-Reach fuel ret none w w' h in
      (λ m. All-Has (Reach children root) c ret sound m, λ r. full refl c r)
