-- ===== src/Crawler/Graph/Reach.antt =====
-- fetchGraph of crawler/worker.go against reachability in the graph of links.
use obcrawler.Base.{
  ℕ, zero, suc, String, ◌≡◌, refl, sym, ap, ◌∙◌, subst, inl, inr, Option, some, List, [], ◌∷◌, ◌++◌,
  map, arith, All, All-append, Has,
}
use obcrawler.Go.{GoError, Result, ok, err, Result-cases}
use obcrawler.Ipfs.{Ipfs, DecodesCids}
use obcrawler.Crawler.Network.{Network, returned, Called-cases}
use obcrawler.Crawler.Graph.{dag_get, take_out, insert_links, fetch_loop}
use obcrawler.Crawler.Graph.Keys.{take_out-All, insert_links-All}

-- The CIDs that are linked from the root, directly or through others.
pub data Reach {A : Type 0} (children : A → List A) (root : A) : A → Type 0 where
  here : Reach children root root
  step : {c d : A} → Reach children root c → Has d (children c) → Reach children root d

ok-injective : {A : Type 0} (a b : A) → Path (Result A) (ok a) (ok b) → a ≡ b
ok-injective a b p = cc

-- The key that was taken out belongs to the CID that it decodes to.
pub decoded :
    (I : Ipfs) (k : String) (c d : I.Cid)
    → DecodesCids I
    → I.cid_string c ≡ k
    → I.decode_cid k ≡ ok d
    → c ≡ d
decoded I k c d dec e h = ok-injective c d (sym (dec c) ∙ ap I.decode_cid e ∙ h)

module _ (I : Ipfs) (N : Network I) (children : I.Cid → List I.Cid) where
  -- A CID determines the links of its node, whenever and by whomever it is served.
  abbrev pub Fixed : Type 0
  Fixed =
      (n : I.Node) (c : I.Cid) (w : N.World) (nd : N.DagNode)
      → (N.dag_get n c w).0 ≡ ok nd
      → N.links nd ≡ children c

  abbrev pub Pending : I.Cid → String → Type 0
  Pending root k = (c : I.Cid) × (I.cid_string c ≡ k) × Reach children root c

  pub links-Pending :
      (root c : I.Cid) (cs : List I.Cid)
      → Reach children root c
      → ((d : I.Cid) → Has d cs → Has d (children c))
      → All (Pending root) (map I.cid_string cs)
  links-Pending root c [] r sub = tt
  links-Pending root c (d ∷ cs) r sub =
      ((d, refl, step r (sub d (inl refl))), links-Pending root c cs r (λ e h. sub e (inr h)))

  pub dag_get-ok :
      (n : I.Node) (c : I.Cid) (w w' : N.World) (nd : N.DagNode)
      → Fixed
      → dag_get I N n c w ≡ returned (ok nd) w'
      → N.links nd ≡ children c
  unfolding dag_get
  dag_get-ok n c w w' nd fixed h = fixed n c w nd (ground arith)

  module _ (fixed : Fixed) (dec : DecodesCids I) (picks : ℕ → ℕ) (n : I.Node) (root : I.Cid) where
    pub fetch_loop_sound :
        (fuel : ℕ) (m : List String) (ret ret' : List I.Cid) (e : Option GoError) (w w' : N.World)
        → fetch_loop I N picks n fuel m ret w ≡ some (returned (ret', e) w')
        → All (Pending root) m
        → All (Reach children root) ret
        → All (Reach children root) ret'
    unfolding fetch_loop
    fetch_loop_sound fuel [] ret ret' e w w' h pm pr =
        let eq : ret ≡ ret' = ground arith in subst (All (Reach children root)) eq pr
    fetch_loop_sound zero (x ∷ xs) ret ret' e w w' h pm pr = cc
    fetch_loop_sound (suc fuel) (x ∷ xs) ret ret' e w w' h pm pr =
        let k : String = (take_out (picks fuel) x xs).0 in
        let rest : List String = (take_out (picks fuel) x xs).1 in
        let (pk, prest) = take_out-All (Pending root) (picks fuel) x xs pm in
        elim (Result-cases (I.decode_cid k)) [
          | inr (y, bad) ↦
              let eq : ret ≡ ret' = ground arith in subst (All (Reach children root)) eq pr
          | inl (c, good) ↦
              let rc : Reach children root c =
                subst (Reach children root) (decoded I k pk.0 c dec pk.1 good) pk.2 in
              let pr' : All (Reach children root) (ret ++ c ∷ []) =
                All-append (Reach children root) ret (c ∷ []) pr (rc, tt) in
              elim (Called-cases (dag_get I N n c w)) [
                | inl st ↦ ground arith
                | inr (err y, v, got) ↦
                    let eq : ret ++ c ∷ [] ≡ ret' = ground arith in
                    subst (All (Reach children root)) eq pr'
                | inr (ok nd, v, got) ↦
                    fetch_loop_sound fuel (insert_links I (N.links nd) rest) (ret ++ c ∷ []) ret' e
                      v w' (ground arith)
                      (insert_links-All I (Pending root) (N.links nd) rest
                        (links-Pending root c (N.links nd) rc
                          (λ d hd. subst (Has d) (dag_get-ok n c w v nd fixed got) hd))
                        prest)
                      pr'
              ]
        ]
