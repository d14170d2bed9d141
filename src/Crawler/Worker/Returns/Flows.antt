-- ===== src/Crawler/Worker/Returns/Flows.antt =====
-- Flows of processJob that get past every call, and traversals that return.
use obcrawler.Base.{
  ℕ, zero, suc, Bool, true, false, if◌then◌else◌, String, ◌≡◌, ◌≢◌, none, some, List, [], ◌∷◌, ◌++◌,
  arith, inl, inr,
}
use obcrawler.Go.{ok, err, Result-cases}
use obcrawler.Ipfs.{Ipfs}
use obcrawler.Crawler.Network.{Network, stuck, Called-cases}
use obcrawler.Crawler.Graph.{dag_get, fetch_loop, fetch_graph, take_out, insert_links}
use obcrawler.Crawler.Worker.Defs.{Flow, next, stop, halted, continue, ◌>>=◌}

-- The flow gets past every call.
abbrev pub Moves : {S A : Type 0} → Flow S A → Type 0
Moves (next a s) = Unit
Moves (stop s) = Unit
Moves halted = ⊥

pub if_Moves :
    {S A : Type 0} (b : Bool) (x y : Flow S A) → Moves x → Moves y → Moves (if b then x else y)
if_Moves true x y h k = h
if_Moves false x y h k = k

pub record Proceeds {S A : Type 0} (m : S → Flow S A) : Type 0 where
  pub at : (s : S) → Moves (m s)

module _ {S A B : Type 0} where
  pub continue-Moves :
      (r : Flow S A) (f : A → S → Flow S B)
      → Moves r
      → ((a : A) (s : S) → Moves (f a s))
      → Moves (continue r f)
  continue-Moves (next a s) f h k = k a s
  continue-Moves (stop s) f h k = tt
  continue-Moves halted f h k = absurd h

  pub bind-Proceeds :
      (m : S → Flow S A) (f : A → S → Flow S B)
      → Proceeds m
      → ((a : A) → Proceeds (f a))
      → Proceeds (m >>= f)
  bind-Proceeds m f h k = record { at = λ s. continue-Moves (m s) f (h.at s) (λ a t. (k a).at t) }

module _ (I : Ipfs) (N : Network I) (picks : ℕ → ℕ) (n : I.Node) (healthy : I.core_api n ≡ none)
    (served : (w : N.World) → N.stranded w ≡ false) where
  pub dag_get-returned : (c : I.Cid) (w : N.World) → dag_get I N n c w ≢ stuck
  unfolding dag_get
  dag_get-returned c w = rw (healthy, dag_get, served) (λ p. cc)

  pub fetch_loop-returned :
      (fuel : ℕ) (m : List String) (ret : List I.Cid) (w : N.World)
      → fetch_loop I N picks n fuel m ret w ≢ some stuck
  unfolding fetch_loop
  fetch_loop-returned fuel [] ret w = λ p. cc
  fetch_loop-returned zero (x ∷ xs) ret w = λ p. cc
  fetch_loop-returned (suc fuel) (x ∷ xs) ret w =
      elim (Result-cases (I.decode_cid (take_out (picks fuel) x xs).0)) [
        | inr (e, bad) ↦ ground arith
        | inl (c, good) ↦ elim (Called-cases (dag_get I N n c w)) [
          | inl st ↦ absurd (dag_get-returned c w st)
          | inr (err e, v, got) ↦ ground arith
          | inr (ok nd, v, got) ↦ ground (
            arith,
            fetch_loop-returned fuel (insert_links I (N.links nd) (take_out (picks fuel) x xs).1)
                (ret ++ c ∷ []) v,
          )
        ]
      ]

  pub fetch_graph-returned :
      (fuel : ℕ) (root : I.Cid) (w : N.World) → fetch_graph I N picks fuel n root w ≢ some stuck
  unfolding fetch_graph
  fetch_graph-returned fuel root w = fetch_loop-returned fuel (I.cid_string root ∷ []) [] w
