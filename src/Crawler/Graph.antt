-- ===== src/Crawler/Graph.antt =====
-- dagGet and fetchGraph of crawler/worker.go.
--
-- dagGet defers a send on a channel that nobody reads before the goroutine below it has started,
-- so where coreapi.NewCoreAPI fails the function never returns; nor does it where shutdown has
-- ended that goroutine before the send, which `Crawler.Cancel` takes apart.
--
-- The loop of fetchGraph ranges over a Go map that it changes on the way: each round takes some
-- key out, and which one is not determined. `picks` makes that choice, by the rounds left; no
-- theorem restricts it. The map is the list of its keys.
pub mod Keys
pub mod Reach
pub mod Closed
use obcrawler.Base.{
  ℕ, zero, suc, String, Option, none, some, List, [], ◌∷◌, ◌++◌, if◌then◌else◌, contains,
}
use obcrawler.Go.{GoError, Result, ok, err}
use obcrawler.Ipfs.{Ipfs}
use obcrawler.Crawler.Network.{Network, Called, returned, stuck}

-- m[k] = true
unfoldable pub insert_key : String → List String → List String
insert_key k m = if contains m k then m else k ∷ m

-- Takes the key at an index out of a map that is not empty; the last one, past its end.
unfoldable pub take_out : ℕ → String → List String → String × List String
take_out zero k m = (k, m)
take_out (suc i) k [] = (k, [])
take_out (suc i) k (j ∷ m) = let (found, rest) = take_out i j m in (found, k ∷ rest)

module _ (I : Ipfs) where
  -- for _, link := range nd.Links() { m[link.Cid.String()] = true }
  unfoldable pub insert_links : List I.Cid → List String → List String
  unfolding insert_key
  insert_links [] m = m
  insert_links (c ∷ cs) m = insert_links cs (insert_key (I.cid_string c) m)

module _ (I : Ipfs) (N : Network I) where
  unfoldable pub dag_get : I.Node → I.Cid → N.World → Called N.World (Result N.DagNode)
  dag_get n c w = elim (I.core_api n) [
    | none ↦ let (r, w') = N.dag_get n c w in if N.stranded w' then stuck else returned r w'
    | some e ↦ stuck
  ]

  -- The list and the error that fetchGraph returns; none when the fuel ran out.
  abbrev pub Fetched : Type 0
  Fetched = Option (Called N.World (List I.Cid × Option GoError))

  unfoldable pub fetch_loop : (ℕ → ℕ) → I.Node → ℕ → List String → List I.Cid → N.World → Fetched
  unfolding dag_get take_out insert_links
  fetch_loop picks n fuel [] ret w = some (returned (ret, none) w)
  fetch_loop picks n zero (x ∷ xs) ret w = none
  fetch_loop picks n (suc fuel) (x ∷ xs) ret w =
      let (k, rest) = take_out (picks fuel) x xs in
      elim (I.decode_cid k) [
        | err e ↦ some (returned (ret, some e) w)
        | ok c ↦ elim (dag_get n c w) [
          | stuck ↦ some stuck
          | returned (err e) w' ↦ some (returned (ret ++ c ∷ [], some e) w')
          | returned (ok nd) w' ↦
              fetch_loop picks n fuel (insert_links I (N.links nd) rest) (ret ++ c ∷ []) w'
        ]
      ]

  unfoldable pub fetch_graph : (ℕ → ℕ) → ℕ → I.Node → I.Cid → N.World → Fetched
  unfolding fetch_loop
  fetch_graph picks fuel n root w = fetch_loop picks n fuel (I.cid_string root ∷ []) [] w
