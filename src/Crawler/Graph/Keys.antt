-- ===== src/Crawler/Graph/Keys.antt =====
-- The map of pending keys: what taking a key out and entering links do to its members, and to a
-- weight that is summed over them.
use obcrawler.Base.{
  ℕ, zero, suc, ◌+◌, ◌≤◌, String, ◌≡◌, refl, ◌||◌, List, [], ◌∷◌, map, arith, same, contains, All,
}
use obcrawler.Ipfs.{Ipfs}
use obcrawler.Crawler.Graph.{insert_key, take_out, insert_links}

pub contains-take_out :
    (i : ℕ) (k : String) (m : List String) (a : String)
    → contains (k ∷ m) a ≡ (same a (take_out i k m).0 || contains (take_out i k m).1 a)
unfolding take_out
contains-take_out zero k m a = refl
contains-take_out (suc i) k [] a = refl
contains-take_out (suc i) k (j ∷ m) a = ground (arith, contains-take_out i j m a)

pub take_out-All :
    (P : String → Type 0) (i : ℕ) (k : String) (m : List String)
    → All P (k ∷ m)
    → P (take_out i k m).0 × All P (take_out i k m).1
unfolding take_out
take_out-All P zero k m h = h
take_out-All P (suc i) k [] h = h
take_out-All P (suc i) k (j ∷ m) h =
    let (found, rest) = take_out-All P i j m h.1 in (found, (h.0, rest))

abbrev pub total : (String → ℕ) → List String → ℕ
total w [] = 0
total w (k ∷ m) = w k + total w m

pub total-take_out :
    (w : String → ℕ) (i : ℕ) (k : String) (m : List String)
    → total w (k ∷ m) ≡ w (take_out i k m).0 + total w (take_out i k m).1
unfolding take_out
total-take_out w zero k m = refl
total-take_out w (suc i) k [] = refl
total-take_out w (suc i) k (j ∷ m) = omega (arith, total-take_out w i j m)

module _ (I : Ipfs) where
  pub contains-insert_links :
      (cs : List I.Cid) (m : List String) (a : String)
      → contains (insert_links I cs m) a ≡ (contains m a || contains (map I.cid_string cs) a)
  unfolding insert_links
  contains-insert_links [] m a = ground arith
  contains-insert_links (c ∷ cs) m a =
      ground (arith, contains-insert_links cs (insert_key (I.cid_string c) m) a)

  pub insert_links-All :
      (P : String → Type 0) (cs : List I.Cid) (m : List String)
      → All P (map I.cid_string cs)
      → All P m
      → All P (insert_links I cs m)
  unfolding insert_links
  insert_links-All P [] m hc hm = hm
  insert_links-All P (c ∷ cs) m hc hm =
      insert_links-All P cs (insert_key (I.cid_string c) m) hc.1 (ground arith)

  pub total-insert_links-le :
      (w : String → ℕ) (cs : List I.Cid) (m : List String)
      → total w (insert_links I cs m) ≤ total w (map I.cid_string cs) + total w m
  unfolding insert_links
  total-insert_links-le w [] m = omega arith
  total-insert_links-le w (c ∷ cs) m =
      ground (arith, total-insert_links-le w cs (insert_key (I.cid_string c) m))
