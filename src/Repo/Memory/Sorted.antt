-- ===== src/Repo/Memory/Sorted.antt =====
-- The first `n` matching peers in the order of their last crawl.
use obcrawler.Base.{
  ℕ, zero, suc, ◌≤◌, ◌≡◌, true, none, some, List, [], ◌∷◌, arith, leb, if◌then◌else◌, All, length,
}
use obcrawler.Repo.Models.{Peer}
use obcrawler.Repo.Gorm.{PeerFilter, peer_matches_all, ByLastCrawled}
use obcrawler.Repo.Memory.Table.{lookup_row, Unique}

filter_rows : List PeerFilter → List Peer → List Peer
filter_rows fs [] = []
filter_rows fs (p ∷ ps) =
    let rest = filter_rows fs ps in if peer_matches_all fs p then p ∷ rest else rest

insert_row : Peer → List Peer → List Peer
insert_row p [] = p ∷ []
insert_row p (q ∷ ps) =
    if leb p.last_crawled q.last_crawled then p ∷ q ∷ ps else q ∷ insert_row p ps

sort_rows : List Peer → List Peer
sort_rows [] = []
sort_rows (p ∷ ps) = insert_row p (sort_rows ps)

take_rows : ℕ → List Peer → List Peer
take_rows zero ps = []
take_rows (suc n) [] = []
take_rows (suc n) (p ∷ ps) = p ∷ take_rows n ps

unfoldable pub oldest : List PeerFilter → ℕ → List Peer → List Peer
unfolding filter_rows sort_rows insert_row take_rows
oldest fs n ps = take_rows n (sort_rows (filter_rows fs ps))

abbrev Found : List PeerFilter → List Peer → Peer → Type 0
Found fs rows p = (lookup_row p.peer_id rows ≡ some p) × (peer_matches_all fs p ≡ true)

weaken :
    (fs : List PeerFilter) (q : Peer) (rows ps : List Peer)
    → lookup_row q.peer_id rows ≡ none
    → All (Found fs rows) ps
    → All (Found fs (q ∷ rows)) ps
unfolding lookup_row
weaken fs q rows [] fresh h = tt
weaken fs q rows (p ∷ ps) fresh h = (ground arith, weaken fs q rows ps fresh h.1)

filter_rows-Found :
    (fs : List PeerFilter) (rows : List Peer)
    → Unique rows
    → All (Found fs rows) (filter_rows fs rows)
unfolding filter_rows lookup_row
filter_rows-Found fs [] u = tt
filter_rows-Found fs (q ∷ rows) u =
    ground (arith, weaken fs q rows (filter_rows fs rows) u.0 (filter_rows-Found fs rows u.1))

module _ (P : Peer → Type 0) where
  insert_row-All : (p : Peer) (ps : List Peer) → P p → All P ps → All P (insert_row p ps)
  unfolding insert_row
  insert_row-All p [] hp h = (hp, tt)
  insert_row-All p (q ∷ ps) hp h = ground (arith, insert_row-All p ps hp h.1)

  sort_rows-All : (ps : List Peer) → All P ps → All P (sort_rows ps)
  unfolding sort_rows
  sort_rows-All [] h = tt
  sort_rows-All (p ∷ ps) h = insert_row-All p (sort_rows ps) h.0 (sort_rows-All ps h.1)

  take_rows-All : (n : ℕ) (ps : List Peer) → All P ps → All P (take_rows n ps)
  unfolding take_rows
  take_rows-All zero ps h = tt
  take_rows-All (suc n) [] h = tt
  take_rows-All (suc n) (p ∷ ps) h = (h.0, take_rows-All n ps h.1)

All-le_trans :
    (a b : ℕ) (ps : List Peer)
    → a ≤ b
    → All (λ q. b ≤ q.last_crawled) ps
    → All (λ q. a ≤ q.last_crawled) ps
All-le_trans a b [] h k = tt
All-le_trans a b (p ∷ ps) h k = (omega arith, All-le_trans a b ps h k.1)

insert_row-sorted : (p : Peer) (ps : List Peer) → ByLastCrawled ps → ByLastCrawled (insert_row p ps)
unfolding insert_row
insert_row-sorted p [] h = (tt, tt)
insert_row-sorted p (q ∷ ps) h = ground (
  arith,
  insert_row-sorted p ps h.1,
  insert_row-All (λ r. q.last_crawled ≤ r.last_crawled) p ps,
  All-le_trans p.last_crawled q.last_crawled ps,
)

sort_rows-sorted : (ps : List Peer) → ByLastCrawled (sort_rows ps)
unfolding sort_rows
sort_rows-sorted [] = tt
sort_rows-sorted (p ∷ ps) = insert_row-sorted p (sort_rows ps) (sort_rows-sorted ps)

take_rows-sorted : (n : ℕ) (ps : List Peer) → ByLastCrawled ps → ByLastCrawled (take_rows n ps)
unfolding take_rows
take_rows-sorted zero ps h = tt
take_rows-sorted (suc n) [] h = tt
take_rows-sorted (suc n) (p ∷ ps) h = (take_rows-All _ n ps h.0, take_rows-sorted n ps h.1)

length-take_rows-le : (n : ℕ) (ps : List Peer) → length (take_rows n ps) ≤ n
unfolding take_rows
length-take_rows-le zero ps = omega arith
length-take_rows-le (suc n) [] = omega arith
length-take_rows-le (suc n) (p ∷ ps) = omega (arith, length-take_rows-le n ps)

pub oldest-found :
    (fs : List PeerFilter) (n : ℕ) (rows : List Peer)
    → Unique rows
    → All
        (λ p. (lookup_row p.peer_id rows ≡ some p) × (peer_matches_all fs p ≡ true))
        (oldest fs n rows)
      × (length (oldest fs n rows) ≤ n)
      × ByLastCrawled (oldest fs n rows)
unfolding oldest
oldest-found fs n rows u = (
  take_rows-All _ n _ (sort_rows-All _ _ (filter_rows-Found fs rows u)),
  length-take_rows-le n _,
  take_rows-sorted n _ (sort_rows-sorted (filter_rows fs rows)),
)
