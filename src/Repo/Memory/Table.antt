-- ===== src/Repo/Memory/Table.antt =====
-- A table of peers with unique keys.
use obcrawler.Base.{
  String, ◌≡◌, true, false, Option, none, some, List, [], ◌∷◌, arith, same, if◌then◌else◌,
}
use obcrawler.Repo.Models.{Peer}
use obcrawler.Repo.Gorm.{PeerFilter, peer_matches_all}

unfoldable pub lookup_row : String → List Peer → Option Peer
lookup_row id [] = none
lookup_row id (p ∷ ps) = if same id p.peer_id then some p else lookup_row id ps

unfoldable pub without_row : String → List Peer → List Peer
without_row id [] = []
without_row id (p ∷ ps) =
    let rest = without_row id ps in if same id p.peer_id then rest else p ∷ rest

abbrev pub Unique : List Peer → Type 0
Unique [] = Unit
Unique (p ∷ ps) = (lookup_row p.peer_id ps ≡ none) × Unique ps

pub lookup-without :
    (k id : String) (ps : List Peer)
    → lookup_row id (without_row k ps) ≡ (if same id k then none else lookup_row id ps)
unfolding lookup_row without_row
lookup-without k id [] = ground arith
lookup-without k id (p ∷ ps) = ground (arith, lookup-without k id ps)

pub lookup-without_self : (k : String) (ps : List Peer) → lookup_row k (without_row k ps) ≡ none
lookup-without_self k ps = ground (arith, lookup-without k k ps)

pub without-Unique : (k : String) (ps : List Peer) → Unique ps → Unique (without_row k ps)
unfolding without_row
without-Unique k [] u = tt
without-Unique k (p ∷ ps) u = ground (arith, without-Unique k ps u.1, lookup-without k p.peer_id ps)

pub lookup_row-key :
    (id : String) (p : Peer) (ps : List Peer) → lookup_row id ps ≡ some p → p.peer_id ≡ id
unfolding lookup_row
lookup_row-key id p [] h = cc
lookup_row-key id p (q ∷ ps) h = ground (arith, lookup_row-key id p ps)

unfoldable pub first_row : List PeerFilter → List Peer → Option Peer
first_row fs [] = none
first_row fs (p ∷ ps) = if peer_matches_all fs p then some p else first_row fs ps

pub first_row-found :
    (fs : List PeerFilter) (p : Peer) (ps : List Peer)
    → Unique ps
    → first_row fs ps ≡ some p
    → (lookup_row p.peer_id ps ≡ some p) × (peer_matches_all fs p ≡ true)
unfolding lookup_row first_row
first_row-found fs p [] u h = cc
first_row-found fs p (q ∷ ps) u h = ground (arith, first_row-found fs p ps u.1)

pub first_row-missing :
    (fs : List PeerFilter) (id : String) (p : Peer) (ps : List Peer)
    → first_row fs ps ≡ none
    → lookup_row id ps ≡ some p
    → peer_matches_all fs p ≡ false
unfolding lookup_row first_row
first_row-missing fs id p [] h f = cc
first_row-missing fs id p (q ∷ ps) h f = ground (arith, first_row-missing fs id p ps)
