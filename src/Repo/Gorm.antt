-- ===== src/Repo/Gorm.antt =====
-- What the code uses of gorm, as an interface: the statements that it runs in a transaction, and
-- what they promise of the two tables. The table of peers has a primary key, so it is seen as a
-- partial map; the table of CID records has none that the code sets, so it is seen as a multiset.
use obcrawler.Base.{
  ℕ, ◌+◌, ◌≤◌, String, ◌≡◌, ◌∙◌, Bool, true, false, not, ◌&&◌, Option, none, some, List, [], ◌∷◌,
  ltb, same, if◌then◌else◌, length, All,
}
use obcrawler.Go.{GoError, record_not_found, Result, ok, err}
use obcrawler.Repo.Models.{Peer, CidRecord}

-- The conditions that the code gives to `Where` on the table of peers.
pub data PeerFilter : Type 0 where
  peer_id_is : String → PeerFilter
  banned_is : Bool → PeerFilter
  ipns_expiration_after : ℕ → PeerFilter
  last_crawled_before : ℕ → PeerFilter
  last_seen_after : ℕ → PeerFilter

-- The conditions on the table of CID records.
pub data CidFilter : Type 0 where
  c_id_is : String → CidFilter
  owner_is : String → CidFilter
  owner_is_not : String → CidFilter

abbrev pub bool_eq : Bool → Bool → Bool
bool_eq true b = b
bool_eq false b = not b

abbrev pub peer_matches : PeerFilter → Peer → Bool
peer_matches (peer_id_is id) p = same p.peer_id id
peer_matches (banned_is b) p = bool_eq p.banned b
peer_matches (ipns_expiration_after t) p = ltb t p.ipns_expiration
peer_matches (last_crawled_before t) p = ltb p.last_crawled t
peer_matches (last_seen_after t) p = ltb t p.last_seen

abbrev pub peer_matches_all : List PeerFilter → Peer → Bool
peer_matches_all [] p = true
peer_matches_all (f ∷ fs) p = peer_matches f p && peer_matches_all fs p

abbrev pub cid_matches : CidFilter → String → String → Bool
cid_matches (c_id_is c') c o = same c c'
cid_matches (owner_is o') c o = same o o'
cid_matches (owner_is_not o') c o = not (same o o')

abbrev pub cid_matches_all : List CidFilter → String → String → Bool
cid_matches_all [] c o = true
cid_matches_all (f ∷ fs) c o = cid_matches f c o && cid_matches_all fs c o

-- How many of the records have this CID and this owner.
abbrev pub count_records : String → String → List CidRecord → ℕ
count_records c o [] = 0
count_records c o (r ∷ rs) =
    (if same c r.cid && same o r.peer_id then 1 else 0) + count_records c o rs

pub record Gorm : Type 1 where
  pub State : Type 0
  -- what the tables hold: the row of a primary key, and how many records have a CID and an owner
  pub peer_row : State → String → Option Peer
  pub copies : State → String → String → ℕ
  -- db.Where(…).First(&peer)
  pub first_peer : List PeerFilter → State → Result Peer
  -- db.Where(…).Order("last_crawled asc").Limit(n).Find(&peers)
  pub find_peers : List PeerFilter → ℕ → State → Result (List Peer)
  -- db.Where(…).Find(&records)
  pub find_cids : List CidFilter → State → Result (List CidRecord)
  -- db.Save(&peer).Error
  pub save_peer : Peer → State → Option GoError × State
  -- db.Save(&repo.CIDRecord{…}).Error, of a record with no primary key
  pub save_cid : CidRecord → State → Option GoError × State
  -- db.Where(…).Delete(&repo.CIDRecord{}).Error
  pub delete_cids : List CidFilter → State → Option GoError × State
  pub begin : State → State
  -- the state at Begin, and the state that the transaction has reached
  pub commit : State → State → Option GoError × State
  pub rollback : State → State → State

-- Two states of the database that hold the same rows.
pub record SameTables (G : Gorm) (s t : G.State) : Type 0 where
  pub rows : (id : String) → G.peer_row s id ≡ G.peer_row t id
  pub copies : (c o : String) → G.copies s c o ≡ G.copies t c o

pub SameTables-trans :
    (G : Gorm) (s t u : G.State) → SameTables G s t → SameTables G t u → SameTables G s u
SameTables-trans G s t u p q = record {
  rows = λ id. p.rows id ∙ q.rows id;
  copies = λ c o. p.copies c o ∙ q.copies c o;
}

abbrev pub ByLastCrawled : List Peer → Type 0
ByLastCrawled [] = Unit
ByLastCrawled (p ∷ ps) = All (λ q. p.last_crawled ≤ q.last_crawled) ps × ByLastCrawled ps

-- A statement that succeeds does what SQL says; one that fails changes nothing; a query that
-- fails says nothing, and one that finds no row has no row to find.
pub record IsLawful (G : Gorm) : Type 0 where
  pub row_key : (s : G.State) (id : String) (p : Peer) → G.peer_row s id ≡ some p → p.peer_id ≡ id
  pub first_found :
      (fs : List PeerFilter) (s : G.State) (p : Peer)
      → G.first_peer fs s ≡ ok p
      → (G.peer_row s p.peer_id ≡ some p) × (peer_matches_all fs p ≡ true)
  pub first_missing :
      (fs : List PeerFilter) (s : G.State) (id : String) (p : Peer)
      → G.first_peer fs s ≡ err record_not_found
      → G.peer_row s id ≡ some p
      → peer_matches_all fs p ≡ false
  pub find_peers_found :
      (fs : List PeerFilter) (n : ℕ) (s : G.State) (ps : List Peer)
      → G.find_peers fs n s ≡ ok ps
      → All (λ p. (G.peer_row s p.peer_id ≡ some p) × (peer_matches_all fs p ≡ true)) ps
        × (length ps ≤ n)
        × ByLastCrawled ps
  pub find_cids_count :
      (fs : List CidFilter) (s : G.State) (rs : List CidRecord) (c o : String)
      → G.find_cids fs s ≡ ok rs
      → count_records c o rs ≡ (if cid_matches_all fs c o then G.copies s c o else 0)
  pub find_cids_missing :
      (fs : List CidFilter) (s : G.State) (c o : String)
      → G.find_cids fs s ≡ err record_not_found
      → cid_matches_all fs c o ≡ true
      → G.copies s c o ≡ 0
  pub save_peer_row :
      (p : Peer) (s : G.State) (id : String)
      → (G.save_peer p s).0 ≡ none
      → G.peer_row (G.save_peer p s).1 id ≡ (if same id p.peer_id then some p else G.peer_row s id)
  pub save_peer_copies :
      (p : Peer) (s : G.State) (c o : String)
      → (G.save_peer p s).0 ≡ none
      → G.copies (G.save_peer p s).1 c o ≡ G.copies s c o
  pub save_cid_copies :
      (r : CidRecord) (s : G.State) (c o : String)
      → (G.save_cid r s).0 ≡ none
      → G.copies (G.save_cid r s).1 c o
        ≡ (if same c r.cid && same o r.peer_id then 1 else 0) + G.copies s c o
  pub save_cid_row :
      (r : CidRecord) (s : G.State) (id : String)
      → (G.save_cid r s).0 ≡ none
      → G.peer_row (G.save_cid r s).1 id ≡ G.peer_row s id
  pub delete_cids_copies :
      (fs : List CidFilter) (s : G.State) (c o : String)
      → (G.delete_cids fs s).0 ≡ none
      → G.copies (G.delete_cids fs s).1 c o ≡ (if cid_matches_all fs c o then 0 else G.copies s c o)
  pub delete_cids_row :
      (fs : List CidFilter) (s : G.State) (id : String)
      → G.peer_row (G.delete_cids fs s).1 id ≡ G.peer_row s id
  pub delete_cids_failed :
      (fs : List CidFilter) (s : G.State) (c o : String) (e : GoError)
      → (G.delete_cids fs s).0 ≡ some e
      → G.copies (G.delete_cids fs s).1 c o ≡ G.copies s c o
  pub begin_tables : (s : G.State) → SameTables G (G.begin s) s
  pub commit_tables : (s t : G.State) → (G.commit s t).0 ≡ none → SameTables G (G.commit s t).1 t
  pub commit_failed :
      (s t : G.State) (e : GoError) → (G.commit s t).0 ≡ some e → SameTables G (G.commit s t).1 s
  pub rollback_tables : (s t : G.State) → SameTables G (G.rollback s t) s
