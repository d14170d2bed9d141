-- ===== src/Repo/Memory/Records.antt =====
-- The records that match a query, and those that are left by a deletion.
use obcrawler.Base.{String, ◌≡◌, List, [], ◌∷◌, arith, if◌then◌else◌}
use obcrawler.Repo.Models.{CidRecord}
use obcrawler.Repo.Gorm.{CidFilter, cid_matches_all, count_records}

unfoldable pub matching : List CidFilter → List CidRecord → List CidRecord
matching fs [] = []
matching fs (r ∷ rs) =
    let rest = matching fs rs in if cid_matches_all fs r.cid r.peer_id then r ∷ rest else rest

unfoldable pub remaining : List CidFilter → List CidRecord → List CidRecord
remaining fs [] = []
remaining fs (r ∷ rs) =
    let rest = remaining fs rs in if cid_matches_all fs r.cid r.peer_id then rest else r ∷ rest

pub count-matching :
    (fs : List CidFilter) (rs : List CidRecord) (c o : String)
    → count_records c o (matching fs rs)
      ≡ (if cid_matches_all fs c o then count_records c o rs else 0)
unfolding matching
count-matching fs [] c o = ground arith
count-matching fs (r ∷ rs) c o = ground (arith, count-matching fs rs c o)

pub count-remaining :
    (fs : List CidFilter) (rs : List CidRecord) (c o : String)
    → count_records c o (remaining fs rs)
      ≡ (if cid_matches_all fs c o then 0 else count_records c o rs)
unfolding remaining
count-remaining fs [] c o = ground arith
count-remaining fs (r ∷ rs) c o = ground (arith, count-remaining fs rs c o)
