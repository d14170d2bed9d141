-- ===== src/Crawler/Records.antt =====
-- The transaction of processJob in crawler/worker.go that replaces a peer's CID records: it saves
-- the CIDs of the new graph, deletes those that do not carry forward, and lists those to unpin.
pub mod Saved
pub mod Dropped
pub mod Exact
pub mod Others
use obcrawler.Base.{String, Bool, Option, none, some, List, [], ◌∷◌, if◌then◌else◌, contains}
use obcrawler.Go.{GoError, record_not_found, Result, ok, err}
use obcrawler.Ipfs.{Ipfs}
use obcrawler.Repo.Models.{CidRecord}
use obcrawler.Repo.Gorm.{Gorm, c_id_is, owner_is, owner_is_not}
use obcrawler.Repo.Database.{Outcome}

-- The variable that Find leaves after an error that is only logged.
abbrev pub old_records : Result (List CidRecord) → List CidRecord
old_records (ok rs) = rs
old_records (err e) = []

-- `if err != nil && !errors.Is(err, gorm.ErrRecordNotFound) { return err }`
abbrev pub found_records : Result (List CidRecord) → Result (List CidRecord)
found_records (err record_not_found) = ok []
found_records r = r

-- `if len(recs) == 0 { toUnpin = append(toUnpin, rec.CID) }`
abbrev pub unpin_if_alone : List CidRecord → String → List String → List String
unpin_if_alone [] c rest = c ∷ rest
unpin_if_alone (r ∷ rs) c rest = rest

module _ (G : Gorm) (I : Ipfs) where
  -- The loop over the graph. `seen` is the set of keys of newCIDs.
  unfoldable pub save_new :
      String → List I.Cid → List String → G.State → Outcome G.State (List String)
  save_new owner [] seen s = (seen, none, s)
  save_new owner (c ∷ cs) seen s =
      let text = I.cid_string c in
      let skip = save_new owner cs seen s in
      let (e, t) = G.save_cid (record { cid = text; peer_id = owner }) s in
      let go_on = save_new owner cs (text ∷ seen) t in
      if contains seen text then skip else (elim e [ none ↦ go_on | some x ↦ (seen, some x, t) ])

  -- The loop over the old records. An error of the deletion is only logged.
  unfoldable pub drop_old :
      String → List String → List CidRecord → G.State → Outcome G.State (List String)
  drop_old owner seen [] s = ([], none, s)
  drop_old owner seen (r ∷ rs) s =
      let keep = drop_old owner seen rs s in
      let (_, t) = G.delete_cids (c_id_is r.cid ∷ owner_is owner ∷ []) s in
      let (rest, e, u) = drop_old owner seen rs t in
      if contains seen r.cid
      then keep
      else (elim (found_records (G.find_cids (c_id_is r.cid ∷ owner_is_not owner ∷ []) t)) [
        | ok others ↦ (unpin_if_alone others r.cid rest, e, u)
        | err x ↦ ([], some x, t)
      ])

  -- The closure: it captures toUnpin.
  unfoldable pub save_body : String → List I.Cid → G.State → Outcome G.State (List String)
  unfolding save_new drop_old
  save_body owner graph s =
      let old = old_records (G.find_cids (owner_is owner ∷ []) s) in
      let (seen, e, t) = save_new owner graph [] s in
      elim e [ none ↦ drop_old owner seen old t | some x ↦ ([], some x, t) ]
