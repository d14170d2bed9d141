-- ===== src/Crawler/Records/Saved.antt =====
-- The first loop: one more record for each CID of the graph.
use obcrawler.Base.{
  ◌+◌, String, ◌≡◌, refl, not, ◌&&◌, ◌||◌, none, List, [], ◌∷◌, map, arith, same, if◌then◌else◌,
  contains,
}
use obcrawler.Ipfs.{Ipfs}
use obcrawler.Repo.Models.{CidRecord}
use obcrawler.Repo.Gorm.{Gorm, IsLawful}
use obcrawler.Crawler.Records.{save_new}

abbrev pub texts : (I : Ipfs) → List I.Cid → List String
texts I = map I.cid_string

module _ (G : Gorm) (L : IsLawful G) (I : Ipfs) where
  pub save_new-seen :
      (owner : String) (cs : List I.Cid) (seen : List String) (s : G.State) (a : String)
      → (save_new G I owner cs seen s).1 ≡ none
      → contains (save_new G I owner cs seen s).0 a ≡ (contains seen a || contains (texts I cs) a)
  unfolding save_new
  save_new-seen owner [] seen s a h = ground arith
  save_new-seen owner (c ∷ cs) seen s a h =
      let r : CidRecord = record { cid = I.cid_string c; peer_id = owner } in
      ground (
        arith,
        save_new-seen owner cs seen s a,
        save_new-seen owner cs (I.cid_string c ∷ seen) (G.save_cid r s).1 a,
      )

  pub save_new-copies :
      (owner : String) (cs : List I.Cid) (seen : List String) (s : G.State) (a o : String)
      → (save_new G I owner cs seen s).1 ≡ none
      → G.copies (save_new G I owner cs seen s).2 a o
        ≡ (if same o owner && (contains (texts I cs) a && not (contains seen a)) then 1 else 0)
          + G.copies s a o
  unfolding save_new
  save_new-copies owner [] seen s a o h = ground arith
  save_new-copies owner (c ∷ cs) seen s a o h =
      let r : CidRecord = record { cid = I.cid_string c; peer_id = owner } in
      ground (
        arith,
        save_new-copies owner cs seen s a o,
        save_new-copies owner cs (I.cid_string c ∷ seen) (G.save_cid r s).1 a o,
        L.save_cid_copies r s a o,
      )

  pub save_new-row :
      (owner : String) (cs : List I.Cid) (seen : List String) (s : G.State) (id : String)
      → (save_new G I owner cs seen s).1 ≡ none
      → G.peer_row (save_new G I owner cs seen s).2 id ≡ G.peer_row s id
  unfolding save_new
  save_new-row owner [] seen s id h = refl
  save_new-row owner (c ∷ cs) seen s id h =
      let r : CidRecord = record { cid = I.cid_string c; peer_id = owner } in
      ground (
        arith,
        save_new-row owner cs seen s id,
        save_new-row owner cs (I.cid_string c ∷ seen) (G.save_cid r s).1 id,
        L.save_cid_row r s id,
      )
