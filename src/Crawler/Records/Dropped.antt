-- ===== src/Crawler/Records/Dropped.antt =====
-- The second loop: what is deleted, and what is listed to be unpinned.
use obcrawler.Base.{
  String, ◌≡◌, ◌≢◌, ◌↔◌, refl, Bool, true, false, not, ◌&&◌, none, List, [], ◌∷◌, map, arith,
  if◌then◌else◌, contains, Bool-cases, Option-cases, inl, inr, ◌⊎◌, ap, ◌∙◌, sym, same_self, subst,
  string_dec,
}
use obcrawler.Go.{Result, ok, err, record_not_found, Result-cases}
use obcrawler.Ipfs.{Ipfs}
use obcrawler.Repo.Models.{CidRecord}
use obcrawler.Repo.Gorm.{
  Gorm, IsLawful, CidFilter, cid_matches_all, count_records, c_id_is, owner_is, owner_is_not,
}
use obcrawler.Crawler.Records.{drop_old, found_records, unpin_if_alone}

abbrev pub listed : List CidRecord → String → Bool
listed rs a = contains (map (λ r. r.cid) rs) a

-- Every deletion succeeds. The code logs a failure and goes on.
abbrev pub DeletesWork : Gorm → Type 0
DeletesWork G = (fs : List CidFilter) (s : G.State) → (G.delete_cids fs s).0 ≡ none

module _ (G : Gorm) (L : IsLawful G) (I : Ipfs) where
  delete-others :
      (c owner : String) (s : G.State) (a o : String)
      → o ≢ owner
      → G.copies (G.delete_cids (c_id_is c ∷ owner_is owner ∷ []) s).1 a o ≡ G.copies s a o
  delete-others c owner s a o ne =
      let fs = c_id_is c ∷ owner_is owner ∷ [] in
      elim (Option-cases (G.delete_cids fs s).0) [
        | inl e ↦ ground (arith, L.delete_cids_copies fs s a o e)
        | inr (x, e) ↦ L.delete_cids_failed fs s a o x e
      ]

  pub drop_old-others :
      (owner : String) (seen : List String) (rs : List CidRecord) (s : G.State) (a o : String)
      → o ≢ owner
      → G.copies (drop_old G I owner seen rs s).2 a o ≡ G.copies s a o
  unfolding drop_old
  drop_old-others owner seen [] s a o ne = refl
  drop_old-others owner seen (r ∷ rs) s a o ne =
      let t = (G.delete_cids (c_id_is r.cid ∷ owner_is owner ∷ []) s).1 in
      ground (
        arith,
        drop_old-others owner seen rs s a o ne,
        drop_old-others owner seen rs t a o ne,
        delete-others r.cid owner s a o ne,
      )

  pub drop_old-row :
      (owner : String) (seen : List String) (rs : List CidRecord) (s : G.State) (id : String)
      → G.peer_row (drop_old G I owner seen rs s).2 id ≡ G.peer_row s id
  unfolding drop_old
  drop_old-row owner seen [] s id = refl
  drop_old-row owner seen (r ∷ rs) s id =
      let t = (G.delete_cids (c_id_is r.cid ∷ owner_is owner ∷ []) s).1 in
      ground (
        arith,
        drop_old-row owner seen rs s id,
        drop_old-row owner seen rs t id,
        L.delete_cids_row (c_id_is r.cid ∷ owner_is owner ∷ []) s id,
      )

  pub drop_old-copies :
      (owner : String) (seen : List String) (rs : List CidRecord) (s : G.State) (a : String)
      → DeletesWork G
      → (drop_old G I owner seen rs s).1 ≡ none
      → G.copies (drop_old G I owner seen rs s).2 a owner
        ≡ (if listed rs a && not (contains seen a) then 0 else G.copies s a owner)
  unfolding drop_old
  drop_old-copies owner seen [] s a works h = refl
  drop_old-copies owner seen (r ∷ rs) s a works h =
      let fs = c_id_is r.cid ∷ owner_is owner ∷ [] in
      ground (
        arith,
        drop_old-copies owner seen rs s a works,
        drop_old-copies owner seen rs (G.delete_cids fs s).1 a works,
        L.delete_cids_copies fs s a owner (works fs s),
      )

module _ (G : Gorm) (L : IsLawful G) where
  found_records-count :
      (fs : List CidFilter) (s : G.State) (r : Result (List CidRecord)) (rs : List CidRecord)
      (c o : String)
      → G.find_cids fs s ≡ r
      → found_records r ≡ ok rs
      → count_records c o rs ≡ (if cid_matches_all fs c o then G.copies s c o else 0)
  found_records-count fs s (ok qs) rs c o h f = ground (arith, L.find_cids_count fs s qs c o h)
  found_records-count fs s (err record_not_found) rs c o h f =
      ground (arith, L.find_cids_missing fs s c o h)
  found_records-count fs s (err x) rs c o h f = cc

  -- No peer but the owner has the CID.
  abbrev pub Alone : String → G.State → String → Type 0
  Alone owner s c = (o : String) → o ≢ owner → G.copies s c o ≡ 0

  Alone-of_empty :
      (owner c : String) (s : G.State)
      → found_records (G.find_cids (c_id_is c ∷ owner_is_not owner ∷ []) s) ≡ ok []
      → Alone owner s c
  Alone-of_empty owner c s h o ne = ground (
    arith,
    found_records-count (c_id_is c ∷ owner_is_not owner ∷ []) s _ [] c o refl h,
    same_self c,
  )

  empty_of_Alone :
      (owner c : String) (s : G.State) (rs : List CidRecord)
      → found_records (G.find_cids (c_id_is c ∷ owner_is_not owner ∷ []) s) ≡ ok rs
      → Alone owner s c
      → rs ≡ []
  empty_of_Alone owner c s [] h alone = refl
  empty_of_Alone owner c s (r ∷ rs) h alone = ground (
    arith,
    found_records-count (c_id_is c ∷ owner_is_not owner ∷ []) s _ (r ∷ rs) r.cid r.peer_id refl h,
    alone r.peer_id,
  )

unpin_if_alone-cases :
    (others : List CidRecord) (c : String) (rest : List String) (a : String)
    → contains (unpin_if_alone others c rest) a ≡ true
    → (others ≡ []) × (a ≡ c) ⊎ (contains rest a ≡ true)
unpin_if_alone-cases [] c rest a h = elim (string_dec a c) [
  | yes p ↦ inl (refl, p)
  | no p ↦ inr (ground arith)
]
unpin_if_alone-cases (r ∷ rs) c rest a h = inr h

unpin_if_alone-rest :
    (others : List CidRecord) (c : String) (rest : List String) (a : String)
    → contains rest a ≡ true
    → contains (unpin_if_alone others c rest) a ≡ true
unpin_if_alone-rest [] c rest a h = ground arith
unpin_if_alone-rest (r ∷ rs) c rest a h = h

module _ (G : Gorm) (L : IsLawful G) (I : Ipfs) where
  Alone-delete :
      (owner c a : String) (s : G.State)
      → Alone G L owner s a
        ↔ Alone G L owner (G.delete_cids (c_id_is c ∷ owner_is owner ∷ []) s).1 a
  Alone-delete owner c a s = (
    λ h o ne. delete-others G L I c owner s a o ne ∙ h o ne,
    λ h o ne. sym (delete-others G L I c owner s a o ne) ∙ h o ne,
  )

  -- When the loop ends without an error, it has listed exactly the old CIDs that are not in the
  -- new graph and that no other peer has.
  pub drop_old-unpins :
      (owner : String) (seen : List String) (rs : List CidRecord) (s : G.State) (a : String)
      → (drop_old G I owner seen rs s).1 ≡ none
      → (contains (drop_old G I owner seen rs s).0 a ≡ true)
        ↔ ((listed rs a ≡ true) × (contains seen a ≡ false) × Alone G L owner s a)
  unfolding drop_old
  drop_old-unpins owner seen [] s a h = (λ m. cc, λ m. m.0)
  drop_old-unpins owner seen (r ∷ rs) s a h = elim (Bool-cases (contains seen r.cid)) [
    | inl kept ↦
        let ih = drop_old-unpins owner seen rs s a (ground arith) in
        (
          λ m.
              let m' : contains (drop_old G I owner seen rs s).0 a ≡ true = ground arith in
              let p = ih.0 m' in (ground arith, p.1, p.2),
          λ m.
              let l : listed rs a ≡ true = ground (arith, m.0, m.1) in
              let q = ih.1 (l, m.1, m.2) in ground arith,
        )
    | inr gone ↦
        let t = (G.delete_cids (c_id_is r.cid ∷ owner_is owner ∷ []) s).1 in
        elim (Result-cases
          (found_records (G.find_cids (c_id_is r.cid ∷ owner_is_not owner ∷ []) t))) [
            | inr (x, e) ↦ ground arith
            | inl (others, e) ↦
                let ih = drop_old-unpins owner seen rs t a (ground arith) in
                let rest = (drop_old G I owner seen rs t).0 in
                (
                  λ m.
                      let m' : contains (unpin_if_alone others r.cid rest) a ≡ true =
                        ground arith in
                      elim (unpin_if_alone-cases others r.cid rest a m') [
                        | inl (empty, here) ↦
                            let alone : Alone G L owner t r.cid =
                              Alone-of_empty G L owner r.cid t (e ∙ ap ok empty) in
                            (
                              ground arith,
                              ground arith,
                              (Alone-delete owner r.cid a s).1
                                  (subst (Alone G L owner t) (sym here) alone),
                            )
                        | inr later ↦
                            let p = ih.0 later in
                            (ground arith, p.1, (Alone-delete owner r.cid a s).1 p.2)
                      ],
                  λ m. elim (string_dec a r.cid) [
                    | yes p ↦
                        let empty : others ≡ [] =
                          empty_of_Alone G L owner r.cid t others e
                            (subst (Alone G L owner t) p ((Alone-delete owner r.cid a s).0 m.2)) in
                        ground arith
                    | no p ↦
                        let l : listed rs a ≡ true = ground (arith, m.0) in
                        let q = ih.1 (l, m.1, (Alone-delete owner r.cid a s).0 m.2) in
                        let q' = unpin_if_alone-rest others r.cid rest a q in ground arith
                  ],
                )
          ]
  ]
