-- ===== src/Crawler/Records/Exact.antt =====
-- The whole transaction: the records that it leaves, and the CIDs that it lists to unpin.
use obcrawler.Base.{
  ◌+◌, String, ◌≡◌, ◌≢◌, ◌↔◌, refl, sym, ◌∙◌, ap, true, false, Option, none, List, [], ◌∷◌, arith,
  same, if◌then◌else◌, contains, inl, inr, string_dec, subst, Option-cases, same_self,
}
use obcrawler.Go.{GoError, Result, ok, err}
use obcrawler.Ipfs.{Ipfs}
use obcrawler.Repo.Models.{CidRecord}
use obcrawler.Repo.Gorm.{Gorm, IsLawful, count_records, owner_is}
use obcrawler.Repo.Database.{update}
use obcrawler.Repo.Database.Atomic.{update_done, update_captured}
use obcrawler.Crawler.Records.{save_new, drop_old, save_body, old_records}
use obcrawler.Crawler.Records.Saved.{texts, save_new-seen, save_new-copies, save_new-row}
use obcrawler.Crawler.Records.Dropped.{
  listed, DeletesWork, Alone, drop_old-others, drop_old-row, drop_old-copies, drop_old-unpins,
}

listed-count :
    (rs : List CidRecord) (a : String)
    → listed rs a ≡ true
    → (o : String) × (count_records a o rs ≢ 0)
listed-count [] a h = cc
listed-count (r ∷ rs) a h = elim (string_dec a r.cid) [
  | yes p ↦ (r.peer_id, ground arith)
  | no p ↦ let (o, c) = listed-count rs a (ground arith) in (o, ground arith)
]

count-listed : (rs : List CidRecord) (a o : String) → count_records a o rs ≢ 0 → listed rs a ≡ true
count-listed [] a o h = absurd (h refl)
count-listed (r ∷ rs) a o h = ground (arith, count-listed rs a o)

module _ (G : Gorm) (L : IsLawful G) (I : Ipfs) (owner : String) (graph : List I.Cid) where
  -- The query for the peer's own records succeeds.
  abbrev pub Answers : Type 0
  Answers = (s : G.State) → (rs : List CidRecord) × (G.find_cids (owner_is owner ∷ []) s ≡ ok rs)

  old-listed :
      (s : G.State) (rs : List CidRecord) (a : String)
      → G.find_cids (owner_is owner ∷ []) s ≡ ok rs
      → (listed rs a ≡ true) ↔ (G.copies s a owner ≢ 0)
  old-listed s rs a h = (
    λ l.
        let (o, c) = listed-count rs a l in
        ground (arith, L.find_cids_count (owner_is owner ∷ []) s rs a o h),
    λ c.
        count-listed rs a owner
          (ground (arith, L.find_cids_count (owner_is owner ∷ []) s rs a owner h, same_self owner)),
  )

  abbrev pub saved : G.State → List String × Option GoError × G.State
  saved s = save_new G I owner graph [] s

  drop_old-nil : (seen : List String) (s : G.State) → (drop_old G I owner seen [] s).0 ≡ []
  unfolding drop_old
  drop_old-nil seen s = refl

  body_split :
      (s : G.State) (rs : List CidRecord)
      → G.find_cids (owner_is owner ∷ []) s ≡ ok rs
      → (save_body G I owner graph s).1 ≡ none
      → ((saved s).1 ≡ none)
        × (save_body G I owner graph s ≡ drop_old G I owner (saved s).0 rs (saved s).2)
  unfolding save_body
  body_split s rs h done = elim (Option-cases (saved s).1) [
    | inl e ↦ (e, ground arith)
    | inr (x, e) ↦ ground arith
  ]

  pub body_split_any :
      (s : G.State)
      → (save_body G I owner graph s).1 ≡ none
      → ((saved s).1 ≡ none)
        × (save_body G I owner graph s
            ≡ drop_old G I owner
                (saved s).0
                (old_records (G.find_cids (owner_is owner ∷ []) s))
                (saved s).2)
  unfolding save_body
  body_split_any s done = elim (Option-cases (saved s).1) [
    | inl e ↦ (e, ground arith)
    | inr (x, e) ↦ ground arith
  ]

  body-copies :
      (s : G.State) (rs : List CidRecord) (a o : String)
      → G.find_cids (owner_is owner ∷ []) s ≡ ok rs
      → DeletesWork G
      → (save_body G I owner graph s).1 ≡ none
      → G.copies (save_body G I owner graph s).2 a o ≡ (
          if same o owner
          then (if contains (texts I graph) a then 1 + G.copies s a o else 0)
          else G.copies s a o)
  body-copies s rs a o h works done =
      let (e, split) = body_split s rs h done in
      let seen = (saved s).0 in
      let t = (saved s).2 in
      let quiet : (drop_old G I owner seen rs t).1 ≡ none =
        sym (ap (λ (r : List String × Option GoError × G.State). r.1) split) ∙ done in
      rw split (elim (string_dec o owner) [
        | yes p ↦ ground (
          arith,
          drop_old-copies G L I owner seen rs t a works quiet,
          save_new-copies G L I owner graph [] s a owner e,
          save_new-seen G L I owner graph [] s a e,
          old-listed s rs a h,
        )
        | no p ↦ ground (
          arith,
          drop_old-others G L I owner seen rs t a o p,
          save_new-copies G L I owner graph [] s a o e,
        )
      ])

  body-row :
      (s : G.State) (id : String)
      → (save_body G I owner graph s).1 ≡ none
      → G.peer_row (save_body G I owner graph s).2 id ≡ G.peer_row s id
  body-row s id done =
      let (e, split) = body_split_any s done in
      rw split (
        drop_old-row G L I owner (saved s).0 (old_records (G.find_cids (owner_is owner ∷ []) s))
          (saved s).2 id
        ∙ save_new-row G L I owner graph [] s id e)

  body-unpins :
      (s : G.State) (rs : List CidRecord) (a : String)
      → G.find_cids (owner_is owner ∷ []) s ≡ ok rs
      → (save_body G I owner graph s).1 ≡ none
      → (contains (save_body G I owner graph s).0 a ≡ true)
        ↔ ((G.copies s a owner ≢ 0) × (contains (texts I graph) a ≡ false) × Alone G L owner s a)
  body-unpins s rs a h done =
      let (e, split) = body_split s rs h done in
      let seen = (saved s).0 in
      let t = (saved s).2 in
      let quiet : (drop_old G I owner seen rs t).1 ≡ none =
        sym (ap (λ (r : List String × Option GoError × G.State). r.1) split) ∙ done in
      let (there, back) = drop_old-unpins G L I owner seen rs t a quiet in
      let keys = save_new-seen G L I owner graph [] s a e in
      let same_others : (o : String) → o ≢ owner → G.copies t a o ≡ G.copies s a o =
        λ o ne. ground (arith, save_new-copies G L I owner graph [] s a o e) in
      rw split (
        λ m.
            let p = there m in
            (
              (old-listed s rs a h).0 p.0,
              sym keys ∙ p.1,
              λ o ne. sym (same_others o ne) ∙ p.2 o ne,
            ),
        λ m. back ((old-listed s rs a h).1 m.0, keys ∙ m.1, λ o ne. same_others o ne ∙ m.2 o ne),
      )

  -- Where the query for the peer's own records never fails and no deletion fails, a transaction that
  -- reports no error has given the peer one more record of every CID in the new graph, and left none
  -- of any other CID; the records of other peers are as before.
  pub update-copies :
      (s : G.State) (a o : String)
      → Answers
      → DeletesWork G
      → (update G (save_body G I owner graph) s).1 ≡ none
      → G.copies (update G (save_body G I owner graph) s).2 a o ≡ (
          if same o owner
          then (if contains (texts I graph) a then 1 + G.copies s a o else 0)
          else G.copies s a o)
  update-copies s a o answers works done =
      let (body, tables) = update_done G L (save_body G I owner graph) s done in
      let (rs, h) = answers (G.begin s) in
      tables.copies a o ∙ body-copies (G.begin s) rs a o h works body ∙ rw (L.begin_tables s).copies

  pub update-row :
      (s : G.State) (id : String)
      → (update G (save_body G I owner graph) s).1 ≡ none
      → G.peer_row (update G (save_body G I owner graph) s).2 id ≡ G.peer_row s id
  update-row s id done =
      let (body, tables) = update_done G L (save_body G I owner graph) s done in
      tables.rows id ∙ body-row (G.begin s) id body ∙ (L.begin_tables s).rows id

  -- Where the query for the peer's own records never fails, a transaction that reports no error lists
  -- to be unpinned exactly the CIDs that the peer had, that are not in the new graph, and that no
  -- other peer has. That holds also where a deletion failed.
  pub update-unpins :
      (s : G.State) (a : String)
      → Answers
      → (update G (save_body G I owner graph) s).1 ≡ none
      → (contains (update G (save_body G I owner graph) s).0 a ≡ true)
        ↔ ((G.copies s a owner ≢ 0) × (contains (texts I graph) a ≡ false) × Alone G L owner s a)
  update-unpins s a answers done =
      let (body, tables) = update_done G L (save_body G I owner graph) s done in
      let (rs, h) = answers (G.begin s) in
      let (there, back) = body-unpins (G.begin s) rs a h body in
      let start = L.begin_tables s in
      rw update_captured (
        λ m.
            let p = there m in
            (λ z. p.0 (start.copies a owner ∙ z), p.1, λ o ne. sym (start.copies a o) ∙ p.2 o ne),
        λ m.
            back
              (λ z. m.0 (sym (start.copies a owner) ∙ z), m.1, λ o ne. start.copies a o ∙ m.2 o ne),
      )

  -- What it lists is so also where the query for the peer's own records fails.
  unpins_sound :
      (s : G.State) (r : Result (List CidRecord)) (a : String)
      → G.find_cids (owner_is owner ∷ []) (G.begin s) ≡ r
      → (update G (save_body G I owner graph) s).1 ≡ none
      → contains (update G (save_body G I owner graph) s).0 a ≡ true
      → (G.copies s a owner ≢ 0) × Alone G L owner s a
  unpins_sound s (ok rs) a h done m =
      let (body, tables) = update_done G L (save_body G I owner graph) s done in
      let start = L.begin_tables s in
      let p = (body-unpins (G.begin s) rs a h body).0 (rw update_captured at m) in
      (λ z. p.0 (start.copies a owner ∙ z), λ o ne. sym (start.copies a o) ∙ p.2 o ne)
  unpins_sound s (err e) a h done m =
      let (body, tables) = update_done G L (save_body G I owner graph) s done in
      let (quiet, split) = body_split_any (G.begin s) body in
      let nothing : (save_body G I owner graph (G.begin s)).0 ≡ [] =
        rw (split, h) (drop_old-nil (saved (G.begin s)).0 (saved (G.begin s)).2) in
      let m' = subst (λ l. contains l a ≡ true) nothing (rw update_captured at m) in cc

  pub update-unpins_sound :
      (s : G.State) (a : String)
      → (update G (save_body G I owner graph) s).1 ≡ none
      → contains (update G (save_body G I owner graph) s).0 a ≡ true
      → (G.copies s a owner ≢ 0) × Alone G L owner s a
  update-unpins_sound s a done m = unpins_sound s _ a refl done m
