-- ===== src/Repo/Bindata/Restored.antt =====
-- What RestoreAssets of repo/bindata.go restores: the one asset, from the root or by its name.
use obcrawler.Base.{
  ℕ, zero, suc, ◌≤◌, ◌≡◌, refl, ◌∙◌, ap, Bool, true, false, Option, none, some, List, [], ◌∷◌, ◌==◌,
  if◌then◌else◌, arith, inl, inr, Bool-cases, append-nil,
}
use obcrawler.Go.{GoError, message, err}
use obcrawler.Repo.Version.{runes_equal}
use obcrawler.Repo.Bindata.{
  Gzip, sample_name, canonical, split_path, slash, node, no_child, walk, FileSystem, Call,
  sample_conf, bintree, listed, asset_dir, restore_asset, restore_assets, restore_children,
  and_then,
}

abbrev pub is_nil : List ℕ → Bool
is_nil [] = true
is_nil (c ∷ cs) = false

abbrev rest_of : List ℕ → List ℕ
rest_of [] = []
rest_of (c ∷ cs) = cs

module _ (lib : Gzip) (packed : List ℕ) where
  walk-none : (ps : List (List ℕ)) → walk ps none ≡ none
  unfolding walk
  walk-none [] = refl
  walk-none (p ∷ ps) = refl

  -- Below a leaf there is nothing but the leaf.
  leaf-listed :
      (ps : List (List ℕ))
      → (e : GoError) × (listed lib packed
            (walk ps (some (node (some (sample_conf lib packed)) no_child)))
          ≡ err e)
  unfolding walk
  leaf-listed [] = (_, refl)
  leaf-listed (p ∷ ps) = (message "not found", ap (listed lib packed) (walk-none ps))

  -- Below the root by a path of one part or more there is no directory.
  walk-listed :
      (p : List ℕ) (ps : List (List ℕ))
      → (e : GoError) × (listed lib packed (walk (p ∷ ps) (some (bintree lib packed))) ≡ err e)
  unfolding walk bintree
  walk-listed p ps = elim (Bool-cases (runes_equal sample_name p)) [
    | inl same ↦ rw same (leaf-listed ps)
    | inr other ↦ rw other (message "not found", ap (listed lib packed) (walk-none ps))
  ]

  split_path-parts : (cs : List ℕ) → (p : List ℕ) × (ps : List (List ℕ)) × (split_path cs ≡ p ∷ ps)
  unfolding split_path
  split_path-parts [] = ([], [], refl)
  split_path-parts (c ∷ cs) =
      let (p, ps, e) = split_path-parts cs in
      elim (Bool-cases (c == slash)) [
        | inl cut ↦ ([], split_path cs, rw cut refl)
        | inr kept ↦ (c ∷ p, ps, rw (kept, e) refl)
      ]

  -- A name of one byte or more is no directory.
  asset_dir-err : (c : ℕ) (cs : List ℕ) → (e : GoError) × (asset_dir lib packed (c ∷ cs) ≡ err e)
  unfolding asset_dir
  asset_dir-err c cs =
      let (p, ps, parts) = split_path-parts (canonical (c ∷ cs)) in
      let (e, missing) = walk-listed p ps in
      (e, ap (λ qs. listed lib packed (walk qs (some (bintree lib packed)))) parts ∙ missing)

  module _ (fs : FileSystem) (dir : List ℕ) where
    restore_assets-file :
        (fuel c : ℕ) (cs : List ℕ)
        → restore_assets lib packed fs (suc fuel) dir (c ∷ cs)
          ≡ some (restore_asset lib packed fs dir (c ∷ cs))
    unfolding restore_assets
    restore_assets-file fuel c cs =
        let (e, missing) = asset_dir-err c cs in rw (missing, restore_assets) refl

    and_then-last :
        (r : List Call × Option GoError)
        → and_then lib packed fs (some r) (some ([], none)) ≡ some r
    and_then-last (calls, none) = ap (λ cs. some (cs, none)) (append-nil calls)
    and_then-last (calls, some e) = refl

  -- RestoreAssets ends: two levels of directories are enough for any name. From the root it
  -- restores the sample configuration, and by any other name what RestoreAsset restores by it. That
  -- assumes that filepath.Join of nothing and a name is the name.
  pub restore_assets-ends :
      (fs : FileSystem) (fuel : ℕ) (dir name : List ℕ)
      → 2 ≤ fuel
      → fs.join ([] ∷ sample_name ∷ []) ≡ sample_name
      → restore_assets lib packed fs fuel dir name
        ≡ some (restore_asset lib packed fs dir (if is_nil name then sample_name else name))
  unfolding restore_assets asset_dir bintree restore_children
  restore_assets-ends fs zero dir name h joins = absurd (omega arith)
  restore_assets-ends fs (suc zero) dir name h joins = absurd (omega arith)
  restore_assets-ends fs (suc (suc fuel)) dir (c ∷ cs) h joins =
      restore_assets-file fs dir (suc fuel) c cs
  restore_assets-ends fs (suc (suc fuel)) dir [] h joins =
      ap
        (λ path.
          and_then lib packed fs (restore_assets lib packed fs (suc fuel) dir path)
            (some ([], none)))
        joins
      ∙ ap (λ r. and_then lib packed fs r (some ([], none)))
          (restore_assets-file fs dir fuel (b's') (rest_of sample_name))
      ∙ and_then-last fs dir (restore_asset lib packed fs dir sample_name)
