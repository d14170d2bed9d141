-- ===== src/Repo/Config/Files/Copied.antt =====
-- The default config file against the sample that it is copied from.
use obcrawler.Base.{
  ℕ, ◌≡◌, refl, ◌∙◌, ap, false, Bool, List, [], ◌∷◌, ◌++◌, map, append_assoc, ◌==◌, if◌then◌else◌,
  All,
}
use obcrawler.Repo.Config.Files.{contains_text, read_lines, concat, marker, Disk, newline}

-- A text without an end of a line.
abbrev pub IsInner : List ℕ → Type 0
IsInner = All (λ c. (c == newline) ≡ false)

abbrev pub ended : List ℕ → List ℕ
ended body = body ++ newline ∷ []

-- The lines, each with its end.
abbrev pub text : List (List ℕ) → List ℕ
text bodies = concat (map ended bodies)

read_lines-line :
    (body s : List ℕ) → IsInner body → read_lines (body ++ newline ∷ s) ≡ ended body ∷ read_lines s
unfolding read_lines
read_lines-line [] s h = refl
read_lines-line (c ∷ cs) s h = rw (h.0) (rw (read_lines-line cs s h.1) refl)

regroup : (b t s : List ℕ) → (ended b ++ t) ++ s ≡ b ++ newline ∷ (t ++ s)
regroup b t s = ap (λ u. u ++ s) (append_assoc b (newline ∷ []) t) ∙ append_assoc b (newline ∷ t) s

pub read_lines-text :
    (bodies : List (List ℕ)) (s : List ℕ)
    → All IsInner bodies
    → read_lines (text bodies ++ s) ≡ map ended bodies ++ read_lines s
read_lines-text [] s h = refl
read_lines-text (b ∷ bs) s h =
    ap read_lines (regroup b (text bs) s)
    ∙ read_lines-line b (text bs ++ s) h.0
    ∙ ap (λ ls. ended b ∷ ls) (read_lines-text bs s h.1)

abbrev IsPlain : List ℕ → Type 0
IsPlain line = contains_text marker line ≡ false

module _ (d : Disk) (mainnet testnets : List (List ℕ)) (testnet : Bool) where
  abbrev addrs : List (List ℕ)
  addrs = if testnet then testnets else mainnet
