-- ===== src/Repo/Version.antt =====
-- The version string of repo/version.go. A string is the list of its runes.
use obcrawler.Base.{
  ℕ, ◌≡◌, refl, Bool, true, false, ◌&&◌, ◌||◌, List, [], ◌∷◌, ◌++◌, ◌==◌, leb, All, if◌then◌else◌,
  Bool-cases, inl, inr, All-append, ap, ◌↔◌, subst, All-map,
}

-- strings.ContainsRune(semanticAlphabet, r): digits, letters and the hyphen
unfoldable pub in_alphabet : ℕ → Bool
in_alphabet r =
    (leb b'0' r && leb r b'9')
    || ((leb b'A' r && leb r b'Z') || ((leb b'a' r && leb r b'z') || r == b'-'))

unfoldable pub normalize_ver_string : List ℕ → List ℕ
unfolding in_alphabet
normalize_ver_string [] = []
normalize_ver_string (r ∷ rs) =
    let rest = normalize_ver_string rs in if in_alphabet r then r ∷ rest else rest

-- Go's `==` on strings
abbrev pub runes_equal : List ℕ → List ℕ → Bool
runes_equal [] [] = true
runes_equal (x ∷ xs) (y ∷ ys) = x == y && runes_equal xs ys
runes_equal _ _ = false

-- `if s != "" { n := normalizeVerString(s); if n == s { version = version + sep + n } }`
unfoldable pub append_part : List ℕ → ℕ → List ℕ → List ℕ
unfolding normalize_ver_string
append_part version sep [] = version
append_part version sep (r ∷ rs) =
    let part = normalize_ver_string (r ∷ rs) in
    if runes_equal part (r ∷ rs) then version ++ sep ∷ part else version

-- The version from the three numbers as they print, joined by dots, with the pre-release and the
-- build metadata as the constants and the linker set them.
unfoldable pub version_string : List ℕ → List ℕ → List ℕ → List ℕ → List ℕ → List ℕ
unfolding append_part
version_string major minor patch pre_release app_build =
    append_part (append_part (major ++ b'.' ∷ (minor ++ b'.' ∷ patch)) b'-' pre_release) b'+'
      app_build

abbrev pub AllValid : List ℕ → Type 0
AllValid = All (λ r. in_alphabet r ≡ true)

normalize-AllValid : (s : List ℕ) → AllValid (normalize_ver_string s)
unfolding normalize_ver_string
normalize-AllValid [] = tt
normalize-AllValid (r ∷ rs) = elim (Bool-cases (in_alphabet r)) [
  | inl v ↦ rw (v, normalize_ver_string) (v, normalize-AllValid rs)
  | inr v ↦ rw (v, normalize_ver_string) (normalize-AllValid rs)
]

normalize_of_AllValid : (s : List ℕ) → AllValid s → normalize_ver_string s ≡ s
unfolding normalize_ver_string
normalize_of_AllValid [] h = refl
normalize_of_AllValid (r ∷ rs) h =
    rw (h.0, normalize_ver_string) (ap (◌∷◌ r) (normalize_of_AllValid rs h.1))

-- The normal form has valid characters only, and a string is its own normal form exactly when it
-- has no others; so normalising twice is normalising once.
pub normalize_ver_string-fixed :
    (s : List ℕ)
    → AllValid (normalize_ver_string s)
      × ((normalize_ver_string s ≡ s) ↔ AllValid s)
      × (normalize_ver_string (normalize_ver_string s) ≡ normalize_ver_string s)
normalize_ver_string-fixed s = (
  normalize-AllValid s,
  (λ e. subst AllValid e (normalize-AllValid s), normalize_of_AllValid s),
  normalize_of_AllValid _ (normalize-AllValid s),
)

-- A part is appended, behind its separator, exactly as given, or the version stays as it was;
-- what is appended has valid characters only.
pub append_part-AllValid :
    (P : ℕ → Type 0) (version : List ℕ) (sep : ℕ) (part : List ℕ)
    → All P version
    → P sep
    → ((r : ℕ) → in_alphabet r ≡ true → P r)
    → All P (append_part version sep part)
unfolding append_part
append_part-AllValid P version sep [] hv hs hr = hv
append_part-AllValid P version sep (r ∷ rs) hv hs hr =
    elim (Bool-cases (runes_equal (normalize_ver_string (r ∷ rs)) (r ∷ rs))) [
      | inl keep ↦
          rw keep (All-append P version _ hv (hs, All-map P _ hr (normalize-AllValid (r ∷ rs))))
      | inr drop ↦ rw drop hv
    ]
