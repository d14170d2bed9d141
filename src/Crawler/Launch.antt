-- ===== src/Crawler/Launch.antt =====
-- How NewCrawler of crawler/crawler.go reads the host and the port of the database. A text that the
-- code takes apart is the list of its bytes.
pub mod Address
pub mod Servers
pub mod Build
use obcrawler.Base.{
  ℕ, zero, suc, ◌+◌, ◌-◌, ◌*◌, Bool, true, false, not, ◌&&◌, ◌||◌, List, [], ◌∷◌, ◌==◌, ltb, leb,
  if◌then◌else◌,
}
use obcrawler.Go.{GoError, message, Result, ok, err, ◌>>=◌}

abbrev pub colon : ℕ
colon = 58

-- strings.Contains(…, ":")
unfoldable pub has_colon : List ℕ → Bool
has_colon [] = false
has_colon (c ∷ cs) = c == colon || has_colon cs

abbrev pub on_first : ℕ → List (List ℕ) → List (List ℕ)
on_first c [] = (c ∷ []) ∷ []
on_first c (p ∷ ps) = (c ∷ p) ∷ ps

-- strings.Split(…, ":")
unfoldable pub split : List ℕ → List (List ℕ)
split [] = [] ∷ []
split (c ∷ cs) = let rest = split cs in if c == colon then [] ∷ rest else on_first c rest

-- An int of 64 bits.
pub data ℤ : Type 0 where
  pos : ℕ → ℤ
  negsuc : ℕ → ℤ

-- The errors of Atoi, which the code hands on.
abbrev pub not_a_number : GoError
not_a_number = message "strconv.Atoi"

abbrev pub is_digit : ℕ → Bool
is_digit c = leb 48 c && leb c 57

unfoldable pub read_digits : ℕ → List ℕ → Result ℕ
read_digits acc [] = ok acc
read_digits acc (c ∷ cs) =
    let rest = read_digits (acc * 10 + (c - 48)) cs in if is_digit c then rest else err not_a_number

abbrev pub magnitude : List ℕ → Result ℕ
magnitude [] = err not_a_number
magnitude (c ∷ cs) = read_digits 0 (c ∷ cs)

abbrev pub positive : ℕ → Result ℤ
positive n = if ltb n 9223372036854775808 then ok (pos n) else err not_a_number

abbrev pub negative : ℕ → Result ℤ
negative zero = ok (pos 0)
negative (suc n) = if ltb n 9223372036854775808 then ok (negsuc n) else err not_a_number

-- strconv.Atoi: one sign at most, then decimal digits, and the bounds of an int.
unfoldable pub atoi : List ℕ → Result ℤ
unfolding read_digits
atoi [] = err not_a_number
atoi (c ∷ cs) =
    if c == b'-'
    then magnitude cs >>= negative
    else if c == b'+'
    then magnitude cs >>= positive
    else magnitude (c ∷ cs) >>= positive

-- uint(…), which wraps below zero
abbrev pub to_uint : ℤ → ℕ
to_uint (pos n) = n
to_uint (negsuc n) = 18446744073709551615 - n

-- `s[0]`, and `s[1]` as a port. A text with a colon has two parts at least.
abbrev pub of_parts : List (List ℕ) → Result (List ℕ × ℕ)
of_parts [] = err (message "index out of range")
of_parts (host ∷ []) = err (message "index out of range")
of_parts (host ∷ port ∷ rest) = atoi port >>= λ p. ok (host, to_uint p)

-- The host and the port of a DBHost that is set.
unfoldable pub db_address : List ℕ → Result (List ℕ × ℕ)
unfolding atoi split has_colon
db_address text =
    if not (has_colon text) then err (message "invalid host") else of_parts (split text)
