-- ===== src/Crawler/Launch/Address.antt =====
-- What a DBHost is read as.
use obcrawler.Base.{
  ℕ, zero, suc, ◌+◌, ◌-◌, ◌*◌, ◌<◌, ◌≡◌, refl, ◌∙◌, ap, true, false, List, [], ◌∷◌, ◌++◌, map,
  append-nil, ltb, ◌==◌, length, arith, All,
}
use obcrawler.Go.{ok}
use obcrawler.Crawler.Launch.{
  colon, has_colon, split, pos, positive, is_digit, read_digits, atoi, of_parts, db_address,
}

abbrev pub IsInner : List ℕ → Type 0
IsInner = All (λ c. (c == colon) ≡ false)

-- The end of the text, or a colon and whatever stands behind it.
abbrev pub Ends : List ℕ → Type 0
Ends [] = Unit
Ends (c ∷ cs) = c ≡ colon

-- The decimal number of a list of digits, the first of which weighs most.
abbrev pub power : ℕ → ℕ
power zero = 1
power (suc n) = 10 * power n

abbrev pub value : List ℕ → ℕ
value [] = 0
value (d ∷ ds) = d * power (length ds) + value ds

abbrev pub digit : ℕ → ℕ
digit d = d + 48

abbrev pub AreDigits : List ℕ → Type 0
AreDigits = All (λ d. d < 10)

has_colon-append : (host s : List ℕ) → has_colon (host ++ colon ∷ s) ≡ true
unfolding has_colon
has_colon-append [] s = refl
has_colon-append (c ∷ cs) s = ground (arith, has_colon-append cs s)

split-append : (part s : List ℕ) → IsInner part → split (part ++ colon ∷ s) ≡ part ∷ split s
unfolding split
split-append [] s h = refl
split-append (c ∷ cs) s h = rw h.0 (rw (split-append cs s h.1) refl)

split_inner : (part : List ℕ) → IsInner part → split part ≡ part ∷ []
unfolding split
split_inner [] h = refl
split_inner (c ∷ cs) h = rw h.0 (rw (split_inner cs h.1) refl)

-- The first two parts of a text are those before its first and its second colon.
parts :
    (host port rest : List ℕ)
    → IsInner host
    → IsInner port
    → Ends rest
    → of_parts (split (host ++ colon ∷ (port ++ rest))) ≡ of_parts (host ∷ port ∷ [])
parts host port [] h p e =
    ap of_parts (split-append host (port ++ []) h)
    ∙ ap (λ t. of_parts (host ∷ split t)) (append-nil port)
    ∙ ap (λ ps. of_parts (host ∷ ps)) (split_inner port p)
parts host port (c ∷ cs) h p e =
    ap of_parts (split-append host (port ++ c ∷ cs) h)
    ∙ ap (λ d. of_parts (host ∷ split (port ++ d ∷ cs))) e
    ∙ ap (λ ps. of_parts (host ∷ ps)) (split-append port cs p)

shifted : (acc d p v : ℕ) → (acc * 10 + d) * p + v ≡ acc * (10 * p) + (d * p + v)
shifted acc d p v = grind arith

read_digits-value :
    (acc : ℕ) (ds : List ℕ)
    → AreDigits ds
    → read_digits acc (map digit ds) ≡ ok (acc * power (length ds) + value ds)
unfolding read_digits
read_digits-value acc [] h = ap ok (omega arith)
read_digits-value acc (d ∷ ds) h =
    let small = h.0 in
    let read : is_digit (digit d) ≡ true = ground arith in
    let same_digit : digit d - 48 ≡ d = omega arith in
    rw (read, same_digit)
      (read_digits-value (acc * 10 + d) ds h.1
        ∙ ap ok (shifted acc d (power (length ds)) (value ds)))

digits-IsInner : (ds : List ℕ) → AreDigits ds → IsInner (map digit ds)
digits-IsInner [] h = tt
digits-IsInner (d ∷ ds) h = (let small = h.0 in ground arith, digits-IsInner ds h.1)

atoi-value :
    (d : ℕ) (ds : List ℕ)
    → AreDigits (d ∷ ds)
    → value (d ∷ ds) < 9223372036854775808
    → atoi (map digit (d ∷ ds)) ≡ ok (pos (value (d ∷ ds)))
unfolding atoi
atoi-value d ds h fits =
    let small = h.0 in
    let no_minus : (digit d == b'-') ≡ false = ground arith in
    let no_plus : (digit d == b'+') ≡ false = ground arith in
    rw (no_minus, no_plus, read_digits-value 0 (d ∷ ds) h)
      (let fine : 0 * power (length (d ∷ ds)) + value (d ∷ ds) ≡ value (d ∷ ds) = omega arith in
        let fits' : ltb (value (d ∷ ds)) 9223372036854775808 ≡ true = ground arith in
        ap positive fine ∙ rw fits' refl)

-- A DBHost of a host without a colon, a colon, and the decimal digits of a number below 2 ^ 63 is
-- read as that host and that number, whatever stands behind a further colon. So a port is not
-- checked against 16 bits, and a further part is dropped.
pub db_address-value :
    (host : List ℕ) (d : ℕ) (ds rest : List ℕ)
    → IsInner host
    → AreDigits (d ∷ ds)
    → value (d ∷ ds) < 9223372036854775808
    → Ends rest
    → db_address (host ++ colon ∷ (map digit (d ∷ ds) ++ rest)) ≡ ok (host, value (d ∷ ds))
unfolding db_address
db_address-value host d ds rest inner digits fits ends =
    rw (has_colon-append host (map digit (d ∷ ds) ++ rest)) (
      parts host (map digit (d ∷ ds)) rest inner (digits-IsInner (d ∷ ds) digits) ends
      ∙ rw (atoi-value d ds digits fits) refl)
