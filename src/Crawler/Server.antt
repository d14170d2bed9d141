-- ===== src/Crawler/Server.antt =====
-- The gRPC server's front of crawler/rpc.go: the authentication token, the two interceptors, the
-- parsing of listen addresses, and which of them is served. A text that the code takes apart is the
-- list of its bytes.
use obcrawler.Base.{
  ℕ, ◌*◌, ◌≤◌, suc, All-map, String, ◌≡◌, refl, sym, ap, ◌∙◌, Bool, true, false, not, ◌&&◌, ◌||◌,
  Option, none, some, List, [], ◌∷◌, ◌++◌, arith, ◌==◌, same, if◌then◌else◌, All, All-append,
  length, length-append, inl, inr, ◌⊎◌, subst, Bool-cases,
}
use obcrawler.Go.{GoError, message, Result, ok, err}

-- md.Get(AuthenticationTokenKey) of the incoming metadata, if there is any
abbrev pub presents : String → Option (List String) → Bool
presents token none = false
presents token (some []) = false
presents token (some (t ∷ ts)) = same t token

unfoldable pub validate_authentication_token : String → Option (List String) → Option GoError
validate_authentication_token token md =
    if not (same token "") && not (presents token md)
    then some (message "invalid authentication token")
    else none

-- Either interceptor: the handler runs only behind the check.
unfoldable pub intercept :
    {R : Type 0} → String → Option (List String) → (Unit {0} → Result R) → Result R
unfolding validate_authentication_token
intercept token md handler = elim (validate_authentication_token token md) [
  | none ↦ handler tt
  | some e ↦ err e
]

-- The handler's result is returned exactly when no token is set, or the first value that the
-- client sends under the key is the token; else the call fails and the handler does not run.
pub intercept-token :
    {R : Type 0} (token : String) (md : Option (List String)) (handler : Unit {0} → Result R)
    → intercept token md handler ≡ (
        if same token "" || presents token md
        then handler tt
        else err (message "invalid authentication token"))
unfolding intercept
intercept-token token md handler = ground arith

pub record SimpleAddr : Type 0 where
  pub net : String
  pub addr : List ℕ

-- net.SplitHostPort, the host alone; net.ParseIP with To4 behind it, as whether the address is
-- IPv4; and whether the process runs on plan9
pub record NetLib : Type 0 where
  pub split_host : List ℕ → Result (List ℕ)
  pub parse_ip : List ℕ → Option Bool
  pub on_plan9 : Bool

abbrev pub is_any : NetLib → List ℕ → Bool
is_any lib [] = true
is_any lib (c ∷ []) = c == b'*' && lib.on_plan9
is_any lib (c ∷ d ∷ cs) = false

abbrev pub has_percent : List ℕ → Bool
has_percent [] = false
has_percent (c ∷ cs) = c == b'%' || has_percent cs

-- What stands before the last `%`.
unfoldable pub before_percent : List ℕ → List ℕ
before_percent [] = []
before_percent (c ∷ cs) = let rest = before_percent cs in if has_percent cs then c ∷ rest else []

-- `if zoneIndex > 0 { host = host[:zoneIndex] }`: a `%` in front is left alone
unfoldable pub strip_zone : List ℕ → List ℕ
unfolding before_percent
strip_zone [] = []
strip_zone (c ∷ cs) = if has_percent cs then c ∷ before_percent cs else c ∷ cs

abbrev pub by_family : List ℕ → Option Bool → Result (List SimpleAddr)
by_family addr none = err (message "is not a valid IP address")
by_family addr (some true) = ok (record { net = "tcp4"; addr = addr } ∷ [])
by_family addr (some false) = ok (record { net = "tcp6"; addr = addr } ∷ [])

abbrev pub of_host : NetLib → List ℕ → Result (List ℕ) → Result (List SimpleAddr)
of_host lib addr (err e) = err e
of_host lib addr (ok host) =
    if is_any lib host
    then ok (record { net = "tcp4"; addr = addr } ∷ record { net = "tcp6"; addr = addr } ∷ [])
    else by_family addr (lib.parse_ip (strip_zone host))

abbrev pub joined : Result (List SimpleAddr) → Result (List SimpleAddr) → Result (List SimpleAddr)
joined (err e) r = err e
joined (ok xs) (err e) = err e
joined (ok xs) (ok ys) = ok (xs ++ ys)

-- The loop stops at the first address that does not parse.
unfoldable pub parse_listeners : NetLib → List (List ℕ) → Result (List SimpleAddr)
unfolding strip_zone
parse_listeners lib [] = ok []
parse_listeners lib (a ∷ addrs) =
    joined (of_host lib a (lib.split_host a)) (parse_listeners lib addrs)

abbrev pub IsTcp : SimpleAddr → Type 0
IsTcp a = (a.net ≡ "tcp4") ⊎ (a.net ≡ "tcp6")

-- What one address parses to: one or two of them, each with the text that was given.
abbrev OneOrTwo : List ℕ → List SimpleAddr → Type 0
OneOrTwo addr xs = (1 ≤ length xs) × (length xs ≤ 2) × All (λ a. (a.addr ≡ addr) × IsTcp a) xs

by_family-bounds :
    (addr : List ℕ) (r : Option Bool) (xs : List SimpleAddr)
    → by_family addr r ≡ ok xs
    → OneOrTwo addr xs
by_family-bounds addr none xs h = cc
by_family-bounds addr (some true) xs h =
    let e : record { net = "tcp4"; addr = addr } ∷ [] ≡ xs = cc in
    subst (OneOrTwo addr) e (omega arith, omega arith, ((refl, inl refl), tt))
by_family-bounds addr (some false) xs h =
    let e : record { net = "tcp6"; addr = addr } ∷ [] ≡ xs = cc in
    subst (OneOrTwo addr) e (omega arith, omega arith, ((refl, inr refl), tt))

of_host-bounds :
    (lib : NetLib) (addr : List ℕ) (r : Result (List ℕ)) (xs : List SimpleAddr)
    → of_host lib addr r ≡ ok xs
    → OneOrTwo addr xs
of_host-bounds lib addr (err e) xs h = cc
of_host-bounds lib addr (ok host) xs h = elim (Bool-cases (is_any lib host)) [
  | inl any ↦
      let e : record { net = "tcp4"; addr = addr } ∷ record { net = "tcp6"; addr = addr } ∷ []
          ≡ xs =
        ground arith in
      subst (OneOrTwo addr) e (omega arith, omega arith, ((refl, inl refl), ((refl, inr refl), tt)))
  | inr one ↦ by_family-bounds addr (lib.parse_ip (strip_zone host)) xs (ground arith)
]

joined-ok :
    (r q : Result (List SimpleAddr)) (zs : List SimpleAddr)
    → joined r q ≡ ok zs
    → (xs : List SimpleAddr) × (ys : List SimpleAddr) × (r ≡ ok xs) × (q ≡ ok ys) × (xs ++ ys ≡ zs)
joined-ok (err e) q zs h = cc
joined-ok (ok xs) (err e) zs h = cc
joined-ok (ok xs) (ok ys) zs h = (xs, ys, refl, refl, cc)

-- Every address that parses becomes one or two TCP addresses: between one and two times as many
-- come out as go in.
pub parse_listeners-bounds :
    (lib : NetLib) (addrs : List (List ℕ)) (xs : List SimpleAddr)
    → parse_listeners lib addrs ≡ ok xs
    → (length addrs ≤ length xs) × (length xs ≤ 2 * length addrs) × All IsTcp xs
unfolding parse_listeners
parse_listeners-bounds lib [] xs h =
    let e : [] ≡ xs = cc in
    subst (λ ys. (0 ≤ length ys) × (length ys ≤ 2 * 0) × All IsTcp ys) e
      (omega arith, omega arith, tt)
parse_listeners-bounds lib (a ∷ addrs) zs h =
    let (xs, ys, ex, ey, e) = joined-ok _ _ zs h in
    let (one, two, tcp) = of_host-bounds lib a (lib.split_host a) xs ex in
    let (low, high, rest) = parse_listeners-bounds lib addrs ys ey in
    subst
      (λ ws. (suc (length addrs) ≤ length ws) × (length ws ≤ 2 * suc (length addrs)) × All IsTcp ws)
      e
      (
        omega (arith, one, low, length-append xs ys),
        omega (arith, two, high, length-append xs ys),
        All-append IsTcp xs ys (All-map IsTcp xs (λ b p. p.1) tcp) rest,
      )

OneOrTwo-first :
    (addr : List ℕ) (xs : List SimpleAddr)
    → OneOrTwo addr xs
    → (x : SimpleAddr) × (rest : List SimpleAddr) × (xs ≡ x ∷ rest) × (x.addr ≡ addr)
OneOrTwo-first addr [] h = absurd (let low = h.0 in omega arith)
OneOrTwo-first addr (x ∷ xs) h = (x, xs, refl, h.2.0.0)

-- The first of the addresses that come out has the text of the first that goes in.
pub parse_listeners-first :
    (lib : NetLib) (a : List ℕ) (addrs : List (List ℕ)) (zs : List SimpleAddr)
    → parse_listeners lib (a ∷ addrs) ≡ ok zs
    → (x : SimpleAddr) × (rest : List SimpleAddr) × (zs ≡ x ∷ rest) × (x.addr ≡ a)
unfolding parse_listeners
parse_listeners-first lib a addrs zs h =
    let (xs, ys, ex, ey, e) = joined-ok _ _ zs h in
    let (x, rest, is_first, same_text) =
      OneOrTwo-first a xs (of_host-bounds lib a (lib.split_host a) xs ex) in
    (x, rest ++ ys, sym e ∙ ap (λ l. l ++ ys) is_first, same_text)
