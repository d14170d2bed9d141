-- ===== src/Repo/Ulimit.antt =====
-- CheckAndSetUlimit of repo/ulimit_unix.go. The system calls are arguments; `darwin` says that
-- runtime.GOOS is "darwin".
use obcrawler.Base.{
  ℕ, ◌≤◌, ◌≡◌, ◌≢◌, Bool, false, ◌&&◌, Option, none, some, arith, ltb, if◌then◌else◌, ◌↔◌,
}
use obcrawler.Go.{GoError, Result, ok, err}

pub record Rlimit : Type 0 where
  pub cur : ℕ
  pub max : ℕ

abbrev pub file_descriptor_limit : ℕ
file_descriptor_limit = 32000

-- `if rLimit.Cur < fileDescriptorLimit { … }`
unfoldable pub raise_limit : Rlimit → Rlimit
raise_limit r =
    if ltb r.cur file_descriptor_limit
    then record {
      cur = file_descriptor_limit;
      max = if ltb r.max file_descriptor_limit then file_descriptor_limit else r.max;
    }
    else r

-- The cap on darwin.
unfoldable pub cap_darwin : Bool → Rlimit → Rlimit
cap_darwin darwin r = if darwin && ltb 10240 r.cur then record { cur = 10240; max = 10240 } else r

-- The error that the function returns, and the limit that is in force where it was set. `set` is
-- Setrlimit, and fails or sets its argument.
unfoldable pub check_and_set_ulimit :
    Bool → Result Rlimit → (Rlimit → Option GoError) → Option GoError × Option Rlimit
unfolding raise_limit cap_darwin
check_and_set_ulimit darwin (err e) set = (some e, none)
check_and_set_ulimit darwin (ok r) set =
    let wanted = cap_darwin darwin (raise_limit r) in
    let fallback : Rlimit = record { cur = r.max; max = r.max } in
    elim (set wanted) [
      | none ↦ (none, some wanted)
      | some e ↦ elim (set fallback) [ none ↦ (none, some fallback) | some e' ↦ (some e', none) ]
    ]

-- Off darwin, when the first call of Setrlimit succeeds, the soft limit in force is at least the
-- wanted one and at least the old one, the hard limit is not lowered, and a soft limit that was
-- within the hard one stays so.
pub raised_limit :
    (r : Rlimit) (set : Rlimit → Option GoError) (now : Rlimit)
    → r.cur ≤ r.max
    → set (raise_limit r) ≡ none
    → check_and_set_ulimit false (ok r) set ≡ (none, some now)
    → (file_descriptor_limit ≤ now.cur)
      × (r.cur ≤ now.cur)
      × (r.max ≤ now.max)
      × (now.cur ≤ now.max)
unfolding check_and_set_ulimit
raised_limit r set now within works h = ground arith

-- Where the limits can be read, the function fails exactly when both attempts to set them fail.
pub ulimit_fails :
    (darwin : Bool) (r : Rlimit) (set : Rlimit → Option GoError)
    → ((check_and_set_ulimit darwin (ok r) set).0 ≢ none) ↔ (
        (set (cap_darwin darwin (raise_limit r)) ≢ none)
        × (set (record { cur = r.max; max = r.max }) ≢ none))
unfolding check_and_set_ulimit
ulimit_fails darwin r set = (λ h. ground arith, λ h. ground arith)
