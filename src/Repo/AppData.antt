-- ===== src/Repo/AppData.antt =====
-- appDataDir of repo/appdata.go. A string is the list of its bytes. What the function reads of the
-- machine and of the standard library comes in a record: the current user's home directory, the
-- environment, filepath.Join, and the case maps of package unicode on the first byte, as the text
-- that the resulting rune encodes to.
use obcrawler.Base.{
  ℕ, ◌≡◌, ◌≢◌, refl, Bool, true, false, ◌||◌, Option, none, some, List, [], ◌∷◌, ◌++◌, arith, ◌==◌,
  if◌then◌else◌, Bool-cases, inl, inr,
}
use obcrawler.Go.{Result, ok, err}

pub data Os : Type 0 where
  windows darwin plan9 other_os : Os

pub record Machine : Type 0 where
  pub current_home : Result (List ℕ)
  pub env_home : List ℕ
  pub env_local_app_data : List ℕ
  pub env_app_data : List ℕ
  pub join : List (List ℕ) → List ℕ
  pub to_upper : ℕ → List ℕ
  pub to_lower : ℕ → List ℕ

abbrev pub is_empty : List ℕ → Bool
is_empty [] = true
is_empty (x ∷ xs) = false

-- strings.TrimPrefix(appName, ".")
unfoldable pub trim_dot : List ℕ → List ℕ
trim_dot [] = []
trim_dot (c ∷ cs) = if c == b'.' then cs else c ∷ cs

-- The home directory, or $HOME where the first is not known or empty.
unfoldable pub home_dir : Machine → List ℕ
home_dir m = elim m.current_home [
  | err e ↦ m.env_home
  | ok dir ↦ if is_empty dir then m.env_home else dir
]

-- The directory on Windows: %LOCALAPPDATA%, or %APPDATA% for a roaming application or where the
-- first is not set.
unfoldable pub windows_base : Machine → Bool → List ℕ
windows_base m roaming =
    if roaming || is_empty m.env_local_app_data then m.env_app_data else m.env_local_app_data

abbrev pub library_dir : List (List ℕ)
library_dir =
    (b'L' ∷ b'i' ∷ b'b' ∷ b'r' ∷ b'a' ∷ b'r' ∷ b'y' ∷ [])
    ∷ (b'A' ∷ b'p' ∷ b'p' ∷ b'l' ∷ b'i' ∷ b'c' ∷ b'a' ∷ b't' ∷ b'i' ∷ b'o' ∷ b'n' ∷ 32 ∷ b'S' ∷ b'u'
        ∷ b'p' ∷ b'p' ∷ b'o' ∷ b'r' ∷ b't' ∷ [])
    ∷ []

abbrev pub here : List ℕ
here = b'.' ∷ []

-- The switch over the operating system, for a name with its first letter in both cases.
unfoldable pub os_dir : Machine → Os → Bool → List ℕ → List ℕ → List ℕ
unfolding home_dir windows_base
os_dir m windows roaming upper lower =
    let base = windows_base m roaming in if is_empty base then here else m.join (base ∷ upper ∷ [])
os_dir m darwin roaming upper lower =
    let home = home_dir m in
    if is_empty home then here else m.join (home ∷ (library_dir ++ upper ∷ []))
os_dir m plan9 roaming upper lower =
    let home = home_dir m in if is_empty home then here else m.join (home ∷ lower ∷ [])
os_dir m other_os roaming upper lower =
    let home = home_dir m in if is_empty home then here else m.join (home ∷ (b'.' ∷ lower) ∷ [])

-- none is the panic of appName[0] on an empty name.
unfoldable pub cased_dir : Machine → Os → Bool → List ℕ → Option (List ℕ)
unfolding os_dir
cased_dir m os roaming [] = none
cased_dir m os roaming (c ∷ cs) =
    some (os_dir m os roaming (m.to_upper c ++ cs) (m.to_lower c ++ cs))

abbrev pub is_dot : List ℕ → Bool
is_dot (c ∷ []) = c == b'.'
is_dot _ = false

unfoldable pub app_data_dir : Machine → Os → List ℕ → Bool → Option (List ℕ)
unfolding cased_dir trim_dot
app_data_dir m os name roaming =
    if is_empty name || is_dot name then some here else cased_dir m os roaming (trim_dot name)

-- The function never indexes an empty name: it returns for every name, on every system.
pub app_data_dir_total :
    (m : Machine) (os : Os) (name : List ℕ) (roaming : Bool)
    → (dir : List ℕ) × (app_data_dir m os name roaming ≡ some dir)
unfolding app_data_dir
app_data_dir_total m os [] roaming = (here, refl)
app_data_dir_total m os (c ∷ []) roaming = elim (Bool-cases (c == b'.')) [
  | inl e ↦ (here, ground arith)
  | inr e ↦ (os_dir m os roaming (m.to_upper c ++ []) (m.to_lower c ++ []), ground arith)
]
app_data_dir_total m os (c ∷ d ∷ cs) roaming = elim (Bool-cases (c == b'.')) [
  | inl e ↦ (os_dir m os roaming (m.to_upper d ++ cs) (m.to_lower d ++ cs), ground arith)
  | inr e ↦ (os_dir m os roaming (m.to_upper c ++ d ∷ cs) (m.to_lower c ++ d ∷ cs), ground arith)
]

-- A leading dot of the name makes no difference, if more than the dot is there.
pub app_data_dir-dot :
    (m : Machine) (os : Os) (c : ℕ) (cs : List ℕ) (roaming : Bool)
    → c ≢ b'.'
    → app_data_dir m os (b'.' ∷ c ∷ cs) roaming ≡ app_data_dir m os (c ∷ cs) roaming
unfolding app_data_dir
app_data_dir-dot m os c [] roaming ne = ground arith
app_data_dir-dot m os c (d ∷ cs) roaming ne = ground arith
