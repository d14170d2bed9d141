-- ===== src/Repo/Config/Files.antt =====
-- The functions of repo/config.go that write files: createDefaultConfigFile, genCertPair and
-- fileExists, and setupLogging's choice of where the log goes. A text is the list of its bytes.
pub mod Copied
pub mod Certs
use obcrawler.Base.{
  ℕ, suc, zero, ◌≡◌, ◌≢◌, refl, ◌∙◌, ap, sym, Bool, true, false, ◌&&◌, ◌||◌, Option, none, some,
  List, [], ◌∷◌, ◌++◌, map, append_assoc, append-nil, ◌==◌, if◌then◌else◌, arith, inl, inr, ◌⊎◌,
  All, Bool-cases,
}
use obcrawler.Go.{GoError, Result, ok, err}

abbrev pub newline : ℕ
newline = 10

abbrev pub has_prefix : List ℕ → List ℕ → Bool
has_prefix [] s = true
has_prefix (c ∷ cs) [] = false
has_prefix (c ∷ cs) (d ∷ ds) = c == d && has_prefix cs ds

-- strings.Contains
unfoldable pub contains_text : List ℕ → List ℕ → Bool
contains_text t [] = has_prefix t []
contains_text t (c ∷ cs) = has_prefix t (c ∷ cs) || contains_text t cs

abbrev pub on_first : ℕ → List (List ℕ) → List (List ℕ)
on_first c [] = (c ∷ []) ∷ []
on_first c (l ∷ ls) = (c ∷ l) ∷ ls

-- What reader.ReadString('\n') returns, call by call: each line with its end, and at last what
-- stands behind the last end of a line, together with io.EOF.
unfoldable pub read_lines : List ℕ → List (List ℕ)
read_lines [] = [] ∷ []
read_lines (c ∷ cs) =
    let rest = read_lines cs in if c == newline then (c ∷ []) ∷ rest else on_first c rest

abbrev pub concat : List (List ℕ) → List ℕ
concat [] = []
concat (l ∷ ls) = l ++ concat ls

-- "bootstrapaddr="
abbrev pub marker : List ℕ
marker =
    b'b' ∷ b'o' ∷ b'o' ∷ b't' ∷ b's' ∷ b't' ∷ b'r' ∷ b'a' ∷ b'p' ∷ b'a' ∷ b'd' ∷ b'd' ∷ b'r' ∷ b'='
    ∷ []

abbrev pub bootstrap_line : List ℕ → List ℕ
bootstrap_line addr = marker ++ addr ++ newline ∷ []

-- The texts that the loop passes to dest.WriteString for a line, an empty one included.
unfoldable pub written : List (List ℕ) → List ℕ → List (List ℕ)
written addrs line = if contains_text marker line then [] ∷ map bootstrap_line addrs else line ∷ []

-- dest.WriteString of the n-th text: what of it reaches the file, and the error.
abbrev pub Writer : Type 0
Writer = ℕ → List ℕ → List ℕ × Option GoError

abbrev after_write : List ℕ × Option GoError → List ℕ × Option GoError → List ℕ × Option GoError
after_write (stored, some e) rest = (stored, some e)
after_write (stored, none) (file, e) = (stored ++ file, e)

-- The content of the file after the writes, the first of which to fail ends them.
unfoldable pub write_all : Writer → ℕ → List (List ℕ) → List ℕ × Option GoError
write_all w n [] = ([], none)
write_all w n (t ∷ ts) = let rest = write_all w (suc n) ts in after_write (w n t) rest

abbrev pub all_written : List (List ℕ) → List (List ℕ) → List (List ℕ)
all_written addrs [] = []
all_written addrs (l ∷ ls) = written addrs l ++ all_written addrs ls

-- What the function asks of the system: os.MkdirAll, Asset, os.OpenFile, and the writes.
pub record Disk : Type 0 where
  pub mkdir_all : Option GoError
  pub asset : Result (List ℕ)
  pub open_file : Option GoError
  pub write : Writer

-- The addresses of the mainnet or the testnet. The result is the content of the file, none where
-- it is not opened, and the error.
unfoldable pub create_default_config_file :
    Disk → List (List ℕ) → List (List ℕ) → Bool → Option (List ℕ) × Option GoError
create_default_config_file d mainnet testnets testnet = elim d.mkdir_all [
  | some e ↦ (none, some e)
  | none ↦ elim d.asset [
    | err e ↦ (none, some e)
    | ok sample ↦ elim d.open_file [
      | some e ↦ (none, some e)
      | none ↦
          let addrs = if testnet then testnets else mainnet in
          let (file, e) = write_all d.write 0 (all_written addrs (read_lines sample)) in
          (some file, e)
    ]
  ]
]

-- What os.Stat says of a name.
pub data Stat : Type 0 where
  found not_there : Stat
  stat_failed : GoError → Stat

abbrev pub file_exists : Stat → Bool
file_exists not_there = false
file_exists found = true
file_exists (stat_failed e) = true

-- The two files of genCertPair, each with its content if it is there.
pub record Pair : Type 0 where
  pub cert : Option (List ℕ)
  pub key : Option (List ℕ)

-- ioutil.WriteFile on either path: what the file holds then, and the error; and os.Remove of the
-- certificate, which may fail.
pub record CertDisk : Type 0 where
  pub new_pair : Result (List ℕ × List ℕ)
  pub write_cert : List ℕ → Option (List ℕ) × Option GoError
  pub write_key : List ℕ → Option (List ℕ) × Option GoError
  pub remove_fails : Bool

abbrev removed : Bool → Option (List ℕ) → Option (List ℕ)
removed true cert = cert
removed false cert = none

unfoldable pub gen_cert_pair : CertDisk → Pair → Pair × Option GoError
gen_cert_pair d files = elim d.new_pair [
  | err e ↦ (files, some e)
  | ok (cert, key) ↦
      let (cert_file, cert_error) = d.write_cert cert in
      let (key_file, key_error) = d.write_key key in
      elim cert_error [
        | some e ↦ (record files { cert = cert_file }, some e)
        | none ↦ elim key_error [
          | some e ↦ (record { cert = removed d.remove_fails cert_file; key = key_file }, some e)
          | none ↦ (record { cert = cert_file; key = key_file }, none)
        ]
      ]
]
