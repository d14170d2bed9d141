-- ===== src/Repo/Bindata.antt =====
-- repo/bindata.go: the sample configuration that is built into the program. A name is the list of
-- its bytes; the texts of errors leave the names out.
pub mod Restored
use obcrawler.Base.{
  ℕ, zero, suc, Bool, true, false, Option, none, some, List, [], ◌∷◌, ◌==◌, if◌then◌else◌, map,
  ◌++◌,
}
use obcrawler.Go.{GoError, message, Result, ok, err, ◌>>=◌}
use obcrawler.Repo.Version.{runes_equal}

-- gzip.NewReader, what io.Copy from it gives, and Close.
pub record Gzip : Type 0 where
  pub new_reader : List ℕ → Option GoError
  pub copy : List ℕ → List ℕ × Option GoError
  pub close : List ℕ → Option GoError

abbrev pub after_close : List ℕ × Option GoError → Option GoError → Result (List ℕ)
after_close (buf, some e) closed = err e
after_close (buf, none) none = ok buf
after_close (buf, none) (some e) = ok []

-- Where Close alone fails, the error that is returned is that of the copy, which is nil.
unfoldable pub bindata_read : Gzip → List ℕ → Result (List ℕ)
bindata_read lib packed = elim (lib.new_reader packed) [
  | some e ↦ err e
  | none ↦ after_close (lib.copy packed) (lib.close packed)
]

pub record FileInfo : Type 0 where
  pub name : List ℕ
  pub size : ℕ
  pub mode : ℕ
  pub mod_time : ℕ

pub record Asset : Type 0 where
  pub bytes : List ℕ
  pub info : FileInfo

abbrev pub sample_name : List ℕ
sample_name =
    b's' ∷ b'a' ∷ b'm' ∷ b'p' ∷ b'l' ∷ b'e' ∷ b'-' ∷ b'o' ∷ b'b' ∷ b'c' ∷ b'r' ∷ b'a' ∷ b'w' ∷ b'l'
    ∷ b'e' ∷ b'r' ∷ b'.' ∷ b'c' ∷ b'o' ∷ b'n' ∷ b'f' ∷ []

abbrev pub slash : ℕ
slash = 47

-- strings.Replace(name, "\\", "/", -1)
unfoldable pub canonical : List ℕ → List ℕ
canonical = map λ c. if c == 92 then slash else c

abbrev pub on_first : ℕ → List (List ℕ) → List (List ℕ)
on_first c [] = (c ∷ []) ∷ []
on_first c (p ∷ ps) = (c ∷ p) ∷ ps

-- strings.Split(name, "/")
unfoldable pub split_path : List ℕ → List (List ℕ)
split_path [] = [] ∷ []
split_path (c ∷ cs) = let rest = split_path cs in if c == slash then [] ∷ rest else on_first c rest

mutual
  pub data Bintree : Type 0 where
    node : Option (Result Asset) → Children → Bintree

  pub data Children : Type 0 where
    no_child : Children
    child : List ℕ → Bintree → Children → Children

abbrev pub child_of : Children → List ℕ → Option Bintree
child_of no_child name = none
child_of (child k t rest) name = if runes_equal k name then some t else child_of rest name

abbrev pub child_names : Children → List (List ℕ)
child_names no_child = []
child_names (child k t rest) = k ∷ child_names rest

abbrev pub children_of : Bintree → Children
children_of (node f children) = children

-- The loop over the parts of the path.
unfoldable pub walk : List (List ℕ) → Option Bintree → Option Bintree
walk parts none = none
walk [] (some t) = some t
walk (p ∷ ps) (some t) = walk ps (child_of (children_of t) p)

-- The calls of the file system, and filepath.Dir and filepath.Join.
pub record FileSystem : Type 0 where
  pub mkdir_all : List ℕ → Option GoError
  pub write_file : List ℕ → List ℕ → ℕ → Option GoError
  pub chtimes : List ℕ → ℕ → Option GoError
  pub dir_of : List ℕ → List ℕ
  pub join : List (List ℕ) → List ℕ

-- A call that has been made.
pub data Call : Type 0 where
  made_dir : List ℕ → Call
  wrote : List ℕ → List ℕ → ℕ → Call
  set_time : List ℕ → ℕ → Call

-- `packed` is the literal of the file.
module _ (lib : Gzip) (packed : List ℕ) where
  unfoldable pub sample_conf : Result Asset
  unfolding bindata_read
  sample_conf = bindata_read lib packed >>= λ bytes. ok (record {
    bytes = bytes;
    info = record { name = sample_name; size = 3060; mode = 420; mod_time = 1605028319 };
  })

  -- _bindata: each name with what its function returns
  abbrev pub bindata : List (List ℕ × Result Asset)
  bindata = (sample_name, sample_conf) ∷ []

  abbrev pub find_asset : List ℕ → List (List ℕ × Result Asset) → Option (Result Asset)
  find_asset name [] = none
  find_asset name ((k, a) ∷ rest) = if runes_equal k name then some a else find_asset name rest

  abbrev pub read_asset : Option (Result Asset) → Result Asset
  read_asset none = err (message "not found")
  read_asset (some (err e)) = err (message "can't read")
  read_asset (some (ok a)) = ok a

  unfoldable pub asset : List ℕ → Result (List ℕ)
  unfolding canonical sample_conf
  asset name = read_asset (find_asset (canonical name) bindata) >>= λ a. ok a.bytes

  -- none is the panic.
  unfoldable pub must_asset : List ℕ → Option (List ℕ)
  unfolding asset
  must_asset name = elim (asset name) [ ok bytes ↦ some bytes | err e ↦ none ]

  unfoldable pub asset_info : List ℕ → Result FileInfo
  unfolding canonical sample_conf
  asset_info name = read_asset (find_asset (canonical name) bindata) >>= λ a. ok a.info

  unfoldable pub asset_names : List (List ℕ)
  unfolding sample_conf
  asset_names = map (λ e. e.0) bindata

  unfoldable pub bintree : Bintree
  unfolding sample_conf
  bintree = node none (child sample_name (node (some sample_conf) no_child) no_child)

  abbrev pub found_node : List ℕ → Option Bintree
  found_node [] = some bintree
  found_node (c ∷ cs) = walk (split_path (canonical (c ∷ cs))) (some bintree)

  abbrev pub listed : Option Bintree → Result (List (List ℕ))
  listed none = err (message "not found")
  listed (some (node (some f) children)) = err (message "not found")
  listed (some (node none children)) = ok (child_names children)

  unfoldable pub asset_dir : List ℕ → Result (List (List ℕ))
  unfolding bintree walk split_path canonical
  asset_dir name = listed (found_node name)

  module _ (fs : FileSystem) where
    unfoldable pub file_path : List ℕ → List ℕ → List ℕ
    unfolding split_path canonical
    file_path dir name = fs.join (dir ∷ split_path (canonical name))

    -- Each call behind those that have not failed, and the error of the last one.
    abbrev pub then_call :
        Call → Option GoError → List Call × Option GoError → List Call × Option GoError
    then_call c (some e) rest = (c ∷ [], some e)
    then_call c none (calls, e) = (c ∷ calls, e)

    abbrev pub restore_read :
        List ℕ → List ℕ → Result (List ℕ) → Result FileInfo → List Call × Option GoError
    restore_read dir name (err e) info = ([], some e)
    restore_read dir name (ok bytes) (err e) = ([], some e)
    restore_read dir name (ok bytes) (ok info) =
        let parent = file_path dir (fs.dir_of name) in
        let path = file_path dir name in
        then_call (made_dir parent) (fs.mkdir_all parent) (
          then_call (wrote path bytes info.mode) (fs.write_file path bytes info.mode)
            (then_call (set_time path info.mod_time) (fs.chtimes path info.mod_time) ([], none)))

    unfoldable pub restore_asset : List ℕ → List ℕ → List Call × Option GoError
    unfolding file_path asset asset_info
    restore_asset dir name = restore_read dir name (asset name) (asset_info name)

    abbrev pub and_then :
        Option (List Call × Option GoError)
        → Option (List Call × Option GoError)
        → Option (List Call × Option GoError)
    and_then none rest = none
    and_then (some (calls, some e)) rest = some (calls, some e)
    and_then (some (calls, none)) none = none
    and_then (some (calls, none)) (some (more, e)) = some (calls ++ more, e)

    -- The loop over the children of a directory.
    unfoldable pub restore_children :
        (List ℕ → Option (List Call × Option GoError))
        → List ℕ
        → List (List ℕ)
        → Option (List Call × Option GoError)
    restore_children restored name [] = some ([], none)
    restore_children restored name (c ∷ cs) =
        and_then (restored (fs.join (name ∷ c ∷ []))) (restore_children restored name cs)

    -- none is out of fuel; a unit is used up for each level of directories.
    unfoldable pub restore_assets : ℕ → List ℕ → List ℕ → Option (List Call × Option GoError)
    unfolding asset_dir restore_asset restore_children
    restore_assets zero dir name = none
    restore_assets (suc fuel) dir name = elim (asset_dir name) [
      | err e ↦ some (restore_asset dir name)
      | ok children ↦ restore_children (λ path. restore_assets fuel dir path) name children
    ]
