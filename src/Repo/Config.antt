-- ===== src/Repo/Config.antt =====
-- LoadConfig of repo/config.go. Reading the file includes making a default one where none is there.
pub mod Files
pub mod Logging
pub mod Usable
use Prim.Native.String.{len, slice, find, ◌++◌ as append}
use text.Mathlib.Text.{starts_with}
use obcrawler.Base.{
  ℕ, ◌≤◌, ◌<◌, String, ◌≡◌, ◌≢◌, Bool, true, false, not, ◌&&◌, Option, none, some, List, [], ◌∷◌,
  map, arith, ◌==◌, ltb, leb, ◌+◌, same, if◌then◌else◌, contains, subst,
}
use obcrawler.Go.{GoError, message, Result, ok, err, ◌>>=◌, bind-ok}

-- The options that LoadConfig itself reads or changes.
pub record Config : Type 0 where
  pub show_version : Bool
  pub num_nodes : ℕ
  pub num_workers : ℕ
  pub pubsub_nodes : ℕ
  pub config_file : String
  pub data_dir : String
  pub log_dir : String
  pub log_level : String
  pub external_ips : List String
  pub rpc_cert : String
  pub rpc_key : String
  pub grpc_listeners : List String
  pub testnet : Bool

-- What a parse of go-flags reports, apart from its changes of the config: `help` is ErrHelp.
pub data Parsed : Type 0 where
  parsed_well : Parsed
  help : Parsed
  parse_failed : GoError → Parsed

-- What the parse of the file reports: a path error is noted, any other ends the load.
pub data FileParsed : Type 0 where
  file_read : FileParsed
  path_error : FileParsed
  file_failed : GoError → FileParsed

-- The machine and the libraries: the two parsers of go-flags, the file system, the resolver, the
-- paths of the standard library, and the certificate generator.
pub record Host : Type 0 where
  pub parse_command_line : Config → Parsed × Config
  pub parse_file : String → Config → FileParsed × Config
  pub lower : String → String
  pub lookup_localhost : Result (List String)
  pub join_port : String → String
  pub join : String → String → String
  pub dir : String → String
  pub default_home_dir : String
  pub expand_env : String → String
  pub clean : String → String
  pub file_exists : String → Bool
  pub gen_cert_pair : String → String → List String → Option GoError

abbrev pub log_levels : List String
log_levels = "debug" ∷ "info" ∷ "notice" ∷ "warning" ∷ "error" ∷ "critical" ∷ []

-- The checks on the options, in their order.
unfoldable pub validate : Host → Config → Option GoError
validate h c =
    if c.num_nodes == 0
    then some (message "IPFS nodes must not be zero")
    else if c.num_workers == 0
    then some (message "workers must not be zero")
    else if c.pubsub_nodes == 0
    then some (message "pubsub nodes must not be zero")
    else if ltb c.num_nodes c.pubsub_nodes
    then some (message "pubsub nodes must not exceeds the number of IPFS nodes")
    else if contains log_levels (h.lower c.log_level)
    then none
    else some (message "invalid log level")

abbrev pub is_nil : List String → Bool
is_nil [] = true
is_nil (x ∷ xs) = false

abbrev pub with_listeners : Host → Config → Result (List String) → Result Config
with_listeners h c (err e) = err e
with_listeners h c (ok addrs) = ok (record c { grpc_listeners = map h.join_port addrs })

-- Listen on localhost where nothing else is asked for.
unfoldable pub default_listeners : Host → Config → Result Config
default_listeners h c =
    if is_nil c.grpc_listeners then with_listeners h c h.lookup_localhost else ok c

unfoldable pub default_certs : Host → Config → Config
default_certs h c =
    if same c.rpc_cert "" && same c.rpc_key ""
    then record c { rpc_cert = h.join c.data_dir "rpc.cert"; rpc_key = h.join c.data_dir "rpc.key" }
    else c

abbrev pub failed : Option GoError → Config → Result Config
failed none c = ok c
failed (some e) c = err e

unfoldable pub ensure_certs : Host → Config → Result Config
ensure_certs h c =
    if not (h.file_exists c.rpc_key) && not (h.file_exists c.rpc_cert)
    then failed (h.gen_cert_pair c.rpc_cert c.rpc_key c.external_ips) c
    else ok c

-- strings.Replace(s, old, new, 1): `find` gives a number past the end where there is none.
unfoldable pub replace_first : String → String → String → String
replace_first s old new =
    let i = find s old in
    if leb i (len s) then append (slice s 0 i) (append new (slice s (i + len old) (len s))) else s

-- A leading `~` becomes the directory in which the default data directory lies.
unfoldable pub clean_and_expand_path : Host → String → String
unfolding replace_first
clean_and_expand_path h path =
    let home_dir = h.dir h.default_home_dir in
    let expanded = if starts_with path "~" then replace_first path "~" home_dir else path in
    h.clean (h.expand_env expanded)

unfoldable pub final_dirs : Host → Config → Config
unfolding clean_and_expand_path
final_dirs h c =
    let dir = clean_and_expand_path h c.data_dir in
    record c {
      data_dir = dir;
      log_dir =
          if same c.log_dir "" then clean_and_expand_path h (h.join dir "logs") else c.log_dir;
    }

-- From the parsed options to the result.
unfoldable pub complete : Host → Config → Result Config
unfolding validate default_listeners default_certs ensure_certs final_dirs
complete h c = do
  checked ← failed (validate h c) c
  listening ← default_listeners h checked
  certified ← ensure_certs h (default_certs h listening)
  ok (final_dirs h certified)

abbrev pub after_file : Host → FileParsed × Config → Result Config
after_file h (file_read, c) = complete h c
after_file h (path_error, c) = complete h c
after_file h (file_failed e, c) = err e

-- The file that is read: the one in the data directory that the command line gives. `pre` is the
-- copy of the config from before the command line was read.
unfoldable pub config_path : Host → Config → Config → String
config_path h pre c =
    if same c.data_dir "" then pre.config_file else h.join c.data_dir "obcrawler.conf"

-- none is the exit after the version was printed.
abbrev pub after_command_line : Host → Config → Parsed × Config → Option (Result Config)
after_command_line h pre (help, c) = some (err (message "help"))
after_command_line h pre (parsed_well, c) =
    if pre.show_version then none else some (after_file h (h.parse_file (config_path h pre c) c))
after_command_line h pre (parse_failed e, c) =
    if pre.show_version then none else some (after_file h (h.parse_file (config_path h pre c) c))

-- The whole load, from the defaults.
unfoldable pub load_config : Host → Config → Option (Result Config)
unfolding complete config_path
load_config h defaults = after_command_line h defaults (h.parse_command_line defaults)
