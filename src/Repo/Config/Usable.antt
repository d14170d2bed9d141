-- ===== src/Repo/Config/Usable.antt =====
-- What a config that LoadConfig of repo/config.go returns is good for.
use obcrawler.Base.{◌≤◌, ◌<◌, ◌≡◌, ◌≢◌, true, false, none, some, arith, contains, subst}
use obcrawler.Go.{ok, bind-ok}
use obcrawler.Repo.Config.{
  Config, Parsed, parsed_well, help, parse_failed, FileParsed, file_read, path_error, file_failed,
  Host, log_levels, validate, failed, default_listeners, default_certs, ensure_certs, final_dirs,
  complete, after_file, config_path, after_command_line, load_config,
}

-- The bounds that the rest of the crawler relies on.
pub record IsUsable (h : Host) (c : Config) : Type 0 where
  pub some_nodes : 0 < c.num_nodes
  pub some_workers : 0 < c.num_workers
  pub some_pubsub : 0 < c.pubsub_nodes
  pub pubsub_fits : c.pubsub_nodes ≤ c.num_nodes
  pub known_level : contains log_levels (h.lower c.log_level) ≡ true

-- The fields that the checks read.
record Keeps (c d : Config) : Type 0 where
  nodes : c.num_nodes ≡ d.num_nodes
  workers : c.num_workers ≡ d.num_workers
  pubsub : c.pubsub_nodes ≡ d.pubsub_nodes
  level : c.log_level ≡ d.log_level

checked-IsUsable : (h : Host) (c d : Config) → failed (validate h c) c ≡ ok d → IsUsable h d
unfolding validate
checked-IsUsable h c d e =
    let unchanged : (validate h c ≡ none) × (c ≡ d) = (ground arith, ground arith) in
    subst (IsUsable h) unchanged.1 (ground (arith, unchanged.0))

listeners-Keeps : (h : Host) (c d : Config) → default_listeners h c ≡ ok d → Keeps c d
unfolding default_listeners
listeners-Keeps h c d e = ground arith

certs-Keeps : (h : Host) (c d : Config) → ensure_certs h (default_certs h c) ≡ ok d → Keeps c d
unfolding ensure_certs default_certs
certs-Keeps h c d e = ground arith

dirs-Keeps : (h : Host) (c : Config) → Keeps c (final_dirs h c)
unfolding final_dirs
dirs-Keeps h c = ground arith

IsUsable-Keeps : (h : Host) (c d : Config) → Keeps c d → IsUsable h c → IsUsable h d
IsUsable-Keeps h c d k u = record {
  some_nodes = rw (← k.nodes) u.some_nodes;
  some_workers = rw (← k.workers) u.some_workers;
  some_pubsub = rw (← k.pubsub) u.some_pubsub;
  pubsub_fits = rw (← k.pubsub, ← k.nodes) u.pubsub_fits;
  known_level = rw (← k.level) u.known_level;
}

complete-IsUsable : (h : Host) (c d : Config) → complete h c ≡ ok d → IsUsable h d
unfolding complete
complete-IsUsable h c d e =
    let (c₁, e₁, r₁) = bind-ok (failed (validate h c) c) _ d e in
    let (c₂, e₂, r₂) = bind-ok (default_listeners h c₁) _ d r₁ in
    let (c₃, e₃, r₃) = bind-ok (ensure_certs h (default_certs h c₂)) _ d r₂ in
    let last : final_dirs h c₃ ≡ d = cc in
    subst (IsUsable h) last (
      IsUsable-Keeps h c₃ _ (dirs-Keeps h c₃) (
        IsUsable-Keeps h c₂ c₃ (certs-Keeps h c₂ c₃ e₃)
          (IsUsable-Keeps h c₁ c₂ (listeners-Keeps h c₁ c₂ e₂) (checked-IsUsable h c c₁ e₁))))

after_file-IsUsable :
    (h : Host) (r : FileParsed × Config) (c : Config) → after_file h r ≡ ok c → IsUsable h c
after_file-IsUsable h (file_read, c) d e = complete-IsUsable h c d e
after_file-IsUsable h (path_error, c) d e = complete-IsUsable h c d e
after_file-IsUsable h (file_failed x, c) d e = cc

command_line-IsUsable :
    (h : Host) (pre : Config) (r : Parsed × Config) (c : Config)
    → after_command_line h pre r ≡ some (ok c)
    → IsUsable h c
command_line-IsUsable h pre (help, c) d e = cc
command_line-IsUsable h pre (parsed_well, c) d e =
    after_file-IsUsable h (h.parse_file (config_path h pre c) c) d (ground arith)
command_line-IsUsable h pre (parse_failed x, c) d e =
    after_file-IsUsable h (h.parse_file (config_path h pre c) c) d (ground arith)

command_line-version :
    (h : Host) (pre : Config) (r : Parsed × Config)
    → pre.show_version ≡ false
    → after_command_line h pre r ≢ none
command_line-version h pre (help, c) off = λ p. cc
command_line-version h pre (parsed_well, c) off = ground arith
command_line-version h pre (parse_failed x, c) off = ground arith

-- A config that loads has at least one node, one worker and one pubsub node, no more pubsub nodes
-- than nodes, and a known log level.
pub load_config-IsUsable :
    (h : Host) (defaults c : Config) → load_config h defaults ≡ some (ok c) → IsUsable h c
unfolding load_config
load_config-IsUsable h defaults c e =
    command_line-IsUsable h defaults (h.parse_command_line defaults) c e

-- The version flag on the command line has no effect: unless the defaults already ask for it, the
-- load never takes that exit.
pub load_config-version :
    (h : Host) (defaults : Config) → defaults.show_version ≡ false → load_config h defaults ≢ none
unfolding load_config
load_config-version h defaults off =
    command_line-version h defaults (h.parse_command_line defaults) off
