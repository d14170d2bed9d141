-- ===== src/Repo/Config/Logging.antt =====
-- setupLogging of repo/config.go, and what LoadConfig passes to it.
use obcrawler.Base.{String, ◌≡◌, ◌∙◌, ap, sym, List, [], ◌∷◌, same, contains, if◌then◌else◌, arith}
use obcrawler.Go.{ok, bind-ok}
use obcrawler.Repo.Config.{
  Config, Host, log_levels, validate, failed, default_listeners, default_certs, ensure_certs,
  final_dirs, complete, clean_and_expand_path,
}

-- Where the log goes: the terminal, or a file that is rotated.
pub data Backend : Type 0 where
  stdout : Backend
  log_file : String → Backend

-- The backends, and the name of the level. A name that the map lacks gives its zero, CRITICAL.
unfoldable pub setup_logging : Host → String → String → List Backend × String
setup_logging h log_dir log_level = (
  stdout ∷ (if same log_dir "" then [] else log_file (h.join log_dir "crawler.log") ∷ []),
  if contains log_levels (h.lower log_level) then h.lower log_level else "critical",
)

-- LoadConfig sets the log up once the options have passed the checks.
abbrev pub logging_of : Host → Config → List Backend × String
logging_of h c = setup_logging h c.log_dir c.log_level

checked-same : (h : Host) (c d : Config) → failed (validate h c) c ≡ ok d → c ≡ d
unfolding validate
checked-same h c d e = ground arith

listeners-dirs :
    (h : Host) (c d : Config)
    → default_listeners h c ≡ ok d
    → (c.log_dir ≡ d.log_dir) × (c.data_dir ≡ d.data_dir)
unfolding default_listeners
listeners-dirs h c d e = (ground arith, ground arith)

certs-dirs :
    (h : Host) (c d : Config)
    → ensure_certs h (default_certs h c) ≡ ok d
    → (c.log_dir ≡ d.log_dir) × (c.data_dir ≡ d.data_dir)
unfolding ensure_certs default_certs
certs-dirs h c d e = (ground arith, ground arith)

complete-dirs :
    (h : Host) (c d : Config)
    → complete h c ≡ ok d
    → (e : Config) × (final_dirs h e ≡ d) × (c.log_dir ≡ e.log_dir) × (c.data_dir ≡ e.data_dir)
unfolding complete
complete-dirs h c d done =
    let (c₁, e₁, r₁) = bind-ok (failed (validate h c) c) _ d done in
    let (c₂, e₂, r₂) = bind-ok (default_listeners h c₁) _ d r₁ in
    let (c₃, e₃, r₃) = bind-ok (ensure_certs h (default_certs h c₂)) _ d r₂ in
    let first : c ≡ c₁ = checked-same h c c₁ e₁ in
    let (log₂, data₂) = listeners-dirs h c₁ c₂ e₂ in
    let (log₃, data₃) = certs-dirs h c₂ c₃ e₃ in
    (
      c₃,
      cc,
      ap (λ (b : Config). b.log_dir) first ∙ log₂ ∙ log₃,
      ap (λ (b : Config). b.data_dir) first ∙ data₂ ∙ data₃,
    )

-- Where no log directory is asked for, a load that succeeds gives one in the data directory; but the
-- log was set up before that, and goes to the terminal alone.
pub setup_logging-complete :
    (h : Host) (c d : Config)
    → complete h c ≡ ok d
    → c.log_dir ≡ ""
    → ((logging_of h c).0 ≡ stdout ∷ [])
      × (d.log_dir ≡ clean_and_expand_path h (h.join (clean_and_expand_path h c.data_dir) "logs"))
unfolding setup_logging final_dirs
setup_logging-complete h c d done unset =
    let (e, last, log, dir) = complete-dirs h c d done in
    let blank : e.log_dir ≡ "" = sym log ∙ unset in
    (ground arith, ap (λ (b : Config). b.log_dir) (sym last) ∙ ground arith)
