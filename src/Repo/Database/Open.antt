-- ===== src/Repo/Database/Open.antt =====
-- NewDatabase of repo/database.go, over the drivers.
use obcrawler.Base.{ℕ, suc, String, Option, none, some, List, [], ◌∷◌, same, if◌then◌else◌}
use obcrawler.Go.{GoError, message, Result, ok, err}
use obcrawler.Repo.Database.Options.{Options, DbOption}

-- What is opened: the texts of mysql and postgress are formatted from these values and the name of
-- the database.
pub data Dialector : Type 0 where
  in_memory : Dialector
  sqlite_file : String → Dialector
  mysql_server : String → String → String → ℕ → Dialector
  postgres_server : String → ℕ → String → String → Dialector

-- strings.ToLower, `path.Join(dataDir, dbName) + ".db"`, gorm.Open and AutoMigrate
pub record Driver : Type 1 where
  pub Connection : Type 0
  pub lower : String → String
  pub database_file : String → String
  pub gorm_open : Dialector → Result Connection
  pub auto_migrate : Connection → Option GoError

abbrev pub default_options : Options
default_options = record {
  host = "localhost";
  port = 0;
  dialect = "sqlite3";
  user = "";
  password = "";
}

-- The options run in their order, up to the first that fails; its index and its error.
unfoldable pub apply : ℕ → List DbOption → Options → Option (ℕ × GoError) × Options
apply i [] o = (none, o)
apply i (opt ∷ opts) o =
    let (e, o') = opt o in elim e [ some x ↦ (some (i, x), o') | none ↦ apply (suc i) opts o' ]

module _ (D : Driver) where
  unfoldable pub dialector : String → Options → Result Dialector
  dialector data_dir o =
      let name = D.lower o.dialect in
      if same name "test"
      then ok in_memory
      else if same name "mysql"
      then ok (mysql_server o.user o.password o.host o.port)
      else if same name "postgress"
      then ok (postgres_server o.host o.port o.user o.password)
      else if same name "sqlite3"
      then ok (sqlite_file (D.database_file data_dir))
      else err (message "unknown database dialect")

  abbrev pub migrated : D.Connection → Option GoError → Result D.Connection
  migrated db none = ok db
  migrated db (some e) = err e

  abbrev pub migrate : Result D.Connection → Result D.Connection
  migrate (err e) = err e
  migrate (ok db) = migrated db (D.auto_migrate db)

  abbrev pub open_dialector : Result Dialector → Result D.Connection
  open_dialector (err e) = err e
  open_dialector (ok d) = migrate (D.gorm_open d)

  unfoldable pub new_database : String → List DbOption → Result D.Connection
  unfolding apply dialector
  new_database data_dir opts =
      let (e, o) = apply 0 opts default_options in
      elim e [
        | some x ↦ err (message "option failed")
        | none ↦ open_dialector (dialector data_dir o)
      ]
