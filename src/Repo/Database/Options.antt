-- ===== src/Repo/Database/Options.antt =====
-- The options of a database (Options and the option setters of repo/database.go).
use obcrawler.Base.{ℕ, String, Option, none}
use obcrawler.Go.{GoError}

pub record Options : Type 0 where
  pub host : String
  pub port : ℕ
  pub dialect : String
  pub user : String
  pub password : String

-- An option changes the struct through its pointer, and returns its error.
abbrev pub DbOption : Type 0
DbOption = Options → Option GoError × Options

unfoldable pub host_option : String → DbOption
host_option h o = (none, record o { host = h })

unfoldable pub port_option : ℕ → DbOption
port_option p o = (none, record o { port = p })

unfoldable pub dialect_option : String → DbOption
dialect_option d o = (none, record o { dialect = d })

unfoldable pub password_option : String → DbOption
password_option pw o = (none, record o { password = pw })

unfoldable pub user_option : String → DbOption
user_option u o = (none, record o { user = u })
