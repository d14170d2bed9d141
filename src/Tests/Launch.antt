-- ===== src/Tests/Launch.antt =====
-- Witnesses on the start and the end of the program: the database's address, the parts of the
-- crawler, the files that are written, and Stop.
use obcrawler.Base.{
  ℕ, ◌==◌, ◌≡◌, ◌≢◌, refl, true, false, Option, none, some, List, [], ◌∷◌, ◌++◌, map, ◌⊎◌, ◌↔◌,
  arith, if◌then◌else◌,
}
use obcrawler.Base.Tests.{string_dec}
use obcrawler.Go.{GoError, foreign, Result, ok, err}
use obcrawler.Repo.Config.Files.{Disk, Pair, CertDisk, marker, gen_cert_pair}
use obcrawler.Repo.Config.Files.Certs.{IsSound, gen_cert_pair_files}
use obcrawler.Repo.Config.Files.Copied.{text}
use obcrawler.Repo.Database.Options.{
  host_option, port_option, dialect_option, password_option, user_option,
}
use obcrawler.Repo.Database.Open.{Driver, Dialector, new_database}
use obcrawler.Crawler.Server.{NetLib, parse_listeners}
use obcrawler.Crawler.Launch.{colon, db_address}
use obcrawler.Crawler.Launch.Address.{digit, value, db_address-value}
use obcrawler.Crawler.Launch.Build.{
  Platform, LaunchOptions, Launched, new_nodes, db_options, grpc_front, resolver_front, new_crawler,
}
use obcrawler.Crawler.Launch.Build.Built.{
  made, count_from, grpc_asked, resolver_asked, new_crawler_launched,
}
use obcrawler.Crawler.Start.{Begun, start, Returned, start_lem}
use obcrawler.Main.{interrupt, exits, Program, main, Interrupted, StopsWell}
use obcrawler.Main.Exit.{main-EndsWell}
use obcrawler.Crawler.Stop.{Switches, stop, UpToFirst, stop_lem}

-- "db:5432", with a further part that is dropped.
db_address-value_example :
    db_address (b'd' ∷ b'b' ∷ colon ∷ (map digit (5 ∷ 4 ∷ 3 ∷ 2 ∷ []) ++ colon ∷ b'x' ∷ []))
    ≡ ok (b'd' ∷ b'b' ∷ [], value (5 ∷ 4 ∷ 3 ∷ 2 ∷ []))
db_address-value_example =
    db_address-value (b'd' ∷ b'b' ∷ []) 5 (4 ∷ 3 ∷ 2 ∷ []) (colon ∷ b'x' ∷ []) (refl, (refl, tt))
      (omega arith, (omega arith, (omega arith, (omega arith, tt)))) (omega arith) refl

-- A port below zero wraps.
minus_one : db_address (b'd' ∷ colon ∷ b'-' ∷ b'1' ∷ []) ≡ ok (b'd' ∷ [], 18446744073709551615)
unfolding db_address
minus_one = refl

-- Every driver opens what it is asked for, every node starts, every host is any.
abbrev drivers : Driver
drivers = record {
  Connection = Dialector;
  lower = λ t. t;
  database_file = λ dir. dir;
  gorm_open = λ d. ok d;
  auto_migrate = λ c. none;
}

abbrev network : NetLib
network = record { split_host = λ a. ok []; parse_ip = λ a. none; on_plan9 = false }

abbrev platform : Platform
platform = record {
  Node = ℕ;
  join = λ parts. "dir";
  itoa = λ n. "n";
  new_node = λ c. ok c.swarm_port;
  text = λ bs. "db";
  driver = drivers;
  check_ulimit = none;
  net = network;
  load_certificates = λ cert key. none;
}

abbrev options : LaunchOptions
options = record {
  data_dir = "data";
  num_nodes = 2;
  log_level = "info";
  bootstrap_addrs = [];
  testnet = false;
  disable_nat_port_map = true;
  user_agent_comment = "";
  ipns_quorum = 2;
  db_user = "user";
  db_pass = "secret";
  db_dialect = "mysql";
  db_host = b'd' ∷ colon ∷ b'7' ∷ [];
  grpc_listeners = (b':' ∷ []) ∷ (b':' ∷ []) ∷ [];
  resolver_listeners = [];
  grpc_auth_token = "token";
  rpc_cert = "rpc.cert";
  rpc_key = "rpc.key";
  no_resolver_tls = false;
}

abbrev or_bare : Result (Launched platform) → Launched platform
or_bare (ok c) = c
or_bare (err e) = record {
  nodes = [];
  database = Dialector.in_memory;
  grpc = none;
  resolver = none;
}

abbrev launched : Launched platform
unfolding new_crawler
launched = or_bare (new_crawler platform options)

new_crawler_launched_example :
    (map ok launched.nodes ≡ map (made platform options) (count_from 0 2))
    × (launched.grpc ≡ grpc_asked options ((b':' ∷ []) ∷ (b':' ∷ []) ∷ []))
    × (launched.resolver ≡ resolver_asked options [])
    × (platform.check_ulimit ≡ none)
unfolding new_crawler string_dec new_nodes db_options db_address new_database user_option
    password_option dialect_option host_option port_option grpc_front parse_listeners resolver_front
new_crawler_launched_example = new_crawler_launched platform options launched refl

-- The key cannot be written.
abbrev certs : CertDisk
certs = record {
  new_pair = ok (1 ∷ [], 2 ∷ []);
  write_cert = λ t. (some t, none);
  write_key = λ t. (some [], some (foreign 1));
  remove_fails = false;
}

certs-IsSound : IsSound certs
certs-IsSound = record {
  cert_stored = λ t h. refl;
  key_stored = λ t h. absurd (ground arith);
  removes = refl;
}

abbrev no_files : Pair
no_files = record { cert = none; key = none }

gen_cert_pair_files_example :
    let (after, e) = gen_cert_pair certs no_files in
    (e ≡ none)
      × ((cert : List ℕ) × (key : List ℕ) × (certs.new_pair ≡ ok (cert, key))
          × (after.cert ≡ some cert)
          × (after.key ≡ some key))
    ⊎ (e ≢ none) × ((after.cert ≡ none) ⊎ (after.key ≡ none))
gen_cert_pair_files_example = gen_cert_pair_files certs no_files certs-IsSound refl refl

-- A sample of three lines, the second of which names the bootstrap addresses.
abbrev comment_line : List ℕ
comment_line = b';' ∷ b'x' ∷ []

abbrev sample_line : List ℕ
sample_line = b';' ∷ marker

abbrev sample_disk : Disk
sample_disk = record {
  mkdir_all = none;
  asset = ok (text (comment_line ∷ []) ++ (sample_line ++ 10 ∷ (b'y' ∷ [])));
  open_file = none;
  write = λ n t. (t, none);
}

-- The second of three nodes fails to stop.
abbrev stop_two : ℕ → Option GoError
stop_two n = if n == 2 then some (foreign 3) else none

abbrev running : Switches ℕ
running = record { shutdown_closed = false; cancelled = false; asked = [] }

stop_lem_example :
    (t : Switches ℕ) × (given : List ℕ) × (e : Option GoError) × (stop stop_two
        (1 ∷ 2 ∷ 3 ∷ [])
        running
      ≡ some (t, e))
    × (t.shutdown_closed ≡ true)
    × (t.cancelled ≡ true)
    × (t.asked ≡ [] ++ given)
    × UpToFirst stop_two (1 ∷ 2 ∷ 3 ∷ []) given e
    × (stop stop_two (1 ∷ 2 ∷ 3 ∷ []) t ≡ none)
stop_lem_example = stop_lem stop_two (1 ∷ 2 ∷ 3 ∷ []) running refl

-- The second node cannot subscribe.
abbrev subscribes : ℕ → Result ℕ
subscribes n = if n == 2 then err (foreign 4) else ok n

start_lem_example :
    (begun : List (Begun ℕ ℕ)) × (e : Option GoError) × (start subscribes (1 ∷ 2 ∷ 3 ∷ []) 2 2
      ≡ some (begun, e))
    × Returned subscribes (1 ∷ 2 ∷ 3 ∷ []) 2 begun e
start_lem_example = start_lem subscribes (1 ∷ 2 ∷ 3 ∷ []) 2 2 (omega arith) (omega arith)

abbrev program : Program
program = record {
  Config = ℕ;
  Node = ℕ;
  load_config = ok 3;
  new_crawler = λ n. ok (1 ∷ 3 ∷ []);
  start = λ nodes. none;
  stop_node = stop_two;
  Subscription = ℕ;
  subscriptions = λ nodes. none ∷ some 1 ∷ [];
  handler_first = false;
}

main-EndsWell_example :
    (main program (interrupt ∷ []) ≡ exits 0)
    ↔ Interrupted program (StopsWell program) (interrupt ∷ [])
main-EndsWell_example = main-EndsWell program (interrupt ∷ [])
