-- ===== src/Tests/Repo.antt =====
-- Witnesses on the configuration and on the helpers of package repo.
use obcrawler.Base.{◌≡◌, ◌≢◌, ◌↔◌, ◌≤◌, refl, true, false, none, some, [], ◌∷◌, arith}
use obcrawler.Base.Tests.{string_dec}
use obcrawler.Go.{message, ok}
use obcrawler.Repo.Config.{Config, Host, parsed_well, file_read, load_config, clean_and_expand_path}
use obcrawler.Repo.Config.Usable.{IsUsable, load_config-IsUsable}
use obcrawler.Repo.Ulimit.{check_and_set_ulimit, file_descriptor_limit, raised_limit, ulimit_fails}
use obcrawler.Repo.AppData.{Machine}

abbrev defaults : Config
defaults = record {
  show_version = false;
  num_nodes = 10;
  num_workers = 12;
  pubsub_nodes = 3;
  config_file = "obcrawler.conf";
  data_dir = "data";
  log_dir = "";
  log_level = "info";
  external_ips = [];
  rpc_cert = "";
  rpc_key = "";
  grpc_listeners = [];
  testnet = false;
}

abbrev host : Host
host = record {
  parse_command_line = λ c. (parsed_well, record c { show_version = true });
  parse_file = λ path c. (file_read, c);
  lower = λ t. t;
  lookup_localhost = ok ("127.0.0.1" ∷ []);
  join_port = λ a. "127.0.0.1:5001";
  join = λ a b. b;
  dir = λ p. "/home/u";
  default_home_dir = "/home/u/.obcrawler";
  expand_env = λ p. p;
  clean = λ p. p;
  file_exists = λ p. false;
  gen_cert_pair = λ c k ips. none;
}

expands_home : clean_and_expand_path host "~/logs" ≡ "/home/u/logs"
unfolding clean_and_expand_path
expands_home = refl

expands_nothing : clean_and_expand_path host "/a/~/b" ≡ "/a/~/b"
unfolding clean_and_expand_path
expands_nothing = refl

abbrev loaded : Config
loaded = record defaults {
  show_version = true;
  rpc_cert = "rpc.cert";
  rpc_key = "rpc.key";
  grpc_listeners = "127.0.0.1:5001" ∷ [];
  log_dir = "logs";
}

load_config-IsUsable_example : IsUsable host loaded
unfolding load_config string_dec
load_config-IsUsable_example = load_config-IsUsable host defaults loaded refl

raised_limit_example :
    (file_descriptor_limit ≤ 32000) × (1024 ≤ 32000) × (4096 ≤ 32000) × (32000 ≤ 32000)
unfolding check_and_set_ulimit
raised_limit_example =
    raised_limit (record { cur = 1024; max = 4096 }) (λ r. none)
      (record { cur = 32000; max = 32000 }) (omega arith) refl refl

ulimit_fails_example :
    ((check_and_set_ulimit true
        (ok (record { cur = 256; max = 4096 }))
        (λ r. some (message "no"))).0
      ≢ none)
    ↔ ((some (message "no") ≢ none) × (some (message "no") ≢ none))
ulimit_fails_example =
    ulimit_fails true (record { cur = 256; max = 4096 }) (λ r. some (message "no"))

abbrev machine : Machine
machine = record {
  current_home = ok (b'h' ∷ []);
  env_home = [];
  env_local_app_data = [];
  env_app_data = [];
  join = λ parts. b'h' ∷ b'/' ∷ b'a' ∷ [];
  to_upper = λ c. b'A' ∷ [];
  to_lower = λ c. b'a' ∷ [];
}
