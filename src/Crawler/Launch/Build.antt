-- ===== src/Crawler/Launch/Build.antt =====
-- NewCrawler of crawler/crawler.go: the IPFS nodes, the database, the file limit and the servers, in
-- that order.
pub mod Built
use obcrawler.Base.{
  ℕ, zero, suc, ◌+◌, String, Bool, not, Option, none, some, List, [], ◌∷◌, ◌++◌, if◌then◌else◌,
}
use obcrawler.Go.{GoError, Result, ok, err, ◌>>=◌}
use obcrawler.Repo.Database.Options.{
  DbOption, host_option, port_option, dialect_option, password_option, user_option,
}
use obcrawler.Repo.Database.Open.{Driver, new_database}
use obcrawler.Crawler.Server.{NetLib, SimpleAddr, parse_listeners}
use obcrawler.Crawler.Launch.Servers.{
  GrpcFront, ResolverFront, checked, new_grpc_server, new_resolver,
}
use obcrawler.Crawler.Launch.{db_address}

-- The options that NewCrawler reads to build the parts. Those that it copies into the crawler are
-- the fields of Setup of the worker.
pub record LaunchOptions : Type 0 where
  pub data_dir : String
  pub num_nodes : ℕ
  pub log_level : String
  pub bootstrap_addrs : List String
  pub testnet : Bool
  pub disable_nat_port_map : Bool
  pub user_agent_comment : String
  pub ipns_quorum : ℕ
  pub db_user : String
  pub db_pass : String
  pub db_dialect : String
  pub db_host : List ℕ
  pub grpc_listeners : List (List ℕ)
  pub resolver_listeners : List (List ℕ)
  pub grpc_auth_token : String
  pub rpc_cert : String
  pub rpc_key : String
  pub no_resolver_tls : Bool

-- obrepo.Config, but for the wallets and servers, which are nil, and IPFSOnly, which is true. The
-- swarm address is "/ip4/0.0.0.0/tcp/" with the port.
pub record NodeConfig : Type 0 where
  pub data_dir : String
  pub log_dir : String
  pub disable_nat_port_map : Bool
  pub user_agent_comment : String
  pub log_level : String
  pub ipns_quorum : ℕ
  pub testnet : Bool
  pub swarm_port : ℕ
  pub bootstrap_addrs : List String

-- path.Join and strconv.Itoa, core.NewNode, the text of bytes, the drivers, CheckAndSetUlimit, the
-- network library, and credentials.NewServerTLSFromFile.
pub record Platform : Type 1 where
  pub Node : Type 0
  pub join : List String → String
  pub itoa : ℕ → String
  pub new_node : NodeConfig → Result Node
  pub text : List ℕ → String
  pub driver : Driver
  pub check_ulimit : Option GoError
  pub net : NetLib
  pub load_certificates : String → String → Option GoError

abbrev pub is_empty {ℓ} : {A : Type ℓ} → List A → Bool
is_empty [] = Bool.true
is_empty (x ∷ xs) = Bool.false

module _ (P : Platform) where
  unfoldable pub node_config : LaunchOptions → ℕ → NodeConfig
  node_config cfg i = record {
    data_dir = P.join (cfg.data_dir ∷ "nodes" ∷ P.itoa i ∷ []);
    log_dir = P.join (cfg.data_dir ∷ "nodes" ∷ P.itoa i ∷ "logs" ∷ []);
    disable_nat_port_map = cfg.disable_nat_port_map;
    user_agent_comment = cfg.user_agent_comment;
    log_level = cfg.log_level;
    ipns_quorum = cfg.ipns_quorum;
    testnet = cfg.testnet;
    swarm_port = 4009 + i;
    bootstrap_addrs = if not (is_empty cfg.bootstrap_addrs) then cfg.bootstrap_addrs else [];
  }

  -- `left` more nodes from the i-th on, behind those that are there.
  unfoldable pub new_nodes : LaunchOptions → ℕ → ℕ → List P.Node → Result (List P.Node)
  new_nodes cfg zero i nodes = ok nodes
  new_nodes cfg (suc left) i nodes =
      P.new_node (node_config cfg i) >>= λ n. new_nodes cfg left (suc i) (nodes ++ n ∷ [])

  abbrev pub with_host : List DbOption → Result (List ℕ × ℕ) → Result (List DbOption)
  with_host opts (err e) = err e
  with_host opts (ok (host, port)) = ok (opts ++ host_option (P.text host) ∷ port_option port ∷ [])

  -- `if cfg.DBHost != ""`
  abbrev pub host_options : List DbOption → List ℕ → Result (List DbOption)
  host_options opts [] = ok opts
  host_options opts (c ∷ cs) = with_host opts (db_address (c ∷ cs))

  unfoldable pub db_options : LaunchOptions → Result (List DbOption)
  db_options cfg =
      host_options
        (user_option cfg.db_user ∷ password_option cfg.db_pass ∷ dialect_option cfg.db_dialect ∷ [])
        cfg.db_host

  -- `if len(cfg.GrpcListeners) > 0`
  unfoldable pub grpc_front : LaunchOptions → List (List ℕ) → Result (Option GrpcFront)
  unfolding new_grpc_server
  grpc_front cfg [] = ok none
  grpc_front cfg (a ∷ listeners) =
      parse_listeners P.net (a ∷ listeners)
      >>= new_grpc_server P.load_certificates cfg.grpc_auth_token cfg.rpc_cert cfg.rpc_key

  -- `if len(cfg.ResolverListeners) > 0`
  unfoldable pub resolver_front : LaunchOptions → List (List ℕ) → Result (Option ResolverFront)
  unfolding new_resolver
  resolver_front cfg [] = ok none
  resolver_front cfg (a ∷ listeners) = parse_listeners P.net (a ∷ listeners) >>= λ addrs.
      ok (new_resolver cfg.no_resolver_tls cfg.rpc_cert cfg.rpc_key addrs)

  -- The crawler: its nodes, its database, and its two servers.
  pub record Launched : Type 0 where
    pub nodes : List P.Node
    pub database : P.driver.Connection
    pub grpc : Option GrpcFront
    pub resolver : Option ResolverFront

  unfoldable pub new_crawler : LaunchOptions → Result Launched
  new_crawler cfg = do
    nodes ← new_nodes cfg cfg.num_nodes 0 []
    opts ← db_options cfg
    database ← new_database P.driver cfg.data_dir opts
    _ ← checked P.check_ulimit
    grpc ← grpc_front cfg cfg.grpc_listeners
    resolver ← resolver_front cfg cfg.resolver_listeners
    ok (record { nodes = nodes; database = database; grpc = grpc; resolver = resolver })
