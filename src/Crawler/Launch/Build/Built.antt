-- ===== src/Crawler/Launch/Build/Built.antt =====
-- What a crawler that NewCrawler returns consists of, and which database it opens.
use obcrawler.Base.{
  if◌then◌else◌, subst, ℕ, zero, suc, ◌≡◌, refl, ◌∙◌, ap, sym, String, none, some, Option, List, [],
  ◌∷◌, ◌++◌, map, map-append, append_assoc, append-nil, arith, inl, inr,
}
use obcrawler.Go.{GoError, Result, ok, ◌>>=◌, bind-ok, Result-cases}
use obcrawler.Repo.Database.Options.{
  Options, host_option, port_option, dialect_option, password_option, user_option,
}
use obcrawler.Repo.Database.Open.{dialector, open_dialector, new_database}
use obcrawler.Crawler.Server.{SimpleAddr, parse_listeners, parse_listeners-first}
use obcrawler.Crawler.Launch.Servers.{
  GrpcFront, ResolverFront, checked, new_grpc_server, new_resolver,
}
use obcrawler.Crawler.Launch.{db_address}
use obcrawler.Crawler.Launch.Build.{
  LaunchOptions, Platform, node_config, new_nodes, host_options, db_options, grpc_front,
  resolver_front, Launched, new_crawler,
}

-- The numbers from i on, as many as said.
abbrev pub count_from : ℕ → ℕ → List ℕ
count_from i zero = []
count_from i (suc n) = i ∷ count_from (suc i) n

-- The gRPC server of a configuration: behind the first of its listen addresses, with its token, its
-- certificate and its key.
abbrev pub grpc_asked : LaunchOptions → List (List ℕ) → Option GrpcFront
grpc_asked cfg [] = none
grpc_asked cfg (a ∷ listeners) = some (record {
  http = record { addr = a; tls = some (cfg.rpc_cert, cfg.rpc_key) };
  auth_token = cfg.grpc_auth_token;
})

-- The resolver of a configuration: behind the first of its listen addresses, with TLS unless that
-- is turned off.
abbrev pub resolver_asked : LaunchOptions → List (List ℕ) → Option ResolverFront
resolver_asked cfg [] = none
resolver_asked cfg (a ∷ listeners) = some (record {
  http = record {
    addr = a;
    tls = if cfg.no_resolver_tls then none else some (cfg.rpc_cert, cfg.rpc_key);
  };
  path = "/ipns/{peerID}";
  method = "GET";
})

module _ (P : Platform) (cfg : LaunchOptions) where
  abbrev pub made : ℕ → Result P.Node
  made i = P.new_node (node_config P cfg i)

  new_nodes-made :
      (left i : ℕ) (nodes result : List P.Node)
      → new_nodes P cfg left i nodes ≡ ok result
      → map ok result ≡ map ok nodes ++ map made (count_from i left)
  unfolding new_nodes
  new_nodes-made zero i nodes result h =
      let e : nodes ≡ result = cc in ap (map ok) (sym e) ∙ sym (append-nil (map ok nodes))
  new_nodes-made (suc left) i nodes result h =
      let (n, e, rest) =
        bind-ok (made i) (λ n. new_nodes P cfg left (suc i) (nodes ++ n ∷ [])) result h in
      new_nodes-made left (suc i) (nodes ++ n ∷ []) result rest
      ∙ ap (λ ms. ms ++ map made (count_from (suc i) left)) (map-append ok nodes (n ∷ []))
      ∙ append_assoc (map ok nodes) (ok n ∷ []) (map made (count_from (suc i) left))
      ∙ ap (λ r. map ok nodes ++ r ∷ map made (count_from (suc i) left)) (sym e)

  new_grpc_server-asked :
      (x : SimpleAddr) (rest : List SimpleAddr) (front : Option GrpcFront)
      → new_grpc_server P.load_certificates cfg.grpc_auth_token cfg.rpc_cert cfg.rpc_key (x ∷ rest)
        ≡ ok front
      → front ≡ grpc_asked cfg (x.addr ∷ [])
  unfolding new_grpc_server
  new_grpc_server-asked x rest front h =
      let (_, _, e) = bind-ok (checked (P.load_certificates cfg.rpc_cert cfg.rpc_key)) _ front h in
      cc

  grpc_front-asked :
      (listeners : List (List ℕ)) (front : Option GrpcFront)
      → grpc_front P cfg listeners ≡ ok front
      → front ≡ grpc_asked cfg listeners
  unfolding grpc_front
  grpc_front-asked [] front h = cc
  grpc_front-asked (a ∷ listeners) front h =
      let (xs, parsed, e) = bind-ok (parse_listeners P.net (a ∷ listeners)) _ front h in
      let (x, rest, is_first, same_text) = parse_listeners-first P.net a listeners xs parsed in
      let made =
        subst
          (λ ys.
            new_grpc_server P.load_certificates cfg.grpc_auth_token cfg.rpc_cert cfg.rpc_key ys
            ≡ ok front)
          is_first e in
      rw (← same_text) (new_grpc_server-asked x rest front made)

  resolver_front-asked :
      (listeners : List (List ℕ)) (front : Option ResolverFront)
      → resolver_front P cfg listeners ≡ ok front
      → front ≡ resolver_asked cfg listeners
  unfolding resolver_front new_resolver
  resolver_front-asked [] front h = cc
  resolver_front-asked (a ∷ listeners) front h =
      let (xs, parsed, e) = bind-ok (parse_listeners P.net (a ∷ listeners)) _ front h in
      let (x, rest, is_first, same_text) = parse_listeners-first P.net a listeners xs parsed in
      let made : new_resolver cfg.no_resolver_tls cfg.rpc_cert cfg.rpc_key xs ≡ front = cc in
      rw (← same_text) (sym made ∙ rw is_first refl)

  checked-ok : (u : Unit {0}) (e : Option GoError) → checked e ≡ ok u → e ≡ none
  checked-ok u none h = refl
  checked-ok u (some x) h = cc

  -- A crawler that NewCrawler returns has as many nodes as are asked for, the k-th made with the
  -- k-th configuration; its gRPC server and its resolver are those of the configuration, each behind
  -- the first of its listen addresses only, and none where there is no address; and the check of the
  -- file limit reported no error.
  pub new_crawler_launched :
      (c : Launched P)
      → new_crawler P cfg ≡ ok c
      → (map ok c.nodes ≡ map made (count_from 0 cfg.num_nodes))
        × (c.grpc ≡ grpc_asked cfg cfg.grpc_listeners)
        × (c.resolver ≡ resolver_asked cfg cfg.resolver_listeners)
        × (P.check_ulimit ≡ none)
  unfolding new_crawler
  new_crawler_launched c h =
      let (nodes, n, h₁) = bind-ok (new_nodes P cfg cfg.num_nodes 0 []) _ c h in
      let (opts, o, h₂) = bind-ok (db_options P cfg) _ c h₁ in
      let (database, d, h₃) = bind-ok (new_database P.driver cfg.data_dir opts) _ c h₂ in
      let (u, l, h₄) = bind-ok (checked P.check_ulimit) _ c h₃ in
      let (grpc, g, h₅) = bind-ok (grpc_front P cfg cfg.grpc_listeners) _ c h₄ in
      let (resolver, r, h₆) = bind-ok (resolver_front P cfg cfg.resolver_listeners) _ c h₅ in
      let same_nodes : nodes ≡ c.nodes = ground arith in
      let same_grpc : grpc ≡ c.grpc = ground arith in
      let same_resolver : resolver ≡ c.resolver = ground arith in
      (
        rw (← same_nodes) (new_nodes-made cfg.num_nodes 0 [] nodes n),
        rw (← same_grpc) (grpc_front-asked cfg.grpc_listeners grpc g),
        rw (← same_resolver) (resolver_front-asked cfg.resolver_listeners resolver r),
        checked-ok u P.check_ulimit l,
      )

  -- The host and the port that are asked for, or those of the defaults.
  abbrev pub host_and_port : List ℕ → Result (String × ℕ)
  host_and_port [] = ok ("localhost", 0)
  host_and_port (c ∷ cs) = db_address (c ∷ cs) >>= λ a. ok (P.text a.0, a.1)

  abbrev pub asked : String × ℕ → Options
  asked a = record {
    host = a.0;
    port = a.1;
    dialect = cfg.db_dialect;
    user = cfg.db_user;
    password = cfg.db_pass;
  }

  opened :
      (host : List ℕ)
      → (host_options P
            (user_option cfg.db_user
              ∷ password_option cfg.db_pass
              ∷ dialect_option cfg.db_dialect
              ∷ [])
            host
          >>= new_database P.driver cfg.data_dir)
        ≡ (host_and_port host >>= λ a.
            open_dialector P.driver (dialector P.driver cfg.data_dir (asked a)))
  unfolding new_database host_option port_option dialect_option password_option user_option
  opened [] = refl
  opened (c ∷ cs) = elim (Result-cases (db_address (c ∷ cs))) [
    | inl ((h, p), e) ↦ rw e refl
    | inr (x, e) ↦ rw e refl
  ]

  -- The options that NewCrawler collects open the database that the configuration asks for, with
  -- its user, its password and its dialect, at its host and its port; without a host, at localhost
  -- and port 0. A host that does not parse opens none.
  pub new_database-db_options : (db_options P cfg >>= new_database P.driver cfg.data_dir) ≡ (
      host_and_port cfg.db_host >>= λ a.
      open_dialector P.driver (dialector P.driver cfg.data_dir (asked a)))
  unfolding db_options
  new_database-db_options = opened cfg.db_host
