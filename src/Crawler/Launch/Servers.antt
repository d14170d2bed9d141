-- ===== src/Crawler/Launch/Servers.antt =====
-- newGrpcServer of crawler/rpc.go and newResolver of crawler/resolver.go: the servers that they
-- begin for the listen addresses. Both return inside their loop over the addresses.
use obcrawler.Base.{ℕ, String, Bool, ◌||◌, Option, none, some, List, [], ◌∷◌, if◌then◌else◌}
use obcrawler.Go.{GoError, Result, ok, err, ◌>>=◌}
use obcrawler.Crawler.Server.{SimpleAddr}

-- http.Server: its address, and the certificate and the key of ListenAndServeTLS, or none for
-- ListenAndServe.
pub record HttpServer : Type 0 where
  pub addr : List ℕ
  pub tls : Option (String × String)

-- The gRPC server, and the token that clients present to it.
pub record GrpcFront : Type 0 where
  pub http : HttpServer
  pub auth_token : String

-- The HTTP resolver: the path and the method that its handler is for.
pub record ResolverFront : Type 0 where
  pub http : HttpServer
  pub path : String
  pub method : String

-- Which of the two servers behind the address answers a request: that for web clients, or the plain
-- one. The arguments are IsGrpcWebRequest and IsAcceptableGrpcCorsRequest.
pub data GrpcSide : Type 0 where
  web_side plain_side : GrpcSide

abbrev pub side_of : Bool → Bool → GrpcSide
side_of is_web is_cors = if is_web || is_cors then web_side else plain_side

abbrev pub checked : Option GoError → Result (Unit {0})
checked none = ok tt
checked (some e) = err e

-- `load` is credentials.NewServerTLSFromFile.
unfoldable pub new_grpc_server :
    (String → String → Option GoError)
    → String
    → String
    → String
    → List SimpleAddr
    → Result (Option GrpcFront)
new_grpc_server load token cert key [] = ok none
new_grpc_server load token cert key (a ∷ addrs) = checked (load cert key) >>= λ _.
    ok (
      some (record { http = record { addr = a.addr; tls = some (cert, key) }; auth_token = token }))

unfoldable pub new_resolver : Bool → String → String → List SimpleAddr → Option ResolverFront
new_resolver no_tls cert key [] = none
new_resolver no_tls cert key (a ∷ addrs) = some (record {
  http = record { addr = a.addr; tls = if no_tls then none else some (cert, key) };
  path = "/ipns/{peerID}";
  method = "GET";
})
