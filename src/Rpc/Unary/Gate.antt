-- ===== src/Rpc/Unary/Gate.antt =====
-- What calls from outside can do to the crawler, and what they cannot.
use obcrawler.Base.{
  String, Bool, ◌≡◌, ◌≢◌, refl, ◌∙◌, ap, sym, none, Option, List, ◌++◌, arith, inl, inr, ◌⊎◌,
  Option-cases,
}
use obcrawler.Go.{GoError, ok, Result-cases}
use obcrawler.Ipfs.{Ipfs, PrintsAlike, DecodesPeers}
use obcrawler.Repo.Gorm.{Gorm, IsLawful}
use obcrawler.Crawler.Network.{Network}
use obcrawler.Crawler.Peers.{ban_node}
use obcrawler.Crawler.Peers.Gate.{crawl_node-gate}
use obcrawler.Crawler.Pubsub.{Message}
use obcrawler.Crawler.Server.{validate_authentication_token}
use obcrawler.Crawler.System.{System, Reach, here, next, crawls, bans, unbans}
use obcrawler.Crawler.System.Rows.{IsKeyed, IsBanned}
use obcrawler.Crawler.System.Jobs.{ReadsPeers}
use obcrawler.Crawler.System.Banned.{
  StaysBanned, Reach-StaysBanned, ban_node-StaysBanned, pretty_named,
}
use obcrawler.Rpc.Unary.{
  Request, crawl_request, ban_request, unban_request, Reply, refused, rpc_crawl_node, rpc_ban_node,
  rpc_unban_node, serve, grpc,
}

module _ (G : Gorm) (I : Ipfs) where
  grpc-cases :
      (token : String) (md : Option (List String)) (nodes : List I.Node) (pin : Bool) (r : Request)
      (s : System G I)
      → (grpc G I token md nodes pin r s ≡ serve G I nodes pin r s)
        ⊎ ((e : GoError) × (grpc G I token md nodes pin r s ≡ refused G I e s))
  unfolding grpc
  grpc-cases token md nodes pin r s = elim (Option-cases (validate_authentication_token token md)) [
    | inl e ↦ inl (ground arith)
    | inr (x, e) ↦ inr (x, ground arith)
  ]

  -- Nothing but an UnbanNode of the peer with the key `kept`.
  abbrev pub Spares : String → Request → Type 0
  Spares kept (unban_request text) =
      (pid : I.PeerId) → I.decode_peer text ≡ ok pid → I.pid_string pid ≢ kept
  Spares kept r = Unit {0}

module _ (G : Gorm) (I : Ipfs) (N : Network I) (message_id : Message I → String) where
  serve-Reach :
      (nodes : List I.Node) (pin : Bool) (kept : String) (r : Request) (s : System G I)
      → Spares G I kept r
      → Reach G I N message_id kept s (serve G I nodes pin r s).system
  unfolding serve rpc_crawl_node rpc_ban_node rpc_unban_node
  serve-Reach nodes pin kept (crawl_request text) s h = elim (Result-cases (I.decode_peer text)) [
    | inl (pid, e) ↦ rw (e, serve, rpc_crawl_node) (next here (crawls pin pid))
    | inr (x, e) ↦ rw (e, serve, rpc_crawl_node) here
  ]
  serve-Reach nodes pin kept (ban_request text) s h = elim (Result-cases (I.decode_peer text)) [
    | inl (pid, e) ↦ rw (e, serve, rpc_ban_node) (next here (bans nodes pid))
    | inr (x, e) ↦ rw (e, serve, rpc_ban_node) here
  ]
  serve-Reach nodes pin kept (unban_request text) s h = elim (Result-cases (I.decode_peer text)) [
    | inl (pid, e) ↦ rw (e, serve, rpc_unban_node) (next here (unbans pid (h pid e)))
    | inr (x, e) ↦ rw (e, serve, rpc_unban_node) here
  ]

  -- Whatever a call is answered, it has taken the crawler along its steps, none of which is an
  -- UnbanNode of a peer that the call does not name.
  pub grpc-Reach :
      (token : String) (md : Option (List String)) (nodes : List I.Node) (pin : Bool)
      (kept : String) (r : Request) (s : System G I)
      → Spares G I kept r
      → Reach G I N message_id kept s (grpc G I token md nodes pin r s).system
  grpc-Reach token md nodes pin kept r s h = elim (grpc-cases G I token md nodes pin r s) [
    | inl e ↦ rw e (serve-Reach nodes pin kept r s h)
    | inr (x, e) ↦ rw e here
  ]

module _ (G : Gorm) (L : IsLawful G) (I : Ipfs) (N : Network I)
    (message_id : Message I → String) where
  rpc_ban_node_done :
      (nodes : List I.Node) (text : String) (pid : I.PeerId) (s : System G I)
      → I.decode_peer text ≡ ok pid
      → (rpc_ban_node G I nodes text s).error ≡ none
      → ((ban_node G I nodes pid s.db).1 ≡ none)
        × ((rpc_ban_node G I nodes text s).system
            ≡ record s { db = (ban_node G I nodes pid s.db).2 })
  unfolding rpc_ban_node
  rpc_ban_node_done nodes text pid s d done = (ground arith, ground arith)

  grpc_ban_done :
      (token : String) (md : Option (List String)) (nodes : List I.Node) (pin : Bool)
      (text : String) (pid : I.PeerId) (s : System G I)
      → I.decode_peer text ≡ ok pid
      → (grpc G I token md nodes pin (ban_request text) s).error ≡ none
      → ((ban_node G I nodes pid s.db).1 ≡ none)
        × ((grpc G I token md nodes pin (ban_request text) s).system
            ≡ record s { db = (ban_node G I nodes pid s.db).2 })
  unfolding serve
  grpc_ban_done token md nodes pin text pid s d done =
      elim (grpc-cases G I token md nodes pin (ban_request text) s) [
        | inl e ↦
            let (banned, system) =
              rpc_ban_node_done nodes text pid s d
                (ap (λ (r : Reply G I). r.error) (sym e) ∙ done) in
            (banned, ap (λ (r : Reply G I). r.system) e ∙ system)
        | inr (x, e) ↦ absurd (ground arith)
      ]

  rpc_crawl_node_refused :
      (pin : Bool) (text : String) (pid : I.PeerId) (t : System G I)
      → I.decode_peer text ≡ ok pid
      → IsBanned G I t.db (I.pretty pid)
      → ((rpc_crawl_node G I pin text t).error ≢ none)
        × ((rpc_crawl_node G I pin text t).system.queue ≡ t.queue)
  unfolding rpc_crawl_node
  rpc_crawl_node_refused pin text pid t d banned = elim (crawl_node-gate G L I pin pid t.db) [
    | inl (_, _, free) ↦ cc
    | inr (failed, nothing) ↦ rw (d, rpc_crawl_node) (failed, ap (λ js. js ++ t.queue) nothing)
  ]

  -- After a BanNode call that was answered without an error, and whatever steps follow it but an
  -- UnbanNode of the peer, any client's CrawlNode call for that peer is answered with an error and
  -- leaves the queue as it is. That assumes that no lookup of a peer fails, that every row had a
  -- key that the crawler makes, that both texts of a peer are the same, and that peer.Decode reads
  -- them back and rejects the empty text.
  pub grpc_crawl_after_ban :
      (token : String) (md md' : Option (List String)) (nodes : List I.Node) (pin : Bool)
      (text text' : String) (pid : I.PeerId) (s t : System G I)
      → PrintsAlike I
      → DecodesPeers I
      → ReadsPeers G
      → IsKeyed G I s.db
      → I.decode_peer text ≡ ok pid
      → I.decode_peer text' ≡ ok pid
      → (grpc G I token md nodes pin (ban_request text) s).error ≡ none
      → Reach G I N message_id
          (I.pretty pid)
          (grpc G I token md nodes pin (ban_request text) s).system
          t
      → ((grpc G I token md' nodes pin (crawl_request text') t).error ≢ none)
        × ((grpc G I token md' nodes pin (crawl_request text') t).system.queue ≡ t.queue)
  unfolding serve
  grpc_crawl_after_ban token md md' nodes pin text text' pid s t alike dec reads keyed d d' done r =
      let (banned, system) = grpc_ban_done token md nodes pin text pid s d done in
      let start : StaysBanned G L I N message_id (I.pretty pid) s.queue
          (grpc G I token md nodes pin (ban_request text) s).system =
        rw system (ban_node-StaysBanned G L I N message_id nodes pid s keyed banned) in
      let held =
        Reach-StaysBanned G L I N message_id (I.pretty pid) alike dec reads (pretty_named I pid dec)
          s.queue r start in
      elim (grpc-cases G I token md' nodes pin (crawl_request text') t) [
        | inl e ↦ rw e (rpc_crawl_node_refused pin text' pid t d' held.banned)
        | inr (x, e) ↦ rw e ((λ p. cc), refl)
      ]
