-- ===== src/Rpc/Unary.antt =====
-- CrawlNode, BanNode and UnbanNode of rpc/server.go, over the crawler, behind the interceptor of
-- crawler/rpc.go.
pub mod Gate
use obcrawler.Base.{String, Bool, Option, none, some, List, [], ◌++◌}
use obcrawler.Go.{GoError, ok, err}
use obcrawler.Ipfs.{Ipfs}
use obcrawler.Repo.Gorm.{Gorm}
use obcrawler.Crawler.Peers.{crawl_node, ban_node, unban_node}
use obcrawler.Crawler.Server.{intercept}
use obcrawler.Crawler.System.{System}

-- The peer is the text of the request.
pub data Request : Type 0 where
  crawl_request ban_request unban_request : String → Request

module _ (G : Gorm) (I : Ipfs) where
  -- The error of the call, the files that it unpins, and the crawler behind it.
  pub record Reply : Type 0 where
    pub error : Option GoError
    pub unpinned : List (I.Node × I.Cid)
    pub system : System G I

  abbrev pub refused : GoError → System G I → Reply
  refused e s = record { error = some e; unpinned = []; system = s }

  unfoldable pub rpc_crawl_node : Bool → String → System G I → Reply
  rpc_crawl_node pin text s = elim (I.decode_peer text) [
    | err e ↦ refused e s
    | ok pid ↦
        let (jobs, e, t) = crawl_node G I pin pid s.db in
        record { error = e; unpinned = []; system = record { db = t; queue = jobs ++ s.queue } }
  ]

  unfoldable pub rpc_ban_node : List I.Node → String → System G I → Reply
  rpc_ban_node nodes text s = elim (I.decode_peer text) [
    | err e ↦ refused e s
    | ok pid ↦
        let (files, e, t) = ban_node G I nodes pid s.db in
        record { error = e; unpinned = files; system = record s { db = t } }
  ]

  unfoldable pub rpc_unban_node : String → System G I → Reply
  rpc_unban_node text s = elim (I.decode_peer text) [
    | err e ↦ refused e s
    | ok pid ↦
        let (_, e, t) = unban_node G I pid s.db in
        record { error = e; unpinned = []; system = record s { db = t } }
  ]

  unfoldable pub serve : List I.Node → Bool → Request → System G I → Reply
  serve nodes pin (crawl_request text) s = rpc_crawl_node pin text s
  serve nodes pin (ban_request text) s = rpc_ban_node nodes text s
  serve nodes pin (unban_request text) s = rpc_unban_node text s

  -- A call with the server's token and the metadata of the client.
  unfoldable pub grpc :
      String → Option (List String) → List I.Node → Bool → Request → System G I → Reply
  unfolding serve intercept
  grpc token md nodes pin r s = elim (intercept token md (λ _. ok (serve nodes pin r s))) [
    | ok reply ↦ reply
    | err e ↦ refused e s
  ]
