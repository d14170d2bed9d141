-- ===== src/Crawler/Worker/Run.antt =====
-- The rest of processJob: the graph, the records, the pins, and what is deferred.
use obcrawler.Base.{
  ℕ, String, Bool, Option, none, some, List, [], ◌∷◌, ◌++◌, map, length, true, ◌&&◌, if◌then◌else◌,
}
use obcrawler.Go.{GoError, ok, err}
use obcrawler.Ipfs.{Ipfs, Job}
use obcrawler.Repo.Models.{Peer}
use obcrawler.Repo.Gorm.{Gorm}
use obcrawler.Repo.Database.{Outcome, update}
use obcrawler.Crawler.Network.{Network, returned, stuck}
use obcrawler.Crawler.Graph.{fetch_graph, Fetched}
use obcrawler.Crawler.Records.{save_body}
use obcrawler.Crawler.Peers.{load_peer, or_blank, save_last, unpin_cid}
use obcrawler.Crawler.Worker.Defs.{
  Object, Work, Event, notified, record_put, pinned, unpinned, Flow, next, stop, halted, ◌>>=◌,
  refresh, root_cid, load_root, find_link, crawl_profile, crawl_listings,
}

-- What the crawler's configuration fixes: its nodes, the quorum, and which of the optional steps
-- are on; and the fuel and the choices that stand for the iteration of fetchGraph's map.
pub record Setup (I : Ipfs) : Type 0 where
  pub nodes : List I.Node
  pub quorum : ℕ
  pub cache_data : Bool
  pub pin_files : Bool
  pub fuel : I.Cid → ℕ
  pub picks : ℕ → ℕ

module _ (G : Gorm) (I : Ipfs) (N : Network I) where
  abbrev pub graph_fetched : Fetched I N → Work G I N → Flow (Work G I N) (List I.Cid)
  graph_fetched none s = halted
  graph_fetched (some stuck) s = halted
  graph_fetched (some (returned (ret, e) w)) s = next ret (record s { world = w })

  -- The cached graph, which is the part that was fetched where an error ended the traversal.
  unfoldable pub cached_graph :
      Setup I → I.Node → I.Cid → Work G I N → Flow (Work G I N) (List I.Cid)
  unfolding fetch_graph
  cached_graph c n root s =
      if c.cache_data
      then graph_fetched (fetch_graph I N c.picks (c.fuel root) n root s.world) s
      else next [] s

  abbrev pub link_cids : Option I.Cid → List I.Cid
  link_cids none = []
  link_cids (some c) = c ∷ []

  unfoldable pub decodable : List String → List I.Cid
  decodable [] = []
  decodable (t ∷ ts) = elim (I.decode_cid t) [ err e ↦ decodable ts | ok c ↦ c ∷ decodable ts ]

  -- graph = append(graph, …)
  unfoldable pub whole_graph :
      List I.Cid → I.Cid → Option I.Cid → Option I.Cid → List String → List I.Cid
  unfolding decodable
  whole_graph graph root profile listings found =
      graph ++ root ∷ (link_cids profile ++ (link_cids listings ++ decodable found))

  abbrev pub records_saved :
      Outcome G.State (List String) → Work G I N → Flow (Work G I N) (List String)
  records_saved (unpin, none, t) s = next unpin (record s { db = t })
  records_saved (unpin, some e, t) s = stop (record s { db = t })

  unfoldable pub save_graph : List I.Cid → Work G I N → Flow (Work G I N) (List String)
  unfolding save_body update
  save_graph graph s = records_saved (update G (save_body G I (I.pretty s.job.peer) graph) s.db) s

  abbrev pub api_opened : Option GoError → Work G I N → Flow (Work G I N) Unit
  api_opened none s = next tt s
  api_opened (some e) s = stop s

  -- coreapi.NewCoreAPI, here with a plain return on its error
  abbrev pub open_api : I.Node → Work G I N → Flow (Work G I N) Unit
  open_api n s = api_opened (I.core_api n) s

  -- The error of Add is only logged.
  unfoldable pub pin_root : Setup I → I.Node → I.Cid → Work G I N → Flow (Work G I N) Unit
  pin_root c n root s =
      if c.pin_files
      then next tt (record s {
        world = (N.pin_add n root s.world).1;
        events = s.events ++ pinned n root ∷ [];
      })
      else next tt s

  abbrev pub unpin_events : List (I.Node × I.Cid) → List (Event I N.Profile N.Listing)
  unpin_events = map (λ (n, c). unpinned n c)

  unfoldable pub unpin_texts : Setup I → List String → List (I.Node × I.Cid)
  unfolding unpin_cid
  unpin_texts c [] = []
  unpin_texts c (t ∷ ts) = elim (I.decode_cid t) [
    | err e ↦ unpin_texts c ts
    | ok id ↦ (unpin_cid G I c.nodes id).0 ++ unpin_texts c ts
  ]

  unfoldable pub unpin_all : Setup I → List String → Work G I N → Flow (Work G I N) Unit
  unfolding unpin_texts
  unpin_all c ts s = next tt (record s { events = s.events ++ unpin_events (unpin_texts c ts) })

  -- The body, from its start to its end.
  unfoldable pub job_body : Setup I → I.Node → Work G I N → Flow (Work G I N) Unit
  unfolding refresh root_cid load_root find_link crawl_profile crawl_listings cached_graph
      whole_graph save_graph pin_root unpin_all
  job_body c n = do
    _ ← refresh G I N n c.quorum
    root ← root_cid G I N
    nd ← load_root G I N n root
    profile ← find_link G I N nd "profile.json"
    listings ← find_link G I N nd "listings.json"
    _ ← crawl_profile G I N n profile
    found ← crawl_listings G I N n listings
    graph ← cached_graph c n root
    unpin ← save_graph (whole_graph graph root profile listings found)
    _ ← open_api n
    _ ← pin_root c n root
    unpin_all c unpin

  -- The row that the deferred function saves. A missing row is the zero value, with no key.
  abbrev pub crawled : Job I → ℕ → ℕ → Option Peer → Peer
  crawled j crawled_at pinned_at found = record (or_blank found) {
    last_crawled = crawled_at;
    last_pinned = if j.pin_record then pinned_at else (or_blank found).last_pinned;
  }

  unfoldable pub crawled_body : Job I → ℕ → ℕ → G.State → Outcome G.State (Unit {0})
  unfolding load_peer save_last
  crawled_body j crawled_at pinned_at s = elim (load_peer G (I.pretty j.peer) s) [
    | err e ↦ (tt, some e, s)
    | ok found ↦ save_last G tt (crawled j crawled_at pinned_at found) s
  ]

  -- Pin the IPNS record if requested; the error is only logged.
  abbrev pub record_pinned : I.Node → Option I.Entry → Work G I N → Work G I N
  record_pinned n none s = s
  record_pinned n (some rec) s = record s {
    world = (N.put_record n rec s.world).1;
    events = s.events ++ record_put n rec ∷ [];
  }

  unfoldable pub put_back : I.Node → Work G I N → Work G I N
  put_back n s = if s.job.pin_record then record_pinned n s.job.ipns_record s else s

  -- The first deferred function, which runs last.
  unfoldable pub finish_job : I.Node → ℕ → ℕ → Work G I N → Work G I N
  unfolding put_back crawled_body update
  finish_job n crawled_at pinned_at s =
      let s' = put_back n s in
      record s' { db = (update G (crawled_body s'.job crawled_at pinned_at) s'.db).2 }

  -- The deferred notifications, the last one first, where each of them returns.
  unfoldable pub notify_all : Work G I N → Work G I N
  notify_all s = record s { deferred = []; events = s.events ++ map notified s.deferred }

  unfoldable pub run_deferred : I.Node → ℕ → ℕ → Work G I N → Work G I N
  unfolding notify_all finish_job
  run_deferred n crawled_at pinned_at s = finish_job n crawled_at pinned_at (notify_all s)

  -- Whether each deferred notification returns: notifySubscribers waits for its subscribers.
  abbrev pub all_received : List (Object N.Profile N.Listing) → N.World → Bool
  all_received [] w = true
  all_received (o ∷ os) w = N.received (length os) w && all_received os w

  abbrev pub deferred_done : I.Node → ℕ → ℕ → Work G I N → Option (Work G I N)
  deferred_done n crawled_at pinned_at t =
      if all_received t.deferred t.world then some (run_deferred n crawled_at pinned_at t) else none

  -- processJob on the node that it has picked; none when it never returns.
  abbrev pub body_done : I.Node → ℕ → ℕ → Flow (Work G I N) Unit → Option (Work G I N)
  body_done n crawled_at pinned_at (next _ t) = deferred_done n crawled_at pinned_at t
  body_done n crawled_at pinned_at (stop t) = deferred_done n crawled_at pinned_at t
  body_done n crawled_at pinned_at halted = none

  abbrev pub start_work : Job I → N.World → G.State → Work G I N
  start_work j w s = record { job = j; deferred = []; world = w; db = s; events = [] }

  unfoldable pub process_job :
      Setup I → I.Node → ℕ → ℕ → Job I → N.World → G.State → Option (Work G I N)
  unfolding job_body run_deferred
  process_job c n crawled_at pinned_at j w s =
      body_done n crawled_at pinned_at (job_body c n (start_work j w s))
