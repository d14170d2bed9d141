-- ===== src/Crawler/Worker/Returns.antt =====
-- Which parts of processJob get past their calls.
pub mod Flows
use obcrawler.Base.{
  refl, ℕ, zero, suc, Bool, true, false, if◌then◌else◌, ◌<◌, ◌≤◌, String, ◌≡◌, ◌≢◌, Option, none,
  some, List, [], ◌∷◌, ◌++◌, map, length, arith, inl, inr,
}
use obcrawler.Go.{Result, ok, err, Result-cases}
use obcrawler.Ipfs.{Ipfs, Job, DecodesCids}
use obcrawler.Repo.Gorm.{Gorm}
use obcrawler.Repo.Database.{Outcome}
use obcrawler.Crawler.Network.{
  Network, Link, link_to, link_missing, link_failed, Called, returned, stuck, Called-cases,
}
use obcrawler.Crawler.Graph.{dag_get, fetch_loop, fetch_graph, take_out, insert_links, Fetched}
use obcrawler.Crawler.Graph.Keys.{total}
use obcrawler.Crawler.Graph.Reach.{Fixed}
use obcrawler.Crawler.Graph.Closed.{fetch_graph-ends}
use obcrawler.Crawler.Worker.Defs.{
  Object, Work, Flow, next, stop, halted, continue, ◌>>=◌, cat, fetch_ipns_record, take_record,
  refreshed, refresh, or_return, root_cid, root_loaded, load_root, linked, find_link,
  profile_parsed, profile_read, crawl_profile, index_parsed, index_read, crawl_listings,
}
use obcrawler.Crawler.Worker.Run.{
  Setup, graph_fetched, cached_graph, records_saved, save_graph, open_api, pin_root, unpin_all,
  job_body, body_done, all_received, start_work, process_job,
}
use obcrawler.Crawler.Worker.Returns.Flows.{
  Moves, if_Moves, Proceeds, continue-Moves, bind-Proceeds, dag_get-returned, fetch_loop-returned,
  fetch_graph-returned,
}

module _ (G : Gorm) (I : Ipfs) (N : Network I) where
  take_record-Moves :
      (rec : I.Entry) (r : Result ℕ) (s : Work G I N) → Moves (take_record G I N rec r s)
  take_record-Moves rec (ok t) s = tt
  take_record-Moves rec (err e) s = tt

  refreshed-Moves : (r : Result I.Entry) (s : Work G I N) → Moves (refreshed G I N r s)
  refreshed-Moves (err e) s = tt
  refreshed-Moves (ok rec) s = if_Moves _ (stop s) _ tt (take_record-Moves rec (I.get_eol rec) s)

  refresh-Moves : (n : I.Node) (quorum : ℕ) (s : Work G I N) → Moves (refresh G I N n quorum s)
  unfolding refresh
  refresh-Moves n quorum s =
      if_Moves _ _ (next tt s)
        (refreshed-Moves (fetch_ipns_record G I N n s.job.peer quorum s.world).0 _) tt

  or_return-Moves : {A : Type 0} (r : Result A) (s : Work G I N) → Moves (or_return G I N r s)
  or_return-Moves (ok a) s = tt
  or_return-Moves (err e) s = tt

  linked-Moves : (l : Link I) (s : Work G I N) → Moves (linked G I N l s)
  linked-Moves (link_to c) s = tt
  linked-Moves link_missing s = tt
  linked-Moves (link_failed e) s = tt

  profile_parsed-Moves : (r : Result N.Profile) (s : Work G I N) → Moves (profile_parsed G I N r s)
  profile_parsed-Moves (ok p) s = tt
  profile_parsed-Moves (err e) s = tt

  index_parsed-Moves :
      (n : I.Node) (r : Result (List String)) (s : Work G I N) → Moves (index_parsed G I N n r s)
  index_parsed-Moves n (ok index) s = tt
  index_parsed-Moves n (err e) s = tt

  records_saved-Moves :
      (r : Outcome G.State (List String)) (s : Work G I N) → Moves (records_saved G I N r s)
  records_saved-Moves (unpin, none, t) s = tt
  records_saved-Moves (unpin, some e, t) s = tt

  module _ (n : I.Node) (healthy : I.core_api n ≡ none)
      (served : (w : N.World) → N.stranded w ≡ false) where
    root_loaded-Moves :
        (r : Called N.World (Result N.DagNode)) (s : Work G I N)
        → r ≢ stuck
        → Moves (root_loaded G I N r s)
    root_loaded-Moves stuck s h = absurd (h refl)
    root_loaded-Moves (returned r w) s h = or_return-Moves r _

    profile_read-Moves :
        (r : Called N.World (Result (List ℕ))) (s : Work G I N)
        → r ≢ stuck
        → Moves (profile_read G I N r s)
    profile_read-Moves stuck s h = absurd (h refl)
    profile_read-Moves (returned (err e) w) s h = tt
    profile_read-Moves (returned (ok bytes) w) s h = profile_parsed-Moves (N.parse_profile bytes) _

    index_read-Moves :
        (r : Called N.World (Result (List ℕ))) (s : Work G I N)
        → r ≢ stuck
        → Moves (index_read G I N n r s)
    index_read-Moves stuck s h = absurd (h refl)
    index_read-Moves (returned (err e) w) s h = tt
    index_read-Moves (returned (ok bytes) w) s h = index_parsed-Moves n (N.parse_index bytes) _

    cat-returned : (c : I.Cid) (w : N.World) → cat G I N n c w ≢ stuck
    unfolding cat
    cat-returned c w = ground (arith, served (N.unixfs_get n c w).1)

    load_root-Moves : (c : I.Cid) (s : Work G I N) → Moves (load_root G I N n c s)
    unfolding load_root
    load_root-Moves c s =
        root_loaded-Moves (dag_get I N n c s.world) s
          (dag_get-returned I N (λ k. 0) n healthy served c s.world)

    crawl_profile-Moves : (o : Option I.Cid) (s : Work G I N) → Moves (crawl_profile G I N n o s)
    unfolding crawl_profile
    crawl_profile-Moves none s = tt
    crawl_profile-Moves (some c) s =
        profile_read-Moves (cat G I N n c s.world) s (cat-returned c s.world)

    crawl_listings-Moves : (o : Option I.Cid) (s : Work G I N) → Moves (crawl_listings G I N n o s)
    unfolding crawl_listings
    crawl_listings-Moves none s = tt
    crawl_listings-Moves (some c) s =
        index_read-Moves (cat G I N n c s.world) s (cat-returned c s.world)

    graph_fetched-Moves :
        (r : Fetched I N) (s : Work G I N)
        → r ≢ none
        → r ≢ some stuck
        → Moves (graph_fetched G I N r s)
    graph_fetched-Moves none s h k = absurd (h refl)
    graph_fetched-Moves (some stuck) s h k = absurd (k refl)
    graph_fetched-Moves (some (returned (ret, e) w)) s h k = tt

    open_api-Moves : (s : Work G I N) → Moves (open_api G I N n s)
    open_api-Moves s = rw healthy tt

    pin_root-Moves :
        (c : Setup I) (root : I.Cid) (s : Work G I N) → Moves (pin_root G I N c n root s)
    unfolding pin_root
    pin_root-Moves c root s = if_Moves _ (next tt _) (next tt s) tt tt

    module _ (c : Setup I)
        (ends : (root : I.Cid) (w : N.World)
          → fetch_graph I N c.picks (c.fuel root) n root w ≢ none) where
      cached_graph-Moves : (root : I.Cid) (s : Work G I N) → Moves (cached_graph G I N c n root s)
      unfolding cached_graph
      cached_graph-Moves root s =
          if_Moves c.cache_data _ (next [] s)
            (graph_fetched-Moves (fetch_graph I N c.picks (c.fuel root) n root s.world) s
              (ends root s.world)
              (fetch_graph-returned I N c.picks n healthy served (c.fuel root) root s.world))
            tt

      root_cid-Proceeds : Proceeds (root_cid G I N)
      unfolding root_cid
      root_cid-Proceeds = record { at = λ s. or_return-Moves _ s }

      find_link-Proceeds : (nd : N.DagNode) (name : String) → Proceeds (find_link G I N nd name)
      unfolding find_link
      find_link-Proceeds nd name = record { at = λ s. linked-Moves (N.resolve_link nd name) s }

      save_graph-Proceeds : (graph : List I.Cid) → Proceeds (save_graph G I N graph)
      unfolding save_graph
      save_graph-Proceeds graph = record { at = λ s. records_saved-Moves _ s }

      unpin_all-Proceeds : (ts : List String) → Proceeds (unpin_all G I N c ts)
      unfolding unpin_all
      unpin_all-Proceeds ts = record { at = λ s. tt }

      job_body-Proceeds : Proceeds (job_body G I N c n)
      unfolding job_body
      job_body-Proceeds =
          bind-Proceeds _ _ (record { at = refresh-Moves n c.quorum })
            λ _. bind-Proceeds _ _ root_cid-Proceeds λ root.
              bind-Proceeds _ _ (record { at = load_root-Moves root })
                λ nd. bind-Proceeds _ _ (find_link-Proceeds nd "profile.json") λ profile.
                  bind-Proceeds _ _ (find_link-Proceeds nd "listings.json") λ listings.
                    bind-Proceeds _ _ (record { at = crawl_profile-Moves profile })
                      λ _.
                        bind-Proceeds _ _ (record { at = crawl_listings-Moves listings })
                          λ found.
                            bind-Proceeds _ _ (record { at = cached_graph-Moves root })
                              λ graph. bind-Proceeds _ _ (save_graph-Proceeds _) λ unpin.
                                bind-Proceeds _ _ (record { at = open_api-Moves })
                                  λ _.
                                    bind-Proceeds _ _ (record { at = pin_root-Moves c root })
                                      λ _. unpin_all-Proceeds unpin

  received_by_all :
      (os : List (Object N.Profile N.Listing)) (w : N.World)
      → ((k : ℕ) (v : N.World) → N.received k v ≡ true)
      → all_received G I N os w ≡ true
  received_by_all [] w hears = refl
  received_by_all (o ∷ os) w hears = ground (arith, hears (length os) w, received_by_all os w hears)

  body_done-some :
      (n : I.Node) (ca pa : ℕ) (r : Flow (Work G I N) Unit)
      → ((k : ℕ) (w : N.World) → N.received k w ≡ true)
      → Moves r
      → body_done G I N n ca pa r ≢ none
  body_done-some n ca pa (next _ t) hears h =
      rw (received_by_all t.deferred t.world hears) (λ p. cc)
  body_done-some n ca pa (stop t) hears h = rw (received_by_all t.deferred t.world hears) (λ p. cc)
  body_done-some n ca pa halted hears h = absurd h

  -- Where the node's core API works, shutdown strands no call, every notification is received by
  -- all subscribers, a CID determines its links, decoding undoes printing, and no CID leads back to
  -- itself, so that each has a number above the sum of those of its links, a crawl returns if its
  -- fuel for a root is at least the root's number.
  pub process_job-returns :
      (children : I.Cid → List I.Cid) (weight : String → ℕ) (c : Setup I) (n : I.Node) (ca pa : ℕ)
      (j : Job I) (w : N.World) (db : G.State)
      → Fixed I N children
      → DecodesCids I
      → I.core_api n ≡ none
      → ((v : N.World) → N.stranded v ≡ false)
      → ((k : ℕ) (v : N.World) → N.received k v ≡ true)
      → ((d : I.Cid) → total weight (map I.cid_string (children d)) < weight (I.cid_string d))
      → ((d : I.Cid) → weight (I.cid_string d) ≤ c.fuel d)
      → process_job G I N c n ca pa j w db ≢ none
  unfolding process_job
  process_job-returns children weight c n ca pa j w db fixed dec healthy served hears falls enough =
      body_done-some n ca pa _ hears (
        (job_body-Proceeds n healthy served c (λ root v.
            fetch_graph-ends I N children fixed dec c.picks n root weight falls (c.fuel root) v
              (enough root))).at
          (start_work G I N j w db))
