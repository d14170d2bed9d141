-- ===== src/Crawler/Worker/Front.antt =====
-- The part of processJob before its transaction: what it leaves alone, and what it defers.
use obcrawler.Base.{
  ℕ, String, ◌≡◌, refl, ◌||◌, Option, none, some, List, [], ◌∷◌, All, Bool-cases, inl, inr, ◌⊎◌,
}
use obcrawler.Go.{Result, ok, err, Result-cases}
use obcrawler.Ipfs.{Ipfs, Job}
use obcrawler.Repo.Gorm.{Gorm}
use obcrawler.Crawler.Network.{
  Network, Link, link_to, link_missing, link_failed, Called, returned, stuck,
}
use obcrawler.Crawler.Graph.{dag_get, fetch_graph, Fetched}
use obcrawler.Crawler.Worker.Defs.{
  Object, Payload, profile, listing, Work, Flow, refresh, take_record, fetch_ipns_record, unchanged,
  is_nil, root_cid, load_root, find_link, cat, crawl_profile, crawl_index, crawl_listings,
  defer_notice, refreshed, or_return, root_loaded, linked, profile_parsed, profile_read,
  listing_loaded, index_parsed, index_read,
}
use obcrawler.Crawler.Worker.Run.{Setup, cached_graph, graph_fetched}
use obcrawler.Crawler.Worker.Triple.{Triple, Ends}

module _ (G : Gorm) (I : Ipfs) (N : Network I) (j : Job I) (db : G.State) where
  abbrev pub Timely : ℕ → List (Object N.Profile N.Listing) → Type 0
  Timely t os = All (λ o. o.expiration_date ≡ t) os

  -- The expiration of a job belongs to its record: both are those that it was queued with, or the
  -- record was fetched and its end of life is the expiration.
  abbrev pub Dated : Job I → Type 0
  Dated k =
      ((k.ipns_record ≡ j.ipns_record) × (k.expiration ≡ j.expiration))
      ⊎ ((rec : I.Entry) × (k.ipns_record ≡ some rec) × (I.get_eol rec ≡ ok k.expiration))

  -- A state in which the body may end before it has deferred a notice.
  pub record Unsent (s : Work G I N) : Type 0 where
    pub same_db : s.db ≡ db
    pub quiet : s.events ≡ []
    pub same_peer : s.job.peer ≡ j.peer
    pub same_pin : s.job.pin_record ≡ j.pin_record
    pub nothing_deferred : s.deferred ≡ []

  pub record Front (s : Work G I N) : Type 0 where
    pub same_db : s.db ≡ db
    pub quiet : s.events ≡ []
    pub same_peer : s.job.peer ≡ j.peer
    pub same_pin : s.job.pin_record ≡ j.pin_record
    pub timely : Timely s.job.expiration s.deferred
    pub dated : Dated s.job

  pub record Start (s : Work G I N) : Type 0 where
    pub front : Front s
    pub nothing_deferred : s.deferred ≡ []

  -- A part that goes on only where these still hold, and returns only there.
  abbrev pub KeepsFront : {A : Type 0} → (Work G I N → Flow (Work G I N) A) → Type 0
  KeepsFront m = Triple Front m (λ a s. Front s) Front

  Front-world : (s : Work G I N) (w : N.World) → Front s → Front (record s { world = w })
  Front-world s w p = record {
    same_db = p.same_db;
    quiet = p.quiet;
    same_peer = p.same_peer;
    same_pin = p.same_pin;
    timely = p.timely;
    dated = p.dated;
  }

  Start-Unsent : (s : Work G I N) → Start s → Unsent s
  Start-Unsent s p = record {
    same_db = p.front.same_db;
    quiet = p.front.quiet;
    same_peer = p.front.same_peer;
    same_pin = p.front.same_pin;
    nothing_deferred = p.nothing_deferred;
  }

  -- What a fetched record does to a state whose job has nothing deferred yet.
  take_record-Front :
      (rec : I.Entry) (eol : Result ℕ) (s : Work G I N)
      → I.get_eol rec ≡ eol
      → Start s
      → Ends (λ a t. Front t) Unsent (take_record G I N rec eol s)
  take_record-Front rec (err e) s h p = record {
    same_db = p.front.same_db;
    quiet = p.front.quiet;
    same_peer = p.front.same_peer;
    same_pin = p.front.same_pin;
    nothing_deferred = p.nothing_deferred;
  }
  take_record-Front rec (ok eol) s h p = record {
    same_db = p.front.same_db;
    quiet = p.front.quiet;
    same_peer = p.front.same_peer;
    same_pin = p.front.same_pin;
    timely = rw p.nothing_deferred tt;
    dated = inr (rec, refl, h);
  }

  Start-world : (s : Work G I N) (w : N.World) → Start s → Start (record s { world = w })
  Start-world s w p = record {
    front = Front-world s w p.front;
    nothing_deferred = p.nothing_deferred;
  }

  refreshed-Front :
      (r : Result I.Entry) (s : Work G I N)
      → Start s
      → Ends (λ a t. Front t) Unsent (refreshed G I N r s)
  refreshed-Front (err e) s p = Start-Unsent s p
  refreshed-Front (ok rec) s p = elim (Bool-cases (unchanged G I N s.job.ipns_record rec)) [
    | inl same_value ↦ rw same_value (Start-Unsent s p)
    | inr new ↦ rw new (take_record-Front rec (I.get_eol rec) s refl p)
  ]

  pub refresh-Front :
      (n : I.Node) (q : ℕ) → Triple Start (refresh G I N n q) (λ a s. Front s) Unsent
  unfolding refresh
  refresh-Front n q = record {
    at = λ s p. elim (Bool-cases (s.job.fetch_new_record || is_nil G I N s.job.ipns_record)) [
      | inl fetch ↦ rw fetch (
          refreshed-Front (fetch_ipns_record G I N n s.job.peer q s.world).0
            (record s { world = (fetch_ipns_record G I N n s.job.peer q s.world).1 })
            (Start-world s (fetch_ipns_record G I N n s.job.peer q s.world).1 p))
      | inr keep ↦ rw keep p.front
    ];
  }

  or_return-Front :
      {A : Type 0} (r : Result A) (s : Work G I N)
      → Front s
      → Ends (λ a t. Front t) Front (or_return G I N r s)
  or_return-Front (err e) s p = p
  or_return-Front (ok a) s p = p

  pub root_cid-front : KeepsFront (root_cid G I N)
  unfolding root_cid
  root_cid-front = record { at = λ s p. or_return-Front _ s p }

  root_loaded-Front :
      (r : Called N.World (Result N.DagNode)) (s : Work G I N)
      → Front s
      → Ends (λ a t. Front t) Front (root_loaded G I N r s)
  root_loaded-Front stuck s p = tt
  root_loaded-Front (returned r w) s p =
      or_return-Front r (record s { world = w }) (Front-world s w p)

  pub load_root-front : (n : I.Node) (c : I.Cid) → KeepsFront (load_root G I N n c)
  unfolding load_root
  load_root-front n c = record { at = λ s p. root_loaded-Front (dag_get I N n c s.world) s p }

  linked-Front :
      (l : Link I) (s : Work G I N) → Front s → Ends (λ a t. Front t) Front (linked G I N l s)
  linked-Front (link_to c) s p = p
  linked-Front link_missing s p = p
  linked-Front (link_failed e) s p = p

  pub find_link-front : (nd : N.DagNode) (name : String) → KeepsFront (find_link G I N nd name)
  unfolding find_link
  find_link-front nd name = record { at = λ s p. linked-Front (N.resolve_link nd name) s p }

  defer_notice-Front :
      (x : Payload N.Profile N.Listing) (s : Work G I N) → Front s → Front (defer_notice G I N x s)
  defer_notice-Front x s p = record {
    same_db = p.same_db;
    quiet = p.quiet;
    same_peer = p.same_peer;
    same_pin = p.same_pin;
    timely = (refl, p.timely);
    dated = p.dated;
  }

  profile_parsed-Front :
      (r : Result N.Profile) (s : Work G I N)
      → Front s
      → Ends (λ a t. Front t) Front (profile_parsed G I N r s)
  profile_parsed-Front (err e) s p = p
  profile_parsed-Front (ok x) s p = defer_notice-Front (profile x) s p

  profile_read-Front :
      (r : Called N.World (Result (List ℕ))) (s : Work G I N)
      → Front s
      → Ends (λ a t. Front t) Front (profile_read G I N r s)
  profile_read-Front stuck s p = tt
  profile_read-Front (returned (err e) w) s p = Front-world s w p
  profile_read-Front (returned (ok bytes) w) s p =
      profile_parsed-Front (N.parse_profile bytes) (record s { world = w }) (Front-world s w p)

  pub crawl_profile-front : (n : I.Node) (o : Option I.Cid) → KeepsFront (crawl_profile G I N n o)
  unfolding crawl_profile
  crawl_profile-front n none = record { at = λ s p. p }
  crawl_profile-front n (some c) = record {
    at = λ s p. profile_read-Front (cat G I N n c s.world) s p;
  }

  listing_loaded-Front :
      (r : Result N.Listing × N.World) (s : Work G I N) → Front s → Front (listing_loaded G I N r s)
  listing_loaded-Front (err e, w) s p = Front-world s w p
  listing_loaded-Front (ok l, w) s p =
      defer_notice-Front (listing l) (record s { world = w }) (Front-world s w p)

  crawl_index-Front :
      (n : I.Node) (index : List String) (s : Work G I N)
      → Front s
      → Front (crawl_index G I N n index s).1
  unfolding crawl_index
  crawl_index-Front n [] s p = p
  crawl_index-Front n (text ∷ index) s p = elim (Result-cases (I.decode_cid text)) [
    | inl (c, e) ↦
        rw (e, crawl_index)
          (crawl_index-Front n index (listing_loaded G I N (N.get_listing n c s.world) s)
            (listing_loaded-Front (N.get_listing n c s.world) s p))
    | inr (x, e) ↦ rw (e, crawl_index) (crawl_index-Front n index s p)
  ]

  index_parsed-Front :
      (n : I.Node) (r : Result (List String)) (s : Work G I N)
      → Front s
      → Ends (λ a t. Front t) Front (index_parsed G I N n r s)
  index_parsed-Front n (err e) s p = p
  index_parsed-Front n (ok index) s p = crawl_index-Front n index s p

  index_read-Front :
      (n : I.Node) (r : Called N.World (Result (List ℕ))) (s : Work G I N)
      → Front s
      → Ends (λ a t. Front t) Front (index_read G I N n r s)
  index_read-Front n stuck s p = tt
  index_read-Front n (returned (err e) w) s p = Front-world s w p
  index_read-Front n (returned (ok bytes) w) s p =
      index_parsed-Front n (N.parse_index bytes) (record s { world = w }) (Front-world s w p)

  pub crawl_listings-front : (n : I.Node) (o : Option I.Cid) → KeepsFront (crawl_listings G I N n o)
  unfolding crawl_listings
  crawl_listings-front n none = record { at = λ s p. p }
  crawl_listings-front n (some c) = record {
    at = λ s p. index_read-Front n (cat G I N n c s.world) s p;
  }

  graph_fetched-Front :
      (r : Fetched I N) (s : Work G I N)
      → Front s
      → Ends (λ a t. Front t) Front (graph_fetched G I N r s)
  graph_fetched-Front none s p = tt
  graph_fetched-Front (some stuck) s p = tt
  graph_fetched-Front (some (returned (ret, e) w)) s p = Front-world s w p

  pub cached_graph-front :
      (c : Setup I) (n : I.Node) (root : I.Cid) → KeepsFront (cached_graph G I N c n root)
  unfolding cached_graph
  cached_graph-front c n root = record {
    at = λ s p. elim (Bool-cases c.cache_data) [
      | inl on ↦
          rw on (graph_fetched-Front (fetch_graph I N c.picks (c.fuel root) n root s.world) s p)
      | inr off ↦ rw off p
    ];
  }
