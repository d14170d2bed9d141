-- ===== src/Crawler/Worker/Defs.antt =====
-- The state of a worker and the steps of its body, up to the fetched listings.
use obcrawler.Base.{
  ℕ, String, Bool, true, false, ◌||◌, Option, none, some, List, [], ◌∷◌, if◌then◌else◌, ◌==◌, ◌&&◌,
}
use obcrawler.Go.{message, Result, ok, err}
use obcrawler.Ipfs.{Ipfs, Job}
use obcrawler.Repo.Gorm.{Gorm}
use obcrawler.Crawler.Network.{
  Network, Link, link_to, link_missing, link_failed, Called, returned, stuck,
}
use obcrawler.Crawler.Graph.{dag_get}

-- rpc.Object, for the two kinds of data that the worker sends.
pub data Payload (P L : Type 0) : Type 0 where
  profile : P → Payload P L
  listing : L → Payload P L

pub record Object (P L : Type 0) : Type 0 where
  pub payload : Payload P L
  pub expiration_date : ℕ

-- The calls that leave the process: a notification of the subscribers, the pinning of an IPNS
-- record, and the pinning and unpinning of files on a node.
pub data Event (I : Ipfs) (P L : Type 0) : Type 0 where
  notified : Object P L → Event I P L
  record_put : I.Node → I.Entry → Event I P L
  pinned : I.Node → I.Cid → Event I P L
  unpinned : I.Node → I.Cid → Event I P L

pub record Work (G : Gorm) (I : Ipfs) (N : Network I) : Type 0 where
  pub job : Job I
  pub deferred : List (Object N.Profile N.Listing)
  pub world : N.World
  pub db : G.State
  pub events : List (Event I N.Profile N.Listing)

pub data Flow (S A : Type 0) : Type 0 where
  next : A → S → Flow S A
  stop : S → Flow S A
  halted : Flow S A

module _ {S A B : Type 0} where
  abbrev pub continue : Flow S A → (A → S → Flow S B) → Flow S B
  continue (next a s) f = f a s
  continue (stop s) f = stop s
  continue halted f = halted

  infixl 10 ◌>>=◌
  abbrev pub ◌>>=◌ : (S → Flow S A) → (A → S → Flow S B) → S → Flow S B
  ◌>>=◌ m f s = continue (m s) f

-- bytes.Equal
abbrev pub bytes_equal : List ℕ → List ℕ → Bool
bytes_equal [] [] = true
bytes_equal (x ∷ xs) (y ∷ ys) = x == y && bytes_equal xs ys
bytes_equal _ _ = false

module _ (G : Gorm) (I : Ipfs) (N : Network I) where
  -- rec := new(ipnspb.IpnsEntry), and the checks of fetchIPNSRecord after the value has come
  unfoldable pub check_entry : I.PeerId → List ℕ → Result I.Entry
  check_entry pid val = elim (I.unmarshal_entry val) [
    | err e ↦ err e
    | ok rec ↦ elim (I.extract_public_key pid) [
      | err e ↦ err e
      | ok key ↦ elim (I.validate key rec) [ err e ↦ err e | ok _ ↦ ok rec ]
    ]
  ]

  unfoldable pub fetch_ipns_record : I.Node → I.PeerId → ℕ → N.World → Result I.Entry × N.World
  unfolding check_entry
  fetch_ipns_record n pid quorum w =
      let (r, w') = N.get_value n pid quorum w in
      elim r [ err e ↦ (err e, w') | ok val ↦ (check_entry pid val, w') ]

  -- As `dag_get`: a failing NewCoreAPI leaves the function at its deferred send for good, and so does
  -- a shutdown that has ended the receiver of that send.
  unfoldable pub cat : I.Node → I.Cid → N.World → Called N.World (Result (List ℕ))
  cat n c w = elim (I.core_api n) [
    | some e ↦ stuck
    | none ↦
        let (r, w') = N.unixfs_get n c w in
        if N.stranded w' then stuck else elim r [
          | err e ↦ returned (err e) w'
          | ok none ↦ returned (err (message "incorrect type from Unixfs().Get()")) w'
          | ok (some bytes) ↦ returned bytes w'
        ]
  ]

  -- job.IPNSRecord.GetValue(), which is nil for a nil record
  abbrev pub value_of : Option I.Entry → List ℕ
  value_of none = []
  value_of (some rec) = I.entry_value rec

  abbrev pub is_nil : {A : Type 0} → Option A → Bool
  is_nil none = true
  is_nil (some a) = false

  -- job.IPNSRecord != nil && bytes.Equal(rec.GetValue(), job.IPNSRecord.Value)
  abbrev pub unchanged : Option I.Entry → I.Entry → Bool
  unchanged none rec = false
  unchanged (some old) rec = bytes_equal (I.entry_value rec) (I.entry_value old)

  -- A new record that differs from the job's is the job's from here on, also where its end of
  -- life cannot be read.
  abbrev pub take_record : I.Entry → Result ℕ → Work G I N → Flow (Work G I N) Unit
  take_record rec (err e) s = stop (record s { job = record s.job { ipns_record = some rec } })
  take_record rec (ok eol) s =
      next tt (record s { job = record s.job { ipns_record = some rec; expiration = eol } })

  abbrev pub refreshed : Result I.Entry → Work G I N → Flow (Work G I N) Unit
  refreshed (err e) s = stop s
  refreshed (ok rec) s =
      if unchanged s.job.ipns_record rec then stop s else take_record rec (I.get_eol rec) s

  -- The first part: fetch the record if the job asks for it or has none.
  unfoldable pub refresh : I.Node → ℕ → Work G I N → Flow (Work G I N) Unit
  unfolding fetch_ipns_record
  refresh n quorum s =
      if s.job.fetch_new_record || is_nil s.job.ipns_record
      then (let (r, w) = fetch_ipns_record n s.job.peer quorum s.world in
          refreshed r (record s { world = w }))
      else next tt s

  abbrev pub or_return : {A : Type 0} → Result A → Work G I N → Flow (Work G I N) A
  or_return (err e) s = stop s
  or_return (ok a) s = next a s

  unfoldable pub root_cid : Work G I N → Flow (Work G I N) I.Cid
  root_cid s = or_return (I.decode_cid (I.bytes_string (value_of s.job.ipns_record))) s

  abbrev pub root_loaded :
      Called N.World (Result N.DagNode) → Work G I N → Flow (Work G I N) N.DagNode
  root_loaded stuck s = halted
  root_loaded (returned r w) s = or_return r (record s { world = w })

  unfoldable pub load_root : I.Node → I.Cid → Work G I N → Flow (Work G I N) N.DagNode
  unfolding dag_get
  load_root n c s = root_loaded (dag_get I N n c s.world) s

  -- A link that is not there is nil.
  abbrev pub linked : Link I → Work G I N → Flow (Work G I N) (Option I.Cid)
  linked (link_to c) s = next (some c) s
  linked link_missing s = next none s
  linked (link_failed e) s = stop s

  unfoldable pub find_link : N.DagNode → String → Work G I N → Flow (Work G I N) (Option I.Cid)
  find_link nd name s = linked (N.resolve_link nd name) s

  abbrev pub defer_notice : Payload N.Profile N.Listing → Work G I N → Work G I N
  defer_notice p s = record s {
    deferred = record { payload = p; expiration_date = s.job.expiration } ∷ s.deferred;
  }

  abbrev pub profile_parsed : Result N.Profile → Work G I N → Flow (Work G I N) Unit
  profile_parsed (err e) s = next tt s
  profile_parsed (ok p) s = next tt (defer_notice (profile p) s)

  abbrev pub profile_read : Called N.World (Result (List ℕ)) → Work G I N → Flow (Work G I N) Unit
  profile_read stuck s = halted
  profile_read (returned (err e) w) s = next tt (record s { world = w })
  profile_read (returned (ok bytes) w) s =
      profile_parsed (N.parse_profile bytes) (record s { world = w })

  -- Errors of the profile are passed over.
  unfoldable pub crawl_profile : I.Node → Option I.Cid → Work G I N → Flow (Work G I N) Unit
  unfolding cat
  crawl_profile n none s = next tt s
  crawl_profile n (some c) s = profile_read (cat n c s.world) s

  -- A listing that was found is deferred; one that was not is only logged.
  abbrev pub listing_loaded : Result N.Listing × N.World → Work G I N → Work G I N
  listing_loaded (err e, w) s = record s { world = w }
  listing_loaded (ok l, w) s = defer_notice (listing l) (record s { world = w })

  -- The loop over the index: the CIDs that decode, whether or not their listings were found.
  unfoldable pub crawl_index : I.Node → List String → Work G I N → List String × Work G I N
  crawl_index n [] s = ([], s)
  crawl_index n (text ∷ index) s =
      let skip = crawl_index n index s in
      elim (I.decode_cid text) [
        | err e ↦ skip
        | ok c ↦
            let (found, t) = crawl_index n index (listing_loaded (N.get_listing n c s.world) s) in
            (text ∷ found, t)
      ]

  abbrev pub index_parsed :
      I.Node → Result (List String) → Work G I N → Flow (Work G I N) (List String)
  index_parsed n (err e) s = next [] s
  index_parsed n (ok index) s = let (found, t) = crawl_index n index s in next found t

  abbrev pub index_read :
      I.Node → Called N.World (Result (List ℕ)) → Work G I N → Flow (Work G I N) (List String)
  index_read n stuck s = halted
  index_read n (returned (err e) w) s = next [] (record s { world = w })
  index_read n (returned (ok bytes) w) s =
      index_parsed n (N.parse_index bytes) (record s { world = w })

  unfoldable pub crawl_listings :
      I.Node → Option I.Cid → Work G I N → Flow (Work G I N) (List String)
  unfolding cat crawl_index
  crawl_listings n none s = next [] s
  crawl_listings n (some c) s = index_read n (cat n c s.world) s
