-- ===== src/Crawler/Network.antt =====
-- What a crawl asks of the network: calls into the IPFS libraries whose answers depend on the
-- world outside, and change it. `World` is that world.
use obcrawler.Base.{ℕ, String, Bool, Option, List, ◌≡◌, refl, ◌⊎◌, inl, inr}
use obcrawler.Go.{GoError, Result}
use obcrawler.Ipfs.{Ipfs}

-- The link and the error of nd.ResolveLink; `link_missing` is merkledag.ErrLinkNotFound.
pub data Link (I : Ipfs) : Type 0 where
  link_to : I.Cid → Link I
  link_missing : Link I
  link_failed : GoError → Link I

pub record Network (I : Ipfs) : Type 1 where
  pub World : Type 0
  pub DagNode : Type 0
  pub Profile : Type 0
  pub Listing : Type 0
  -- n.Routing.GetValue of the IPNS key of the peer, with the quorum
  pub get_value : I.Node → I.PeerId → ℕ → World → Result (List ℕ) × World
  -- capi.Dag().Get, its error as dagGet wraps it
  pub dag_get : I.Node → I.Cid → World → Result DagNode × World
  pub resolve_link : DagNode → String → Link I
  pub links : DagNode → List I.Cid
  -- capi.Unixfs().Get of the path of a CID and, where that is a file, reading all of it: the inner
  -- `Option` is the test for a file, and the inner result that of the read;
  -- the outer error is as cat wraps it
  pub unixfs_get : I.Node → I.Cid → World → Result (Option (Result (List ℕ))) × World
  -- node.GetListingByCID
  pub get_listing : I.Node → I.Cid → World → Result Listing × World
  -- json.Unmarshal into a profile, and into a listing index, of which only the CIDs are read
  pub parse_profile : List ℕ → Result Profile
  pub parse_index : List ℕ → Result (List String)
  -- namesys.PutRecordToRouting, capi.Pin().Add
  pub put_record : I.Node → I.Entry → World → Option GoError × World
  pub pin_add : I.Node → I.Cid → World → Option GoError × World
  -- Whether, where a call of cat or dagGet has ended, shutdown has already ended the goroutine that
  -- receives its deferred send (Crawler.Cancel); and whether notifySubscribers gets the lock and all
  -- subscribers receive an object, with as many still to be notified of (Crawler.Subs.Lock).
  pub stranded : World → Bool
  pub received : ℕ → World → Bool

-- What a call into the worker's helpers comes to: it returns, or the goroutine never gets past it.
pub data Called (W : Type 0) (A : Type 0) : Type 0 where
  returned : A → W → Called W A
  stuck : Called W A

pub Called-cases :
    {W A : Type 0} (r : Called W A) → (r ≡ stuck) ⊎ ((a : A) × (w : W) × (r ≡ returned a w))
Called-cases (returned a w) = inr (a, w, refl)
Called-cases stuck = inl refl
