-- ===== src/Tests.antt =====
-- Values that the theorems are tried on: a network whose content is written out, and a database in
-- memory with two peers.
mod Rows
mod Jobs
mod Records
mod Servers
mod System
mod Concurrent
mod Week
mod Ticks
mod Pubsub
mod Rpc
mod Launch
mod Workers
mod Repo
use obcrawler.Base.{ℕ, suc, String, true, false, none, some, [], ◌∷◌, List, same, if◌then◌else◌}
use obcrawler.Go.{ok}
use obcrawler.Ipfs.{Ipfs, Job}
use obcrawler.Repo.Models.{Peer, blank}
use obcrawler.Repo.Memory.{Tables, memory, empty}
use obcrawler.Crawler.Network.{Network, link_to}

-- Peers and CIDs are their own texts, every record is valid, and every value names "root".
abbrev pub toy : Ipfs
toy = record {
  PeerId = String;
  Cid = String;
  Entry = List ℕ;
  PublicKey = Unit;
  Node = ℕ;
  core_api = λ n. none;
  pretty = λ p. p;
  pid_string = λ p. p;
  decode_peer = λ t. ok t;
  b58_decode_peer = λ t. ok t;
  decode_cid = λ t. ok t;
  cid_string = λ c. c;
  bytes_string = λ bs. "root";
  unmarshal_entry = λ bs. ok bs;
  entry_value = λ e. e;
  extract_public_key = λ p. ok tt;
  validate = λ k e. ok tt;
  get_eol = λ e. ok 900;
}

abbrev pub children : String → List String
children c = if same c "root" then "a" ∷ "b" ∷ [] else []

-- The world counts the fetched nodes. The record of every peer is new, and every file is there.
abbrev pub net : Network toy
net = record {
  World = ℕ;
  DagNode = String;
  Profile = Unit;
  Listing = String;
  get_value = λ n p q w. (ok (7 ∷ []), w);
  dag_get = λ n c w. (ok c, suc w);
  resolve_link = λ nd name. link_to name;
  links = λ nd. children nd;
  unixfs_get = λ n c w. (ok (some (ok [])), w);
  get_listing = λ n c w. (ok c, w);
  parse_profile = λ bs. ok tt;
  parse_index = λ bs. ok ("l1" ∷ []);
  put_record = λ n e w. (none, w);
  pin_add = λ n c w. (none, w);
  stranded = λ w. false;
  received = λ k w. true;
}

abbrev pub alice : Peer
alice = record blank {
  peer_id = "alice";
  first_seen = 10;
  last_seen = 20;
  ipns_expiration = 800;
  ipns_record = 5 ∷ [];
}

-- alice has the CIDs "old" and "shared", bob has "shared".
abbrev pub known : Tables
known = record ((memory.save_peer alice empty).1) {
  records =
      record { cid = "old"; peer_id = "alice" }
      ∷ record { cid = "shared"; peer_id = "alice" }
      ∷ record { cid = "shared"; peer_id = "bob" }
      ∷ [];
}
