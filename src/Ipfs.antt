-- ===== src/Ipfs.antt =====
-- What the code takes from the IPFS and libp2p libraries as values: peer IDs, CIDs and IPNS
-- records, with the conversions that it calls. None of it is under this repository, so it is a
-- parameter of everything that uses it.
use obcrawler.Base.{ℕ, String, Bool, Option, List, ◌≡◌, ◌≢◌}
use obcrawler.Go.{GoError, Result, ok}

pub record Ipfs : Type 1 where
  pub PeerId : Type 0
  pub Cid : Type 0
  pub Entry : Type 0
  pub PublicKey : Type 0
  -- a node of the process, and the error of coreapi.NewCoreAPI on it
  pub Node : Type 0
  pub core_api : Node → Option GoError
  -- pid.Pretty(), pid.String(), peer.Decode, peer.IDB58Decode
  pub pretty : PeerId → String
  pub pid_string : PeerId → String
  pub decode_peer : String → Result PeerId
  pub b58_decode_peer : String → Result PeerId
  -- cid.Decode, id.String(); an IPNS record's value is bytes, and string(…) of it is its text
  pub decode_cid : String → Result Cid
  pub cid_string : Cid → String
  pub bytes_string : List ℕ → String
  -- an IPNS record: proto.Unmarshal, its value, its validation and its end of life
  pub unmarshal_entry : List ℕ → Result Entry
  pub entry_value : Entry → List ℕ
  pub extract_public_key : PeerId → Result PublicKey
  pub validate : PublicKey → Entry → Result (Unit {0})
  pub get_eol : Entry → Result ℕ

-- libp2p prints a peer ID in one way only.
abbrev pub PrintsAlike : Ipfs → Type 0
PrintsAlike I = (pid : I.PeerId) → I.pid_string pid ≡ I.pretty pid

-- Decoding undoes printing.
abbrev pub DecodesCids : Ipfs → Type 0
DecodesCids I = (c : I.Cid) → I.decode_cid (I.cid_string c) ≡ ok c

-- peer.Decode reads what pid.Pretty() prints, and nothing is an empty text.
pub record DecodesPeers (I : Ipfs) : Type 0 where
  pub decodes : (pid : I.PeerId) → I.decode_peer (I.pretty pid) ≡ ok pid
  pub rejects_empty : (pid : I.PeerId) → I.decode_peer "" ≢ ok pid

-- A unit of work for a worker (crawler/worker.go).
pub record Job (I : Ipfs) : Type 0 where
  pub peer : I.PeerId
  pub ipns_record : Option I.Entry
  pub expiration : ℕ
  pub fetch_new_record : Bool
  pub pin_record : Bool
