-- ===== src/Tests/System.antt =====
-- A witness on the whole crawler: a network of two peers.
use obcrawler.Base.{
  ℕ, String, Bool, true, false, ◌≡◌, ◌≢◌, refl, sym, none, some, Option, List, [], ◌∷◌, All, Has,
  ◌++◌, inr, ◌⊎◌, same, if◌then◌else◌, arith,
}
use obcrawler.Base.Tests.{string_dec}
use obcrawler.Go.{message, ok, err, tolerate, Result}
use obcrawler.Ipfs.{Ipfs, Job, DecodesPeers}
use obcrawler.Repo.Models.{Peer}
use obcrawler.Repo.Gorm.{peer_id_is}
use obcrawler.Repo.Database.{update}
use obcrawler.Crawler.Worker.Run.{crawled_body}
use obcrawler.Repo.Memory.{memory, memory-IsLawful, or_missing, empty}
use obcrawler.Repo.Memory.Table.{lookup_row, first_row, without_row}
use obcrawler.Crawler.Network.{Network, link_missing}
use obcrawler.Crawler.Peers.{load_peer, ban_node, crawl_node, update_peer}
use obcrawler.Crawler.Pubsub.{Message, handle_message}
use obcrawler.Crawler.Resolver.{handler}
use obcrawler.Crawler.System.{System, Reach, here, next, hears, bans, connects, marks}
use obcrawler.Crawler.System.Rows.{IsKeyed}
use obcrawler.Crawler.System.Jobs.{ReadsPeers}
use obcrawler.Crawler.System.Banned.{Reach-ban_node, pretty_named}
use obcrawler.Crawler.System.Keyed.{Reach-IsKeyed}
use obcrawler.Crawler.System.Spec.{SpecRun, Reach-SpecRun, view_of, actions}
use obcrawler.Crawler.System.Genuine.{IsServable, handler-IsServable}
use obcrawler.Tests.{alice}

abbrev name_of : Bool → String
name_of true = "alice"
name_of false = "bob"

abbrev peer_of : String → Result Bool
peer_of t =
    if same t "alice"
    then ok true
    else if same t "bob"
    then ok false
    else err (message "no such peer")

abbrev pub two : Ipfs
two = record {
  PeerId = Bool;
  Cid = String;
  Entry = List ℕ;
  PublicKey = Unit;
  Node = ℕ;
  core_api = λ n. none;
  pretty = name_of;
  pid_string = name_of;
  decode_peer = peer_of;
  b58_decode_peer = peer_of;
  decode_cid = λ t. ok t;
  cid_string = λ c. c;
  bytes_string = λ bs. "root";
  unmarshal_entry = λ bs. ok bs;
  entry_value = λ e. e;
  extract_public_key = λ p. ok tt;
  validate = λ k e. ok tt;
  get_eol = λ e. ok 900;
}

abbrev pub two_net : Network two
two_net = record {
  World = ℕ;
  DagNode = String;
  Profile = Unit;
  Listing = String;
  get_value = λ n p q w. (ok (7 ∷ []), w);
  dag_get = λ n c w. (ok c, w);
  resolve_link = λ nd name. link_missing;
  links = λ nd. [];
  unixfs_get = λ n c w. (ok none, w);
  get_listing = λ n c w. (ok c, w);
  parse_profile = λ bs. ok tt;
  parse_index = λ bs. ok [];
  put_record = λ n e w. (none, w);
  pin_add = λ n c w. (none, w);
  stranded = λ w. false;
  received = λ k w. true;
}

pub two-DecodesPeers : DecodesPeers two
unfolding string_dec
two-DecodesPeers = record {
  decodes = λ pid. elim pid as (λ p. peer_of (name_of p) ≡ ok p) [ true ↦ refl | false ↦ refl ];
  rejects_empty = λ pid p. cc;
}

abbrev pub alone : System memory two
alone = record { db = (memory.save_peer alice empty).1; queue = [] }

pub alone-IsKeyed : IsKeyed memory two alone.db
unfolding lookup_row without_row
alone-IsKeyed id h = elim (string_dec id "alice") [
  | yes e ↦ inr (true, sym e)
  | no n ↦ ground arith
]

loads : (o : Option Peer) → (found : Option Peer) × (tolerate (or_missing o) ≡ ok found)
loads none = (none, refl)
loads (some p) = (some p, refl)

pub memory-ReadsPeers : ReadsPeers memory
unfolding load_peer
memory-ReadsPeers = λ id s. loads (first_row (peer_id_is id ∷ []) s.rows)

abbrev pub id_of : Message two → String
id_of m = "id"

abbrev pub job_of_alice : Job two
job_of_alice = record {
  peer = true;
  ipns_record = none;
  expiration = 0;
  fetch_new_record = true;
  pin_record = false;
}

abbrev banned : System memory two
banned = record alone { db = (ban_node memory two (0 ∷ []) true alone.db).2 }

abbrev pub from_alice : Message two
from_alice = record { from = true; content = 9 ∷ [] }

-- A message from the banned peer, a connection of it, and the end of a crawl that was in progress.
abbrev after_message : System memory two
after_message = record {
  db = (handle_message memory two id_of from_alice 40 41 [] banned.db).2;
  queue = (handle_message memory two id_of from_alice 40 41 [] banned.db).0 ++ [];
}

abbrev after_connection : System memory two
after_connection = record after_message { db = update_peer memory two true 50 51 after_message.db }

abbrev after_crawl : System memory two
after_crawl = record after_connection {
  db = (update memory (crawled_body memory two two_net job_of_alice 60 61) after_connection.db).2;
}

steps_after_ban : Reach memory two two_net id_of "alice" banned after_crawl
steps_after_ban =
    next (next (next here (hears from_alice 40 41 [])) (connects true 50 51))
      (marks job_of_alice 60 61)

Reach-ban_node_example :
    ((crawl_node memory two true true after_crawl.db).0 ≡ [])
    × ((handler memory two (λ e. []) "alice" after_crawl.db).0.status ≢ 200)
    × All (λ j. Has j alone.queue ⊎ (two.pretty j.peer ≢ two.pretty true)) after_crawl.queue
unfolding string_dec ban_node first_row
Reach-ban_node_example =
    Reach-ban_node memory memory-IsLawful two two_net id_of (0 ∷ []) true alone after_crawl true
      (λ e. []) "alice" (λ p. refl) two-DecodesPeers memory-ReadsPeers alone-IsKeyed refl
      steps_after_ban refl

abbrev fresh : System memory two
fresh = record { db = empty; queue = [] }

-- Bob connects, and is banned.
abbrev met : System memory two
met = record fresh { db = update_peer memory two false 5 6 empty }

abbrev met_and_banned : System memory two
met_and_banned = record met { db = (ban_node memory two (0 ∷ []) false met.db).2 }

Reach-IsKeyed_example : IsKeyed memory two met_and_banned.db
unfolding string_dec lookup_row
Reach-IsKeyed_example =
    Reach-IsKeyed memory memory-IsLawful two two_net id_of "alice" (λ p. refl) fresh met_and_banned
      (λ id. refl) (next (next here (connects false 5 6)) (bans (0 ∷ []) false))

bob_named : two.pretty false ≢ ""
bob_named = pretty_named two false two-DecodesPeers

abbrev bob_run : Reach memory two two_net id_of "alice" fresh met_and_banned
bob_run = next (next here (connects false 5 6)) (bans (0 ∷ []) false)

Reach-SpecRun_example :
    SpecRun "bob"
      (view_of memory two "bob" fresh)
      (actions memory memory-IsLawful two two_net id_of "alice"
        (λ p. refl)
        two-DecodesPeers
        memory-ReadsPeers
        "bob"
        bob_named
        bob_run)
      (view_of memory two "bob" met_and_banned)
unfolding string_dec lookup_row
Reach-SpecRun_example =
    Reach-SpecRun memory memory-IsLawful two two_net id_of "alice" (λ p. refl) two-DecodesPeers
      memory-ReadsPeers "bob" bob_named bob_run (λ id some_row. absurd (some_row refl))

abbrev heard_alice : System memory two
heard_alice = record {
  db = (handle_message memory two id_of from_alice 40 41 [] empty).2;
  queue = (handle_message memory two id_of from_alice 40 41 [] empty).0 ++ [];
}

handler-IsServable_example :
    (pid : Bool) × (peer_of "alice" ≡ ok pid)
    × IsServable two pid (handler memory two (λ e. []) "alice" heard_alice.db).0.body
unfolding handler handle_message string_dec first_row lookup_row
handler-IsServable_example =
    handler-IsServable memory memory-IsLawful two two_net id_of "bob" (λ p. refl) two-DecodesPeers
      (λ e. []) "alice" fresh heard_alice (λ id. refl) (next here (hears from_alice 40 41 [])) refl
