-- ===== src/Crawler/Pubsub.antt =====
-- listenPubsub of crawler/pubsub.go: its subscriptions, and its handling of one message.
pub mod Messages
pub mod Loop
use obcrawler.Base.{
  ℕ, zero, suc, ◌<◌, String, ◌≡◌, refl, ◌∙◌, ap, Bool, true, false, Option, none, some, List, [],
  ◌∷◌, ◌++◌, map, arith, same, if◌then◌else◌, contains, inl, inr, same_self,
}
use obcrawler.Go.{GoError, Result, ok, err, Result-cases}
use obcrawler.Ipfs.{Ipfs, Job}
use obcrawler.Repo.Models.{Peer, blank}
use obcrawler.Repo.Gorm.{Gorm, IsLawful}
use obcrawler.Repo.Database.{Outcome, update}
use obcrawler.Repo.Database.Atomic.{update_done, update_captured}
use obcrawler.Crawler.Peers.{load_peer, or_blank, save_last}
use obcrawler.Crawler.Peers.Rows.{load_peer-row}

-- `subs := make([]iface.PubSubSubscription, c.numPubsub)`: as many nil interfaces; then each
-- subscription is appended behind them.
unfoldable pub nil_subs : {S : Type 0} → ℕ → List (Option S)
nil_subs zero = []
nil_subs (suc n) = none ∷ nil_subs n

unfoldable pub all_subs : {S : Type 0} → ℕ → List S → List (Option S)
unfolding nil_subs
all_subs num_pubsub subscribed = nil_subs num_pubsub ++ map some subscribed

-- The loop on shutdown: the subscriptions that it closes, and whether it panics at a nil one.
unfoldable pub close_subs : {S : Type 0} → List (Option S) → List S × Bool
close_subs [] = ([], false)
close_subs (none ∷ subs) = ([], true)
close_subs (some s ∷ subs) = let (closed, panics) = close_subs subs in (s ∷ closed, panics)

-- With one pubsub node or more, the loop panics before it has closed anything.
pub close_subs-panics :
    {S : Type 0} (num_pubsub : ℕ) (subscribed : List S)
    → 0 < num_pubsub
    → close_subs (all_subs num_pubsub subscribed) ≡ ([], true)
unfolding close_subs all_subs
close_subs-panics zero subscribed h = absurd (omega arith)
close_subs-panics (suc n) subscribed h = refl

pub record Message (I : Ipfs) : Type 0 where
  pub from : I.PeerId
  pub content : List ℕ

-- delete(recentMessages, id), a minute after the message
unfoldable pub forget : String → List String → List String
forget id [] = []
forget id (k ∷ ks) = let rest = forget id ks in if same id k then rest else k ∷ rest

-- A record that has passed the checks, with its end of life.
pub record Valid (I : Ipfs) : Type 0 where
  pub entry : I.Entry
  pub eol : ℕ

module _ (I : Ipfs) where
  abbrev pub with_eol : I.Entry → Result ℕ → Result (Valid I)
  with_eol rec (err e) = err e
  with_eol rec (ok t) = ok (record { entry = rec; eol = t })

  abbrev pub after_validation : I.Entry → Result (Unit {0}) → Result (Valid I)
  after_validation rec (err e) = err e
  after_validation rec (ok _) = with_eol rec (I.get_eol rec)

  abbrev pub with_key : I.Entry → Result I.PublicKey → Result (Valid I)
  with_key rec (err e) = err e
  with_key rec (ok key) = after_validation rec (I.validate key rec)

  abbrev pub with_entry : I.PeerId → Result I.Entry → Result (Valid I)
  with_entry pid (err e) = err e
  with_entry pid (ok rec) = with_key rec (I.extract_public_key pid)

  -- The four checks; each logs and drops the message if it fails.
  unfoldable pub check_message : Message I → Result (Valid I)
  check_message m = with_entry m.from (I.unmarshal_entry m.content)

  -- The row after a record: for a new peer the clock is read for FirstSeen first.
  abbrev pub heard : Message I → ℕ → ℕ → ℕ → Option Peer → Peer
  heard m eol first now none = record blank {
    peer_id = I.pretty m.from;
    first_seen = first;
    last_seen = now;
    ipns_expiration = eol;
    ipns_record = m.content;
  }
  heard m eol first now (some p) = record p {
    last_seen = now;
    ipns_expiration = eol;
    ipns_record = m.content;
  }

module _ (G : Gorm) (I : Ipfs) where
  abbrev pub hear : Message I → ℕ → ℕ → ℕ → Result (Option Peer) → G.State → Outcome G.State Bool
  hear m eol first now (err e) s = (false, some e, s)
  hear m eol first now (ok found) s =
      let p = heard I m eol first now found in save_last G p.banned p s

  -- The closure. It captures `banned`, which starts as false.
  unfoldable pub hear_body : Message I → ℕ → ℕ → ℕ → G.State → Outcome G.State Bool
  unfolding load_peer save_last
  hear_body m eol first now s = hear m eol first now (load_peer G (I.pretty m.from) s) s

  abbrev pub pubsub_job : Message I → Valid I → Job I
  pubsub_job m v = record {
    peer = m.from;
    ipns_record = some v.entry;
    expiration = v.eol;
    fetch_new_record = false;
    pin_record = false;
  }

  -- An error of the transaction is only logged.
  abbrev pub queue_unless_banned :
      Message I → Valid I → Outcome G.State Bool → List (Job I) × G.State
  queue_unless_banned m v (banned, e, s) = (if banned then [] else pubsub_job m v ∷ [], s)

  abbrev pub accept : Message I → ℕ → ℕ → Result (Valid I) → G.State → List (Job I) × G.State
  accept m first now (err e) s = ([], s)
  accept m first now (ok v) s = queue_unless_banned m v (update G (hear_body m v.eol first now) s)

  -- One message: the jobs that it queues, the recent messages and the database. `message_id` is
  -- the hash over the sender and the data.
  unfoldable pub handle_message :
      (Message I → String)
      → Message I
      → ℕ
      → ℕ
      → List String
      → G.State
      → List (Job I) × List String × G.State
  unfolding check_message hear_body update
  handle_message message_id m first now recent s =
      let (jobs, t) = accept m first now (check_message I m) s in
      if contains recent (message_id m) then ([], recent, s) else (jobs, message_id m ∷ recent, t)
