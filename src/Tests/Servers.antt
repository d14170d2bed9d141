-- ===== src/Tests/Servers.antt =====
-- Witnesses on the servers, the subscriptions and the calls that shutdown cancels.
use obcrawler.Base.{ℕ, String, ◌≡◌, ◌≢◌, refl, true, false, some, inl, inr, List, [], ◌∷◌}
use obcrawler.Base.Tests.{string_dec}
use obcrawler.Go.{ok}
use obcrawler.Repo.Models.{Peer}
use obcrawler.Repo.Memory.{memory, memory-IsLawful}
use obcrawler.Repo.Memory.Table.{lookup_row, first_row}
use obcrawler.Crawler.Server.{NetLib, SimpleAddr, parse_listeners}
use obcrawler.Crawler.Resolver.{handler, handler-found}
use obcrawler.Crawler.Subs.Lock.{
  System, idle, sending, receiving, closing, set_client, send, IsStuck, Reach-IsStuck,
  deadlock_reached,
}
use obcrawler.Crawler.Subs.Lock.{Reach as LockReach, here as lock_here, next as lock_next}
use obcrawler.Crawler.Cancel.{Call, calling, watching, over, returned_home, cancel_blocks}
use obcrawler.Crawler.Cancel.{here as call_here}
use obcrawler.Tests.{toy, known}

-- Every text is its own host, and every host but the empty one is an IPv4 address.
abbrev lib : NetLib
lib = record { split_host = λ a. ok a; parse_ip = λ h. some true; on_plan9 = false }

abbrev addrs : List (List ℕ)
addrs = [] ∷ (b'1' ∷ []) ∷ []

abbrev parsed : List SimpleAddr
parsed =
    record { net = "tcp4"; addr = [] }
    ∷ record { net = "tcp6"; addr = [] }
    ∷ record { net = "tcp4"; addr = b'1' ∷ [] }
    ∷ []

addrs_parse : parse_listeners lib addrs ≡ ok parsed
unfolding parse_listeners
addrs_parse = refl

handler-found_example :
    (pid : String) × (p : Peer) × (toy.b58_decode_peer "alice" ≡ ok pid)
    × (lookup_row pid known.rows ≡ some p)
    × (p.banned ≡ false)
    × ((handler memory toy (λ e. []) "alice" known).0.body ≡ p.ipns_record)
unfolding handler string_dec first_row
handler-found_example = handler-found memory memory-IsLawful toy (λ e. []) "alice" known refl

abbrev locked : System
locked = record { notifier = sending (3 ∷ []); client = λ k. closing }

abbrev unlocked : System
unlocked = record { notifier = idle; client = λ k. receiving }

Reach-IsStuck_example : IsStuck 3 locked
Reach-IsStuck_example =
    Reach-IsStuck 3 locked locked (record { waits = ([], refl); left = refl }) lock_here

-- The notifier has sent to the client 2, and would send to the client 3.
abbrev one_sent : System
one_sent = record { notifier = sending (3 ∷ []); client = set_client 3 closing unlocked.client }

deadlock_reached_example :
    LockReach unlocked one_sent × (one_sent.notifier ≢ idle) × (one_sent.client 3 ≡ closing)
deadlock_reached_example =
    deadlock_reached 3 (2 ∷ 3 ∷ []) unlocked one_sent refl refl (inr (inl refl))
      (lock_next lock_here (send 2 (3 ∷ []) refl refl))

abbrev shut_down : Call
shut_down = record { caller = calling; watcher = watching; shut_down = true }

abbrev cancelled : Call
cancelled = record { caller = calling; watcher = over; shut_down = true }

cancel_blocks_example : cancelled.caller ≢ returned_home
cancel_blocks_example =
    cancel_blocks shut_down cancelled cancelled (λ p. cc) refl refl refl call_here
