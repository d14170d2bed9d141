-- ===== src/Tests/Jobs.antt =====
-- Witnesses on the worker and on the traversal of the graph.
use obcrawler.Base.{
  ◌≤◌, ℕ, String, ◌≡◌, ◌≢◌, ◌↔◌, ◌<◌, refl, sym, ap, true, false, Option, none, some, [], ◌∷◌, map,
  Has, arith, same, if◌then◌else◌,
}
use obcrawler.Base.Tests.{string_dec}
use obcrawler.Go.{ok, tolerate}
use obcrawler.Ipfs.{Job}
use obcrawler.Repo.Models.{Peer, blank}
use obcrawler.Repo.Gorm.{peer_id_is}
use obcrawler.Repo.Memory.{memory, memory-IsLawful, or_missing}
use obcrawler.Repo.Memory.Table.{lookup_row, first_row, without_row}
use obcrawler.Repo.Memory.Records.{matching, remaining}
use obcrawler.Crawler.Peers.{load_peer}
use obcrawler.Crawler.Network.{returned}
use obcrawler.Crawler.Graph.{fetch_graph}
use obcrawler.Crawler.Graph.Reach.{Reach}
use obcrawler.Crawler.Graph.Closed.{fetch_graph-exact}
use obcrawler.Crawler.Worker.Defs.{Work, notified, record_put, pinned, unpinned, listing, profile}
use obcrawler.Crawler.Worker.Run.{Setup, process_job, start_work}
use obcrawler.Crawler.Worker.Marked.{Reliable}
use obcrawler.Crawler.Worker.Job.{process_job-marks, process_job-unknown}
use obcrawler.Crawler.Graph.Keys.{total}
use obcrawler.Crawler.Worker.Returns.{process_job-returns}
use obcrawler.Tests.{toy, net, children, alice, known}

abbrev pub setup : Setup toy
setup = record {
  nodes = 0 ∷ [];
  quorum = 1;
  cache_data = true;
  pin_files = true;
  fuel = λ c. 10;
  picks = λ k. 0;
}

abbrev pub job_of_alice : Job toy
job_of_alice = record {
  peer = "alice";
  ipns_record = some (5 ∷ []);
  expiration = 800;
  fetch_new_record = true;
  pin_record = true;
}

abbrev pub job_of_carol : Job toy
job_of_carol = record job_of_alice { peer = "carol" }

loaded : (o : Option Peer) → (found : Option Peer) × (tolerate (or_missing o) ≡ ok found)
loaded none = (none, refl)
loaded (some p) = (some p, refl)

pub memory-Reliable : Reliable memory
unfolding load_peer
memory-Reliable = record {
  loads = λ id s. loaded (first_row (peer_id_is id ∷ []) s.rows);
  saves = λ p s ok. refl;
  commits = λ s t. refl;
}

abbrev pub or_start : Job toy → Option (Work memory toy net) → Work memory toy net
or_start j none = start_work memory toy net j 0 known
or_start j (some t) = t

abbrev pub after_alice : Work memory toy net
unfolding process_job
after_alice = or_start job_of_alice (process_job memory toy net setup 0 50 60 job_of_alice 0 known)

abbrev after_carol : Work memory toy net
unfolding process_job
after_carol = or_start job_of_carol (process_job memory toy net setup 0 50 60 job_of_carol 0 known)

pub alice_returns : process_job memory toy net setup 0 50 60 job_of_alice 0 known ≡ some after_alice
unfolding process_job string_dec matching
alice_returns = refl

carol_returns : process_job memory toy net setup 0 50 60 job_of_carol 0 known ≡ some after_carol
unfolding process_job string_dec matching
carol_returns = refl

alice_known : lookup_row "alice" known.rows ≡ some alice
unfolding string_dec lookup_row
alice_known = refl

carol_unknown : lookup_row "carol" known.rows ≡ none
unfolding string_dec lookup_row without_row
carol_unknown = refl

pub different : (s t : String) → same s t ≡ false → s ≢ t
different s t h = λ p. ground arith

keyless_free : lookup_row "" known.rows ≡ none
unfolding string_dec lookup_row without_row
keyless_free = refl

alice_named : job_of_alice.peer ≢ ""
unfolding string_dec
alice_named = different "alice" "" refl

carol_named : job_of_carol.peer ≢ ""
unfolding string_dec
carol_named = different "carol" "" refl

leaves : (same "a" "root" ≡ false) × (same "b" "root" ≡ false)
unfolding string_dec
leaves = (refl, refl)

process_job-marks_example :
    lookup_row "alice" after_alice.db.rows
    ≡ some (record alice { last_crawled = 50; last_pinned = 60 })
unfolding string_dec
process_job-marks_example =
    process_job-marks memory memory-IsLawful toy net setup 0 50 60 job_of_alice 0 known after_alice
      alice "alice" memory-Reliable alice_named alice_known alice_returns

process_job-unknown_example :
    (lookup_row "carol" after_carol.db.rows ≡ none)
    × (lookup_row "" after_carol.db.rows
        ≡ some (record blank { last_crawled = 50; last_pinned = 60 }))
process_job-unknown_example =
    process_job-unknown memory memory-IsLawful toy net setup 0 50 60 job_of_carol 0 known
      after_carol memory-Reliable carol_unknown keyless_free carol_named carol_returns

-- The crawl unpins "old", which the new graph does not have, and leaves "shared" to bob.
alice_events :
    after_alice.events
    ≡ pinned 0 "root"
      ∷ unpinned 0 "old"
      ∷ notified (record { payload = listing "l1"; expiration_date = 900 })
      ∷ notified (record { payload = profile tt; expiration_date = 900 })
      ∷ record_put 0 (7 ∷ [])
      ∷ []
unfolding process_job string_dec matching remaining
alice_events = refl

pub toy-Fixed :
    (n : ℕ) (c : String) (w : ℕ) (nd : String)
    → (net.dag_get n c w).0 ≡ ok nd
    → net.links nd ≡ children c
toy-Fixed n c w nd h = let e : c ≡ nd = cc in ap children (sym e)

toy_graph :
    fetch_graph toy net (λ k. 0) 10 0 "root" 0 ≡ some (returned ("root" ∷ "b" ∷ "a" ∷ [], none) 3)
unfolding fetch_graph string_dec
toy_graph = refl

fetch_graph-exact_example :
    Has {A = String} "a" ("root" ∷ "b" ∷ "a" ∷ []) ↔ Reach {A = String} children "root" "a"
fetch_graph-exact_example =
    fetch_graph-exact toy net children toy-Fixed (λ c. refl) (λ k. 0) 0 "root" 10
      ("root" ∷ "b" ∷ "a" ∷ []) 0 3 "a" toy_graph

abbrev pub weight : String → ℕ
weight t = if same t "root" then 3 else 1

pub children-weight : (c : String) → total weight (map (λ d. d) (children c)) < weight c
children-weight c = elim (string_dec c "root") [
  | yes p ↦ ground (arith, leaves)
  | no p ↦ ground (arith, leaves)
]

pub weight-le : (c : String) → weight c ≤ 10
weight-le c = ground arith

process_job-returns_example : process_job memory toy net setup 0 50 60 job_of_alice 0 known ≢ none
process_job-returns_example =
    process_job-returns memory toy net children weight setup 0 50 60 job_of_alice 0 known toy-Fixed
      (λ c. refl) refl (λ w. refl) (λ k w. refl) children-weight weight-le
