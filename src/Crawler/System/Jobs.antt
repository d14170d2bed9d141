-- ===== src/Crawler/System/Jobs.antt =====
-- Which jobs a step queues, as far as the row of a banned peer decides it.
use obcrawler.Base.{
  ℕ, String, Bool, ◌≡◌, ◌≢◌, refl, ◌∙◌, ap, sym, subst, true, false, Option, none, some, List,
  arith, All, All-map, inl, inr, Bool-cases, contains, string_dec,
}
use obcrawler.Go.{Result, ok, err}
use obcrawler.Ipfs.{Ipfs, Job, DecodesPeers}
use obcrawler.Repo.Models.{Peer}
use obcrawler.Repo.Gorm.{Gorm, IsLawful}
use obcrawler.Repo.Database.{Outcome, update}
use obcrawler.Crawler.Peers.{or_blank, load_peer, crawl_node}
use obcrawler.Crawler.Peers.Rows.{load_peer-row}
use obcrawler.Crawler.Peers.Gate.{crawl_node-gate}
use obcrawler.Crawler.Pubsub.{
  Message, Valid, check_message, hear_body, queue_unless_banned, accept, handle_message,
}
use obcrawler.Crawler.Pubsub.Messages.{handle_message-banned}
use obcrawler.Crawler.Ticks.{old_tick}
use obcrawler.Crawler.Ticks.Due.{IsDue, old_tick-IsDue}
use obcrawler.Crawler.System.Rows.{IsBanned, IsKeyed}

-- The lookup of a peer never fails.
abbrev pub ReadsPeers : Gorm → Type 0
ReadsPeers G = (id : String) (s : G.State) → (found : Option Peer) × (load_peer G id s ≡ ok found)

banned_some :
    (found : Option Peer)
    → (or_blank found).banned ≡ true
    → (p : Peer) × (found ≡ some p) × (p.banned ≡ true)
banned_some none h = cc
banned_some (some p) h = (p, refl, h)

pub ok-injective : {A : Type 0} (a b : A) → Path (Result A) (ok a) (ok b) → a ≡ b
ok-injective a b p = cc

module _ (G : Gorm) (L : IsLawful G) (I : Ipfs) (kept : String) where
  abbrev pub ForOthers : List (Job I) → Type 0
  ForOthers = All (λ j. I.pretty j.peer ≢ kept)

  pub crawl_node-ForOthers :
      (pin : Bool) (pid : I.PeerId) (s : G.State)
      → IsBanned G I s kept
      → ForOthers (crawl_node G I pin pid s).0
  crawl_node-ForOthers pin pid s b = elim (crawl_node-gate G L I pin pid s) [
    | inl (_, queued, free) ↦
        rw queued ((λ e. let same_peer : kept ≡ I.pretty pid = sym e in ground arith), tt)
    | inr (_, refused) ↦ rw refused tt
  ]

  queue_unless_banned-peer :
      (m : Message I) (v : Valid I) (r : Outcome G.State Bool)
      → All (λ j. j.peer ≡ m.from) (queue_unless_banned G I m v r).0
  queue_unless_banned-peer m v (true, e, s) = tt
  queue_unless_banned-peer m v (false, e, s) = (refl, tt)

  accept-peer :
      (m : Message I) (first now : ℕ) (r : Result (Valid I)) (s : G.State)
      → All (λ j. j.peer ≡ m.from) (accept G I m first now r s).0
  accept-peer m first now (err e) s = tt
  accept-peer m first now (ok v) s =
      queue_unless_banned-peer m v (update G (hear_body G I m v.eol first now) s)

  -- A message queues jobs for its sender only.
  handle_message-peer :
      (message_id : Message I → String) (m : Message I) (first now : ℕ) (recent : List String)
      (s : G.State)
      → All (λ j. j.peer ≡ m.from) (handle_message G I message_id m first now recent s).0
  unfolding handle_message
  handle_message-peer message_id m first now recent s =
      elim (Bool-cases (contains recent (message_id m))) [
        | inl old ↦ rw old tt
        | inr new ↦ rw new (accept-peer m first now (check_message I m) s)
      ]

  pub handle_message-ForOthers :
      (message_id : Message I → String) (m : Message I) (first now : ℕ) (recent : List String)
      (s : G.State)
      → ReadsPeers G
      → IsBanned G I s kept
      → ForOthers (handle_message G I message_id m first now recent s).0
  handle_message-ForOthers message_id m first now recent s reads b =
      elim (string_dec (I.pretty m.from) kept) [
        | no other ↦
            All-map (λ j. I.pretty j.peer ≢ kept) _ (λ j e. rw e other)
              (handle_message-peer message_id m first now recent s)
        | yes same_peer ↦
            let (found, l) = reads (I.pretty m.from) (G.begin s) in
            let row : G.peer_row s (I.pretty m.from) ≡ found =
              sym ((L.begin_tables s).rows (I.pretty m.from))
              ∙ load_peer-row G L (I.pretty m.from) (G.begin s) found l in
            let (p, known, marked) = banned_some found (rw (← row, same_peer) b) in
            rw
              (handle_message-banned G L I message_id m first now recent s p (l ∙ ap ok known)
                marked)
              tt
      ]

  -- Where every row has a key that the crawler makes, the due peer is that of the job.
  pub IsDue-peer :
      (pin : Bool) (t₁ t₂ t₃ : ℕ) (s : G.State) (j : Job I)
      → DecodesPeers I
      → IsKeyed G I s
      → (d : IsDue G L I s pin t₁ t₂ t₃ j) → d.due.peer_id ≡ I.pretty j.peer
  IsDue-peer pin t₁ t₂ t₃ s j dec keyed d = elim (keyed d.due.peer_id (rw d.row (λ p. cc))) [
    | inl none_of_them ↦
        absurd (
          dec.rejects_empty j.peer (subst (λ k. I.decode_peer k ≡ ok j.peer) none_of_them d.its_id))
    | inr (pid, key) ↦
        let same_pid : pid ≡ j.peer =
          ok-injective pid j.peer (sym (dec.decodes pid) ∙ ap I.decode_peer key ∙ d.its_id) in
        sym key ∙ ap I.pretty same_pid
  ]

  banned-ForOthers :
      (pin : Bool) (t₁ t₂ t₃ : ℕ) (s : G.State)
      → DecodesPeers I
      → IsKeyed G I s
      → IsBanned G I s kept
      → (j : Job I) → IsDue G L I s pin t₁ t₂ t₃ j
      → I.pretty j.peer ≢ kept
  banned-ForOthers pin t₁ t₂ t₃ s dec keyed b j d = λ e.
      let there : kept ≡ d.due.peer_id = sym (IsDue-peer pin t₁ t₂ t₃ s j dec keyed d ∙ e) in
      ground (arith, d.row, d.not_banned)

  pub old_tick-ForOthers :
      (pin : Bool) (t₁ t₂ t₃ : ℕ) (s : G.State)
      → DecodesPeers I
      → IsKeyed G I s
      → IsBanned G I s kept
      → ForOthers (old_tick G I pin t₁ t₂ t₃ s).0
  old_tick-ForOthers pin t₁ t₂ t₃ s dec keyed b =
      All-map (λ j. I.pretty j.peer ≢ kept) _ (banned-ForOthers pin t₁ t₂ t₃ s dec keyed b)
        (old_tick-IsDue G L I pin t₁ t₂ t₃ s).0
