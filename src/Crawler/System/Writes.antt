-- ===== src/Crawler/System/Writes.antt =====
-- The change of the rows by each operation that writes.
use obcrawler.Base.{
  ℕ, String, ◌≡◌, refl, ◌∙◌, ap, sym, Option, none, some, List, arith, Bool, inl, inr, contains,
  Option-cases, Bool-cases,
}
use obcrawler.Go.{Result, ok, err}
use obcrawler.Ipfs.{Ipfs, Job, PrintsAlike}
use obcrawler.Repo.Models.{Peer}
use obcrawler.Repo.Gorm.{Gorm, IsLawful}
use obcrawler.Repo.Database.{Outcome, update}
use obcrawler.Repo.Database.Atomic.{update_atomic, update_pure}
use obcrawler.Crawler.Peers.{
  or_blank, touched, crawl_node, ban_body, ban_node, unban_body, unban_node, seen_body, update_peer,
}
use obcrawler.Crawler.Peers.Ban.{
  banned_row, unbanned_row, ban_node-row, unban_node-row, update_peer-row,
}
use obcrawler.Crawler.Peers.Gate.{crawl_node-pure}
use obcrawler.Crawler.Pubsub.{
  Message, Valid, check_message, hear_body, heard, accept, handle_message,
}
use obcrawler.Crawler.Pubsub.Messages.{hear-row}
use obcrawler.Crawler.Records.{save_body}
use obcrawler.Crawler.Records.Exact.{update-row}
use obcrawler.Crawler.System.Rows.{
  Action, banning, unbanning, other, keeps, marks_it, clears_it, same_record, checked_record,
  same_time, Change, no_row, one_row,
}

touched-banned :
    (id : String) (first now : ℕ) (found : Option Peer)
    → (touched id first now found).banned ≡ (or_blank found).banned
touched-banned id first now none = refl
touched-banned id first now (some p) = refl

heard-banned :
    (I : Ipfs) (m : Message I) (eol first now : ℕ) (found : Option Peer)
    → (heard I m eol first now found).banned ≡ (or_blank found).banned
heard-banned I m eol first now none = refl
heard-banned I m eol first now (some p) = refl

touched-last_crawled :
    (id : String) (first now : ℕ) (found : Option Peer)
    → (touched id first now found).last_crawled ≡ (or_blank found).last_crawled
touched-last_crawled id first now none = refl
touched-last_crawled id first now (some p) = refl

heard-last_crawled :
    (I : Ipfs) (m : Message I) (eol first now : ℕ) (found : Option Peer)
    → (heard I m eol first now found).last_crawled ≡ (or_blank found).last_crawled
heard-last_crawled I m eol first now none = refl
heard-last_crawled I m eol first now (some p) = refl

touched-ipns_record :
    (id : String) (first now : ℕ) (found : Option Peer)
    → (touched id first now found).ipns_record ≡ (or_blank found).ipns_record
touched-ipns_record id first now none = refl
touched-ipns_record id first now (some p) = refl

heard-ipns_record :
    (I : Ipfs) (m : Message I) (eol first now : ℕ) (found : Option Peer)
    → (heard I m eol first now found).ipns_record ≡ m.content
heard-ipns_record I m eol first now none = refl
heard-ipns_record I m eol first now (some p) = refl

module _ (G : Gorm) (L : IsLawful G) (I : Ipfs) where
  -- A transaction that fails changes no row; one that succeeds changes what its body does.
  pub update-Change :
      {A : Type 0} (a : Action) (fn : G.State → Outcome G.State A) (s : G.State)
      → ((update G fn s).1 ≡ none → Change G I a s (update G fn s).2)
      → Change G I a s (update G fn s).2
  update-Change a fn s done = elim (Option-cases (update G fn s).1) [
    | inl e ↦ done e
    | inr (x, e) ↦ no_row (update_atomic G L fn s x e).rows
  ]

  pub reads-Change :
      {A : Type 0} (fn : G.State → Outcome G.State A) (s : G.State)
      → ((u : G.State) → (fn u).2 ≡ u)
      → Change G I other s (update G fn s).2
  reads-Change fn s reads = no_row (update_pure G L fn s reads).rows

  pub crawl_node-Change :
      (pin : Bool) (pid : I.PeerId) (s : G.State) → Change G I other s (crawl_node G I pin pid s).2
  crawl_node-Change pin pid s = no_row (crawl_node-pure G L I pin pid s).rows

  ban_node-state :
      (nodes : List I.Node) (pid : I.PeerId) (s : G.State)
      → ((ban_node G I nodes pid s).2 ≡ (update G (ban_body G I pid) s).2)
        × ((ban_node G I nodes pid s).1 ≡ (update G (ban_body G I pid) s).1)
  unfolding ban_node
  ban_node-state nodes pid s = ground arith

  pub ban_node-Change :
      (nodes : List I.Node) (pid : I.PeerId) (s : G.State)
      → Change G I (banning (I.pretty pid)) s (ban_node G I nodes pid s).2
  ban_node-Change nodes pid s =
      let (state, error) = ban_node-state nodes pid s in
      elim (Option-cases (ban_node G I nodes pid s).1) [
        | inl e ↦
            one_row (I.pretty pid) (banned_row (I.pretty pid) (G.peer_row s (I.pretty pid)))
              (inr (pid, refl)) (marks_it refl refl) (same_record refl) (same_time refl)
              (λ id. ban_node-row G L I nodes pid s id e)
        | inr (x, e) ↦
            no_row (rw state (update_atomic G L (ban_body G I pid) s x (sym error ∙ e)).rows)
      ]

  pub unban_node-Change :
      (pid : I.PeerId) (s : G.State)
      → PrintsAlike I
      → Change G I (unbanning (I.pid_string pid)) s (unban_node G I pid s).2
  unban_node-Change pid s alike = elim (Option-cases (unban_node G I pid s).1) [
    | inl e ↦
        one_row (I.pid_string pid) (unbanned_row (I.pid_string pid) (G.peer_row s (I.pretty pid)))
          (inr (pid, sym (alike pid))) (clears_it refl refl)
          (same_record (ap (λ i. (or_blank (G.peer_row s i)).ipns_record) (sym (alike pid))))
          (same_time (ap (λ i. (or_blank (G.peer_row s i)).last_crawled) (sym (alike pid))))
          (λ id. unban_node-row G L I pid s id e)
    | inr (x, e) ↦ unfold unban_node in no_row (update_atomic G L (unban_body G I pid) s x e).rows
  ]

  pub update_peer-Change :
      (pid : I.PeerId) (first now : ℕ) (s : G.State)
      → Change G I other s (update_peer G I pid first now s)
  unfolding update_peer
  update_peer-Change pid first now s = update-Change other (seen_body G I pid first now) s λ e.
      let key = I.pretty pid in
      let k = touched key first now (G.peer_row s key) in
      one_row key k (inr (pid, refl)) (keeps (touched-banned key first now (G.peer_row s key)))
        (same_record (touched-ipns_record key first now (G.peer_row s key)))
        (same_time (touched-last_crawled key first now (G.peer_row s key)))
        (λ id. update_peer-row G L I pid first now s id e)

  hear-Change :
      (m : Message I) (v : Valid I) (first now : ℕ) (s : G.State)
      → check_message I m ≡ ok v
      → Change G I other s (update G (hear_body G I m v.eol first now) s).2
  hear-Change m v first now s valid = update-Change other (hear_body G I m v.eol first now) s λ e.
      let key = I.pretty m.from in
      let k = heard I m v.eol first now (G.peer_row s key) in
      one_row key k (inr (m.from, refl))
        (keeps (heard-banned I m v.eol first now (G.peer_row s key)))
        (checked_record m v refl valid (heard-ipns_record I m v.eol first now (G.peer_row s key)))
        (same_time (heard-last_crawled I m v.eol first now (G.peer_row s key)))
        (λ id. hear-row G L I m v.eol first now s id e)

  accept-Change :
      (m : Message I) (first now : ℕ) (r : Result (Valid I)) (s : G.State)
      → check_message I m ≡ r
      → Change G I other s (accept G I m first now r s).1
  accept-Change m first now (err e) s h = no_row (λ id. refl)
  accept-Change m first now (ok v) s h = hear-Change m v first now s h

  pub handle_message-Change :
      (message_id : Message I → String) (m : Message I) (first now : ℕ) (recent : List String)
      (s : G.State)
      → Change G I other s (handle_message G I message_id m first now recent s).2
  unfolding handle_message
  handle_message-Change message_id m first now recent s =
      elim (Bool-cases (contains recent (message_id m))) [
        | inl old ↦ rw old (no_row (λ id. refl))
        | inr new ↦ rw new (accept-Change m first now (check_message I m) s refl)
      ]

  pub save_body-Change :
      (j : Job I) (graph : List I.Cid) (s : G.State)
      → Change G I other s (update G (save_body G I (I.pretty j.peer) graph) s).2
  save_body-Change j graph s =
      update-Change other (save_body G I (I.pretty j.peer) graph) s
        λ e. no_row (λ id. update-row G L I (I.pretty j.peer) graph s id e)
