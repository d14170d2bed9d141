-- ===== src/Crawler/Pubsub/Messages.antt =====
-- What a message leaves behind: the recent messages, the sender's row, and the job.
use obcrawler.Base.{
  ℕ, String, ◌≡◌, refl, ◌∙◌, ap, true, false, Option, none, some, List, [], ◌∷◌, arith, same,
  if◌then◌else◌, contains, inl, inr, same_self,
}
use obcrawler.Go.{GoError, Result, ok, err, Result-cases}
use obcrawler.Ipfs.{Ipfs}
use obcrawler.Repo.Models.{Peer}
use obcrawler.Repo.Gorm.{Gorm, IsLawful}
use obcrawler.Repo.Database.{update}
use obcrawler.Repo.Database.Atomic.{update_done, update_captured}
use obcrawler.Crawler.Peers.{load_peer, or_blank, save_last}
use obcrawler.Crawler.Peers.Rows.{load_peer-row}
use obcrawler.Crawler.Pubsub.{
  Message, Valid, check_message, heard, hear, hear_body, pubsub_job, accept, handle_message,
}

module _ (G : Gorm) (I : Ipfs) (message_id : Message I → String) where
  -- A message that was handled is not handled again while it is among the recent ones: it queues
  -- nothing and changes nothing.
  pub handle_message-again :
      (m : Message I) (first now first' now' : ℕ) (recent : List String) (s t : G.State)
      → let after = (handle_message G I message_id m first now recent s).1 in
        handle_message G I message_id m first' now' after t ≡ ([], after, t)
  unfolding handle_message
  handle_message-again m first now first' now' recent s t = ground (arith, same_self (message_id m))

-- The time at which a peer was first seen, once it has been seen now.
abbrev pub first_time : ℕ → Option Peer → ℕ
first_time first none = first
first_time first (some p) = p.first_seen

module _ (G : Gorm) (L : IsLawful G) (I : Ipfs) where
  hear-banned :
      (m : Message I) (eol first now : ℕ) (r : Result (Option Peer)) (s : G.State) (p : Peer)
      → r ≡ ok (some p)
      → (hear G I m eol first now r s).0 ≡ p.banned
  unfolding save_last
  hear-banned m eol first now r s p e = rw e

  accept-banned :
      (m : Message I) (first now : ℕ) (r : Result (Valid I)) (s : G.State) (p : Peer)
      → load_peer G (I.pretty m.from) (G.begin s) ≡ ok (some p)
      → p.banned ≡ true
      → (accept G I m first now r s).0 ≡ []
  unfolding hear_body
  accept-banned m first now (err e) s p l b = refl
  accept-banned m first now (ok v) s p l b =
      let captured : (update G (hear_body G I m v.eol first now) s).0 ≡ true =
        update_captured G (hear_body G I m v.eol first now) s
        ∙ hear-banned m v.eol first now _ (G.begin s) p l
        ∙ b in
      rw captured

  -- A message from a peer that is read to be banned queues no job, also where saving fails.
  pub handle_message-banned :
      (message_id : Message I → String) (m : Message I) (first now : ℕ) (recent : List String)
      (s : G.State) (p : Peer)
      → load_peer G (I.pretty m.from) (G.begin s) ≡ ok (some p)
      → p.banned ≡ true
      → (handle_message G I message_id m first now recent s).0 ≡ []
  unfolding handle_message
  handle_message-banned message_id m first now recent s p l b =
      ground (arith, accept-banned m first now (check_message I m) s p l b)

  heard-key :
      (m : Message I) (eol first now : ℕ) (found : Option Peer)
      → ((p : Peer) → found ≡ some p → p.peer_id ≡ I.pretty m.from)
      → (heard I m eol first now found).peer_id ≡ I.pretty m.from
  heard-key m eol first now none h = refl
  heard-key m eol first now (some p) h = h p refl

  hear_body-row :
      (m : Message I) (eol first now : ℕ) (s : G.State) (id : String)
      → (hear_body G I m eol first now s).1 ≡ none
      → G.peer_row (hear_body G I m eol first now s).2 id ≡ (
          if same id (I.pretty m.from)
          then some (heard I m eol first now (G.peer_row s (I.pretty m.from)))
          else G.peer_row s id)
  unfolding hear_body save_last
  hear_body-row m eol first now s id h = elim (Result-cases (load_peer G (I.pretty m.from) s)) [
    | inl (found, e) ↦
        let row = load_peer-row G L (I.pretty m.from) s found e in
        let k = heard I m eol first now found in
        let key : k.peer_id ≡ I.pretty m.from =
          heard-key m eol first now found (λ p f. L.row_key s (I.pretty m.from) p (row ∙ f)) in
        ground (arith, row, key, L.save_peer_row k s id)
    | inr (x, e) ↦ ground arith
  ]

  -- The row of the sender after the transaction, and every other row as it was.
  pub hear-row :
      (m : Message I) (eol first now : ℕ) (s : G.State) (id : String)
      → (update G (hear_body G I m eol first now) s).1 ≡ none
      → G.peer_row (update G (hear_body G I m eol first now) s).2 id ≡ (
          if same id (I.pretty m.from)
          then some (heard I m eol first now (G.peer_row s (I.pretty m.from)))
          else G.peer_row s id)
  hear-row m eol first now s id h =
      let done = update_done G L (hear_body G I m eol first now) s h in
      let start = L.begin_tables s in
      done.1.rows id
      ∙ hear_body-row m eol first now (G.begin s) id done.0
      ∙ rw (start.rows id, start.rows (I.pretty m.from))

  hear_body-captures :
      (m : Message I) (eol first now : ℕ) (s : G.State)
      → (hear_body G I m eol first now s).1 ≡ none
      → (hear_body G I m eol first now s).0 ≡ (or_blank (G.peer_row s (I.pretty m.from))).banned
  unfolding hear_body save_last
  hear_body-captures m eol first now s h = elim (Result-cases (load_peer G (I.pretty m.from) s)) [
    | inl (found, e) ↦ ground (arith, load_peer-row G L (I.pretty m.from) s found e)
    | inr (x, e) ↦ ground arith
  ]

  heard-row :
      (m : Message I) (eol first now : ℕ) (row : Option Peer)
      → ((p : Peer) → row ≡ some p → p.peer_id ≡ I.pretty m.from)
      → heard I m eol first now row ≡ record (or_blank row) {
        peer_id = I.pretty m.from;
        first_seen = first_time first row;
        last_seen = now;
        ipns_expiration = eol;
        ipns_record = m.content;
      }
  heard-row m eol first now none h = refl
  heard-row m eol first now (some p) h =
      ap
        (λ k. record p {
          peer_id = k;
          last_seen = now;
          ipns_expiration = eol;
          ipns_record = m.content;
        })
        (h p refl)

  -- A new message with a valid record, whose transaction succeeds, leaves the record, its end of
  -- life and the time in the sender's row, keeps the rest of a row that was there and every other
  -- row, and queues one job with the record unless the sender's row is marked as banned.
  pub handle_message-saves :
      (message_id : Message I → String) (m : Message I) (first now : ℕ) (recent : List String)
      (s : G.State) (v : Valid I) (id : String)
      → contains recent (message_id m) ≡ false
      → check_message I m ≡ ok v
      → (update G (hear_body G I m v.eol first now) s).1 ≡ none
      → let row = G.peer_row s (I.pretty m.from) in
        let after = handle_message G I message_id m first now recent s in
        (G.peer_row after.2 id ≡ (
          if same id (I.pretty m.from)
          then some (record (or_blank row) {
            peer_id = I.pretty m.from;
            first_seen = first_time first row;
            last_seen = now;
            ipns_expiration = v.eol;
            ipns_record = m.content;
          })
          else G.peer_row s id))
        × (after.0 ≡ (if (or_blank row).banned then [] else pubsub_job G I m v ∷ []))
        × (after.1 ≡ message_id m ∷ recent)
  unfolding handle_message
  handle_message-saves message_id m first now recent s v id fresh valid done =
      let (body, _) = update_done G L (hear_body G I m v.eol first now) s done in
      let start = (L.begin_tables s).rows (I.pretty m.from) in
      let row = G.peer_row s (I.pretty m.from) in
      (
        rw (fresh, valid)
            (hear-row m v.eol first now s id done
              ∙ ap (λ k. if same id (I.pretty m.from) then some k else G.peer_row s id)
                  (heard-row m v.eol first now row (λ p e. L.row_key s (I.pretty m.from) p e))),
        rw (
          fresh,
          valid,
          update_captured G (hear_body G I m v.eol first now) s,
          hear_body-captures m v.eol first now (G.begin s) body,
          start,
        ),
        rw fresh,
      )

  -- A message whose record does not pass the checks queues nothing and leaves the database alone.
  pub handle_message-invalid :
      (message_id : Message I → String) (m : Message I) (first now : ℕ) (recent : List String)
      (s : G.State) (e : GoError)
      → check_message I m ≡ err e
      → ((handle_message G I message_id m first now recent s).0 ≡ [])
        × ((handle_message G I message_id m first now recent s).2 ≡ s)
  unfolding handle_message
  handle_message-invalid message_id m first now recent s e bad = (ground arith, ground arith)
