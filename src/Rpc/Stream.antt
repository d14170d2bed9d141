-- ===== src/Rpc/Stream.antt =====
-- Subscribe of rpc/server.go: the loop between a subscription of the crawler and the stream of a
-- client. What the two channels of its `select` deliver is a list of events.
use obcrawler.Base.{
  ℕ, suc, ◌≡◌, refl, ◌∙◌, ap, Option, none, some, List, [], ◌∷◌, ◌++◌, map, arith, ◌==◌,
  if◌then◌else◌, inl, inr, Option-cases,
}
use obcrawler.Go.{GoError, Result, ok, err}
use obcrawler.Crawler.Worker.Defs.{Payload, profile, listing, Object}
use obcrawler.Crawler.Subs.{Subs, lookup_sub, subscribe, close_sub, close_sub_lem, lookup-subscribe}
use obcrawler.Rpc.Models.{Models}
use obcrawler.Rpc.Profile.{PbProfile, pb_profile}

-- `case obj := <-sub.Out` and `case <-stream.Context().Done()`
pub data Incoming (P L : Type 0) : Type 0 where
  obj : Object P L → Incoming P L
  gone : Incoming P L

-- The loop waits for the next event, or it has returned, which closes the subscription.
pub data Course : Type 0 where
  waiting : Course
  ended : Option GoError → Course

module _ (M : Models) (L : Type 0) where
  pub data PbData : Type 0 where
    user_profile : PbProfile M → PbData
    user_listing : L → PbData

  pub record UserData : Type 0 where
    pub expiration : M.Timestamp
    pub content : PbData

  abbrev pub with_last_modified : M.Profile → M.Timestamp → Result M.Timestamp → Option UserData
  with_last_modified o ts (err e) = none
  with_last_modified o ts (ok last_modified) =
      some (record { expiration = ts; content = user_profile (pb_profile M o last_modified) })

  abbrev pub with_expiration : Payload M.Profile L → Result M.Timestamp → Option UserData
  with_expiration d (err e) = none
  with_expiration (profile o) (ok ts) =
      with_last_modified o ts (M.timestamp_proto (M.last_modified o))
  with_expiration (listing l) (ok ts) = some (record { expiration = ts; content = user_listing l })

  -- The message of an object; none where a time does not convert, which is only logged.
  unfoldable pub user_data : Object M.Profile L → Option UserData
  user_data o = with_expiration o.payload (M.timestamp_proto o.expiration_date)

  -- What was sent, and the course. `send` is stream.Send of the message, after so many others.
  unfoldable pub subscribe_loop :
      (ℕ → UserData → Option GoError) → ℕ → List (Incoming M.Profile L) → List UserData × Course
  subscribe_loop send n [] = ([], waiting)
  subscribe_loop send n (gone ∷ es) = ([], ended none)
  subscribe_loop send n (obj o ∷ es) = elim (user_data o) [
    | none ↦ subscribe_loop send n es
    | some ud ↦ elim (send n ud) [
      | some e ↦ ([], ended (some e))
      | none ↦ let (sent, course) = subscribe_loop send (suc n) es in (ud ∷ sent, course)
    ]
  ]

  -- The messages of the objects that have one, in order.
  unfoldable pub messages : List (Object M.Profile L) → List UserData
  messages [] = []
  messages (o ∷ os) = elim (user_data o) [ none ↦ messages os | some ud ↦ ud ∷ messages os ]

  -- The objects that come before the client has gone.
  abbrev pub delivered : List (Incoming M.Profile L) → List (Object M.Profile L)
  delivered [] = []
  delivered (gone ∷ es) = []
  delivered (obj o ∷ es) = o ∷ delivered es

  -- Where no send fails, the client gets the message of every object that has one, in their order
  -- and each once, until it has gone; and the loop then returns without an error.
  pub subscribe_loop-messages :
      (send : ℕ → UserData → Option GoError) (n : ℕ) (os : List (Object M.Profile L))
      (es : List (Incoming M.Profile L))
      → ((k : ℕ) (ud : UserData) → send k ud ≡ none)
      → subscribe_loop send n (map obj os ++ gone ∷ es) ≡ (messages os, ended none)
  unfolding subscribe_loop messages
  subscribe_loop-messages send n [] es works = refl
  subscribe_loop-messages send n (o ∷ os) es works = elim (Option-cases (user_data o)) [
    | inl e ↦ rw (e, subscribe_loop, messages) (subscribe_loop-messages send n os es works)
    | inr (ud, e) ↦
        rw (e, works, subscribe_loop, messages)
          (ap (λ (r : List UserData × Course). (ud ∷ r.0, r.1))
            (subscribe_loop-messages send (suc n) os es works))
  ]

  -- Whatever fails, what was sent is a first part of the messages of the objects that came
  -- before the client went.
  pub subscribe_loop_prefix :
      (send : ℕ → UserData → Option GoError) (n : ℕ) (es : List (Incoming M.Profile L))
      → (rest : List UserData) × ((subscribe_loop send n es).0 ++ rest ≡ messages (delivered es))
  unfolding subscribe_loop messages
  subscribe_loop_prefix send n [] = ([], refl)
  subscribe_loop_prefix send n (gone ∷ es) = ([], refl)
  subscribe_loop_prefix send n (obj o ∷ es) = elim (Option-cases (user_data o)) [
    | inl e ↦ rw (e, subscribe_loop, messages, ◌++◌) (subscribe_loop_prefix send n es)
    | inr (ud, e) ↦ elim (Option-cases (send n ud)) [
      | inl s ↦
          let (rest, h) = subscribe_loop_prefix send (suc n) es in
          rw (e, s, subscribe_loop, messages, ◌++◌) (rest, ap (λ ts. ud ∷ ts) h)
      | inr (x, s) ↦ rw (e, s, subscribe_loop, messages, ◌++◌) (ud ∷ messages (delivered es), refl)
    ]
  ]

  abbrev pub closed_after : Course → ℕ → Subs → Subs
  closed_after waiting i subs = subs
  closed_after (ended e) i subs = (close_sub i subs).1

  -- The whole handler: it subscribes under a random id, `drawn`, with the channel `ch`, runs the
  -- loop, and closes the subscription when the loop returns. The map of subscriptions is the last
  -- result.
  unfoldable pub rpc_subscribe :
      (ℕ → UserData → Option GoError)
      → Result ℕ
      → ℕ
      → Subs
      → List (Incoming M.Profile L)
      → List UserData × Course × Subs
  rpc_subscribe send (err e) ch subs es = ([], ended (some e), subs)
  rpc_subscribe send (ok i) ch subs es =
      let (sent, course) = subscribe_loop send 0 es in
      (sent, course, closed_after course i (subscribe i ch subs))

  -- When a client has gone or a send has failed, its id has no channel any more, and every other
  -- id has the channel that it had before the client came, where no other client comes or goes
  -- meanwhile.
  pub rpc_subscribe-lookup :
      (send : ℕ → UserData → Option GoError) (i k ch : ℕ) (subs : Subs)
      (es : List (Incoming M.Profile L)) (e : Option GoError)
      → (subscribe_loop send 0 es).1 ≡ ended e
      → lookup_sub k (rpc_subscribe send (ok i) ch subs es).2
        ≡ (if k == i then none else lookup_sub k subs)
  unfolding rpc_subscribe
  rpc_subscribe-lookup send i k ch subs es e h =
      ap (λ c. lookup_sub k (closed_after c i (subscribe i ch subs))) h
      ∙ (close_sub_lem i k (subscribe i ch subs)).0
      ∙ ground (arith, lookup-subscribe i k ch subs)
