-- ===== src/Crawler/System/Spec.antt =====
-- A specification of one peer as a small transition system, against the runs of the whole crawler.
use obcrawler.Base.{
  ℕ, ◌+◌, ◌≤◌, String, ◌≡◌, ◌≢◌, refl, ◌∙◌, ap, sym, Bool, true, false, List, [], ◌∷◌, ◌++◌, arith,
  same, if◌then◌else◌, ◌⊎◌, inl, inr, Bool-cases,
}
use obcrawler.Ipfs.{Ipfs, Job, PrintsAlike, DecodesPeers}
use obcrawler.Repo.Models.{Peer}
use obcrawler.Repo.Gorm.{Gorm, IsLawful}
use obcrawler.Crawler.Network.{Network}
use obcrawler.Crawler.Peers.{or_blank}
use obcrawler.Crawler.Pubsub.{Message}
use obcrawler.Crawler.System.{
  System, Step, Reach, here, next, crawls, bans, unbans, connects, hears, ticks, unpins, answers,
  takes, saves, marks,
}
use obcrawler.Crawler.System.Rows.{
  Action, banning, unbanning, other, IsKeyed, IsBanned, Mark, keeps, keyless, marks_it, clears_it,
  Change, no_row, one_row,
}
use obcrawler.Crawler.System.Keyed.{action, Step-Change, IsKeyed-Reach}
use obcrawler.Crawler.System.Jobs.{
  ReadsPeers, ForOthers, crawl_node-ForOthers, handle_message-ForOthers, old_tick-ForOthers,
}

-- A peer: whether it is banned, and how many jobs wait for it.
pub record PeerView : Type 0 where
  pub banned : Bool
  pub queued : ℕ

-- What an action may do to a peer. Its mark changes only when it is banned or unbanned, and then no
-- job comes or goes; jobs come only while it is not banned, and when nobody bans or unbans.
pub data SpecStep (key : String) (a : Action) (v w : PeerView) : Type 0 where
  rests : w.banned ≡ v.banned → w.queued ≤ v.queued → SpecStep key a v w
  queues :
      a ≡ other → v.banned ≡ false → w.banned ≡ false → v.queued ≤ w.queued → SpecStep key a v w
  is_banned : a ≡ banning key → w.banned ≡ true → w.queued ≡ v.queued → SpecStep key a v w
  is_unbanned : a ≡ unbanning key → w.banned ≡ false → w.queued ≡ v.queued → SpecStep key a v w

-- A run over the actions, the last one first.
pub data SpecRun (key : String) (v : PeerView) : List Action → PeerView → Type 0 where
  stays : SpecRun key v [] v
  does :
      (done : List Action) (a : Action) (w u : PeerView)
      → SpecRun key v done w
      → SpecStep key a w u
      → SpecRun key v (a ∷ done) u

module _ (G : Gorm) (I : Ipfs) (key : String) where
  abbrev pub jobs_for : List (Job I) → ℕ
  jobs_for [] = 0
  jobs_for (j ∷ js) = (if same (I.pretty j.peer) key then 1 else 0) + jobs_for js

  abbrev pub view_of : System G I → PeerView
  view_of s = record { banned = (or_blank (G.peer_row s.db key)).banned; queued = jobs_for s.queue }

  jobs_for-append : (xs ys : List (Job I)) → jobs_for (xs ++ ys) ≡ jobs_for xs + jobs_for ys
  jobs_for-append [] ys = omega arith
  jobs_for-append (x ∷ xs) ys = ground (arith, jobs_for-append xs ys)

  jobs_for-ForOthers :
      (L : IsLawful G) (js : List (Job I)) → ForOthers G L I key js → jobs_for js ≡ 0
  jobs_for-ForOthers L [] h = refl
  jobs_for-ForOthers L (j ∷ js) h =
      let other_peer = h.0 in ground (arith, jobs_for-ForOthers L js h.1)

  jobs_for-takes :
      (before after : List (Job I)) (j : Job I)
      → jobs_for (before ++ after) ≤ jobs_for (before ++ j ∷ after)
  jobs_for-takes before after j =
      omega (arith, jobs_for-append before after, jobs_for-append before (j ∷ after))

  -- The mark after a change.
  abbrev Marked : Action → System G I → System G I → Type 0
  Marked a s t =
      ((view_of t).banned ≡ (view_of s).banned)
      ⊎ ((a ≡ banning key) × ((view_of t).banned ≡ true))
      ⊎ ((a ≡ unbanning key) × ((view_of t).banned ≡ false))

  written-Marked :
      {a : Action} (s t : System G I) (k : String) (p : Peer)
      → key ≢ ""
      → Mark G I a s.db k p
      → key ≡ k
      → (view_of t).banned ≡ p.banned
      → Marked a s t
  written-Marked s t k p named (keeps e) there now =
      inl (now ∙ e ∙ ap (λ i. (or_blank (G.peer_row s.db i)).banned) (sym there))
  written-Marked s t k p named (keyless e) there now = absurd (named (there ∙ e))
  written-Marked s t k p named (marks_it e b) there now =
      inr (inl (e ∙ ap banning (sym there), now ∙ b))
  written-Marked s t k p named (clears_it e b) there now =
      inr (inr (e ∙ ap unbanning (sym there), now ∙ b))

  Change-Marked : {a : Action} (s t : System G I) → key ≢ "" → Change G I a s.db t.db → Marked a s t
  Change-Marked s t named (no_row rows) = inl (ap (λ r. (or_blank r).banned) (rows key))
  Change-Marked s t named (one_row k p isk m content times rows) = elim (Bool-cases (same key k)) [
    | inr ne ↦ inl (ground (arith, rows key))
    | inl eq ↦
        let there : key ≡ k = ground arith in
        let now : (view_of t).banned ≡ p.banned = ground (arith, rows key) in
        written-Marked s t k p named m there now
  ]

  -- A change that leaves the queue as it is, or takes jobs out.
  quiet_step :
      {a : Action} (s t : System G I)
      → Marked a s t
      → ((view_of t).queued ≡ (view_of s).queued)
      → SpecStep key a (view_of s) (view_of t)
  quiet_step s t (inl e) q = rests e (omega (arith, q))
  quiet_step s t (inr (inl (e, b))) q = is_banned e b q
  quiet_step s t (inr (inr (e, b))) q = is_unbanned e b q

  -- A step that adds jobs, none of which is for a banned peer.
  adding_step :
      (L : IsLawful G) (s t : System G I) (jobs : List (Job I))
      → Marked other s t
      → t.queue ≡ jobs ++ s.queue
      → (IsBanned G I s.db key → ForOthers G L I key jobs)
      → SpecStep key other (view_of s) (view_of t)
  adding_step L s t jobs (inr (inl (e, b))) q free = absurd (ground arith)
  adding_step L s t jobs (inr (inr (e, b))) q free = absurd (ground arith)
  adding_step L s t jobs (inl e) q free =
      let sum : (view_of t).queued ≡ jobs_for jobs + (view_of s).queued =
        ap jobs_for q ∙ jobs_for-append jobs s.queue in
      elim (Bool-cases (view_of s).banned) [
        | inl b ↦ rests e (omega (arith, sum, jobs_for-ForOthers L jobs (free b)))
        | inr b ↦ queues refl b (e ∙ b) (omega (arith, sum))
      ]

module _ (G : Gorm) (L : IsLawful G) (I : Ipfs) (N : Network I) (message_id : Message I → String)
    (kept : String) (alike : PrintsAlike I) (dec : DecodesPeers I) (reads : ReadsPeers G)
    (key : String) (named : key ≢ "") where
  Step-Marked :
      {s t : System G I} (st : Step G I N message_id kept s t)
      → Marked G I key (action G I N message_id kept st) s t
  Step-Marked {s} {t} st =
      Change-Marked G I key s t named (Step-Change G L I N message_id kept alike st)

  -- Every step of the crawler is a step of the specification of every peer.
  pub Step-SpecStep :
      {s t : System G I} (st : Step G I N message_id kept s t)
      → IsKeyed G I s.db
      → SpecStep key (action G I N message_id kept st) (view_of G I key s) (view_of G I key t)
  Step-SpecStep {s} {t} (crawls pin pid) keyed =
      adding_step G I key L s t _ (Step-Marked {s = s} (crawls pin pid)) refl
        (λ b. crawl_node-ForOthers G L I key pin pid s.db b)
  Step-SpecStep {s} {t} (hears m first now recent) keyed =
      adding_step G I key L s t _ (Step-Marked {s = s} (hears m first now recent)) refl
        (λ b. handle_message-ForOthers G L I key message_id m first now recent s.db reads b)
  Step-SpecStep {s} {t} (ticks pin t₁ t₂ t₃) keyed =
      adding_step G I key L s t _ (Step-Marked {s = s} (ticks pin t₁ t₂ t₃)) refl
        (λ b. old_tick-ForOthers G L I key pin t₁ t₂ t₃ s.db dec keyed b)
  Step-SpecStep {s} {t} (takes before after j e) keyed =
      rests refl (rw e (jobs_for-takes G I key before after j))
  Step-SpecStep {s} {t} (bans nodes pid) keyed =
      quiet_step G I key s t (Step-Marked {s = s} (bans nodes pid)) refl
  Step-SpecStep {s} {t} (unbans pid spared) keyed =
      quiet_step G I key s t (Step-Marked {s = s} (unbans pid spared)) refl
  Step-SpecStep {s} {t} (connects pid first now) keyed =
      quiet_step G I key s t (Step-Marked {s = s} (connects pid first now)) refl
  Step-SpecStep {s} {t} (unpins nodes t₁ t₂) keyed =
      quiet_step G I key s t (Step-Marked {s = s} (unpins nodes t₁ t₂)) refl
  Step-SpecStep {s} {t} (answers render text) keyed =
      quiet_step G I key s t (Step-Marked {s = s} (answers render text)) refl
  Step-SpecStep {s} {t} (saves j graph) keyed =
      quiet_step G I key s t (Step-Marked {s = s} (saves j graph)) refl
  Step-SpecStep {s} {t} (marks j ca pa) keyed =
      quiet_step G I key s t (Step-Marked {s = s} (marks j ca pa)) refl

  -- The actions of a run, the last one first.
  abbrev pub actions : {s t : System G I} → Reach G I N message_id kept s t → List Action
  actions here = []
  actions (next r st) = action G I N message_id kept st ∷ actions r

  -- Every run of the crawler from well keyed rows is, seen from any one peer, a run of the
  -- specification with the same actions: the mark of the peer changes only when it is banned or
  -- unbanned, and jobs for it are queued only while it is not banned. That assumes that no lookup
  -- of a peer fails, that both texts of a peer are the same, and that peer.Decode reads them back
  -- and rejects the empty text.
  pub Reach-SpecRun :
      {s t : System G I} (r : Reach G I N message_id kept s t)
      → IsKeyed G I s.db
      → SpecRun key (view_of G I key s) (actions r) (view_of G I key t)
  Reach-SpecRun here keyed = stays
  Reach-SpecRun (next r st) keyed =
      does (actions r) _ _ _ (Reach-SpecRun r keyed)
        (Step-SpecStep st (IsKeyed-Reach G L I N message_id kept alike r keyed))
