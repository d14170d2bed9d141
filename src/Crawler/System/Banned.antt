-- ===== src/Crawler/System/Banned.antt =====
-- A banned peer over any sequence of steps that does not unban it.
use obcrawler.Base.{
  ℕ, Bool, String, ◌≡◌, ◌≢◌, refl, ◌∙◌, ap, sym, none, List, [], ◌∷◌, ◌++◌, arith, All, All-append,
  All-map, Has, inl, inr, ◌⊎◌, same_self,
}
use obcrawler.Go.{GoError, ok}
use obcrawler.Ipfs.{Ipfs, Job, PrintsAlike, DecodesPeers}
use obcrawler.Repo.Gorm.{Gorm, IsLawful}
use obcrawler.Crawler.Network.{Network}
use obcrawler.Crawler.Peers.{ban_node, crawl_node}
use obcrawler.Crawler.Peers.Ban.{ban_node-row}
use obcrawler.Crawler.Peers.Gate.{crawl_node-gate}
use obcrawler.Crawler.Pubsub.{Message}
use obcrawler.Crawler.Resolver.{handler, handler-found}
use obcrawler.Crawler.System.{
  System, Step, Reach, here, next, crawls, bans, unbans, connects, hears, ticks, unpins, answers,
  takes, saves, marks,
}
use obcrawler.Crawler.System.Rows.{IsBanned, IsKeyed, Change-IsBanned, Change-IsKeyed}
use obcrawler.Crawler.System.Writes.{ban_node-Change}
use obcrawler.Crawler.System.Keyed.{Step-Change, action_spares}
use obcrawler.Crawler.System.Jobs.{
  ReadsPeers, ForOthers, ok-injective, crawl_node-ForOthers, handle_message-ForOthers,
  old_tick-ForOthers,
}

All-middle :
    {A : Type 0} (P : A → Type 0) (xs : List A) (y : A) (ys : List A)
    → All P (xs ++ y ∷ ys)
    → All P (xs ++ ys)
All-middle P [] y ys h = h.1
All-middle P (x ∷ xs) y ys h = (h.0, All-middle P xs y ys h.1)

All-Has : {A : Type 0} (xs : List A) → All (λ x. Has x xs) xs
All-Has [] = tt
All-Has (x ∷ xs) = (inl refl, All-map _ xs (λ y h. inr h) (All-Has xs))

module _ (G : Gorm) (L : IsLawful G) (I : Ipfs) (N : Network I) (message_id : Message I → String)
    (kept : String) where
  -- The peer with the key `kept` is banned, every row has a key that the crawler makes, and every
  -- job for that peer is among the old ones.
  pub record StaysBanned (old : List (Job I)) (s : System G I) : Type 0 where
    pub banned : IsBanned G I s.db kept
    pub keyed : IsKeyed G I s.db
    pub queued : All (λ j. Has j old ⊎ (I.pretty j.peer ≢ kept)) s.queue

  module _ (alike : PrintsAlike I) (dec : DecodesPeers I) (reads : ReadsPeers G) (named : kept ≢ "")
      (old : List (Job I)) where
    -- What any step does to the database.
    record Kept (t : System G I) : Type 0 where
      banned : IsBanned G I t.db kept
      keyed : IsKeyed G I t.db

    Step-Kept : {s t : System G I} → Step G I N message_id kept s t → StaysBanned old s → Kept t
    Step-Kept st h =
        let change = Step-Change G L I N message_id kept alike st in
        record {
          banned =
              Change-IsBanned G I named (action_spares G I N message_id kept st) change h.banned;
          keyed = Change-IsKeyed G I change h.keyed;
        }

    changed :
        {s : System G I} {db : G.State}
        → Kept (record s { db = db })
        → StaysBanned old s
        → StaysBanned old (record s { db = db })
    changed c h = record { banned = c.banned; keyed = c.keyed; queued = h.queued }

    queued_more :
        {s : System G I} {db : G.State} (jobs : List (Job I))
        → Kept (record { db = db; queue = jobs ++ s.queue })
        → ForOthers G L I kept jobs
        → StaysBanned old s
        → StaysBanned old (record { db = db; queue = jobs ++ s.queue })
    queued_more jobs c others h = record {
      banned = c.banned;
      keyed = c.keyed;
      queued = All-append _ _ _ (All-map _ _ (λ j o. inr o) others) h.queued;
    }

    Step-StaysBanned :
        {s t : System G I} → Step G I N message_id kept s t → StaysBanned old s → StaysBanned old t
    Step-StaysBanned {s} (crawls pin pid) h =
        queued_more _ (Step-Kept (crawls pin pid) h)
          (crawl_node-ForOthers G L I kept pin pid s.db h.banned) h
    Step-StaysBanned {s} (hears m first now recent) h =
        queued_more _ (Step-Kept (hears m first now recent) h)
          (handle_message-ForOthers G L I kept message_id m first now recent s.db reads h.banned) h
    Step-StaysBanned {s} (ticks pin t₁ t₂ t₃) h =
        queued_more _ (Step-Kept (ticks pin t₁ t₂ t₃) h)
          (old_tick-ForOthers G L I kept pin t₁ t₂ t₃ s.db dec h.keyed h.banned) h
    Step-StaysBanned {s} (takes before after j e) h = record {
      banned = h.banned;
      keyed = h.keyed;
      queued = All-middle _ before j after (rw (← e) h.queued);
    }
    Step-StaysBanned {s} (bans nodes pid) h = changed (Step-Kept (bans nodes pid) h) h
    Step-StaysBanned {s} (unbans pid other) h = changed (Step-Kept (unbans pid other) h) h
    Step-StaysBanned {s} (connects pid first now) h =
        changed (Step-Kept (connects pid first now) h) h
    Step-StaysBanned {s} (unpins nodes t₁ t₂) h = changed (Step-Kept (unpins nodes t₁ t₂) h) h
    Step-StaysBanned {s} (answers render text) h = changed (Step-Kept (answers render text) h) h
    Step-StaysBanned {s} (saves j graph) h = changed (Step-Kept (saves j graph) h) h
    Step-StaysBanned {s} (marks j ca pa) h = changed (Step-Kept (marks j ca pa) h) h

    -- Whatever the crawler does but unban the peer, the peer stays banned, the rows stay well keyed,
    -- and no job is queued for the peer.
    pub Reach-StaysBanned :
        {s t : System G I} → Reach G I N message_id kept s t → StaysBanned old s → StaysBanned old t
    Reach-StaysBanned here h = h
    Reach-StaysBanned (next r st) h = Step-StaysBanned st (Reach-StaysBanned r h)

pub pretty_named : (I : Ipfs) (pid : I.PeerId) → DecodesPeers I → I.pretty pid ≢ ""
pretty_named I pid dec = λ e. dec.rejects_empty pid (ap I.decode_peer (sym e) ∙ dec.decodes pid)

module _ (G : Gorm) (L : IsLawful G) (I : Ipfs) (N : Network I)
    (message_id : Message I → String) where
  pub ban_node-StaysBanned :
      (nodes : List I.Node) (pid : I.PeerId) (s : System G I)
      → IsKeyed G I s.db
      → (ban_node G I nodes pid s.db).1 ≡ none
      → StaysBanned G L I N message_id
          (I.pretty pid)
          s.queue
          (record s { db = (ban_node G I nodes pid s.db).2 })
  ban_node-StaysBanned nodes pid s keyed done = record {
    banned =
        ground
          (arith, ban_node-row G L I nodes pid s.db (I.pretty pid) done, same_self (I.pretty pid));
    keyed = Change-IsKeyed G I (ban_node-Change G L I nodes pid s.db) keyed;
    queued = All-map _ s.queue (λ j h. inl h) (All-Has s.queue);
  }

  -- After a BanNode that reported no error, and whatever steps follow it but an UnbanNode of the
  -- peer, CrawlNode refuses the peer, the resolver does not answer with its record, and the queue
  -- has no job for it but those that were there when it was banned. That assumes that no lookup of
  -- a peer fails, that every row had a key that the crawler makes, that both texts of a peer are
  -- the same, and that peer.Decode reads them back and rejects the empty text.
  pub Reach-ban_node :
      (nodes : List I.Node) (pid : I.PeerId) (s t : System G I) (pin : Bool)
      (render : GoError → List ℕ) (text : String)
      → PrintsAlike I
      → DecodesPeers I
      → ReadsPeers G
      → IsKeyed G I s.db
      → (ban_node G I nodes pid s.db).1 ≡ none
      → Reach G I N message_id (I.pretty pid) (record s { db = (ban_node G I nodes pid s.db).2 }) t
      → I.b58_decode_peer text ≡ ok pid
      → ((crawl_node G I pin pid t.db).0 ≡ [])
        × ((handler G I render text t.db).0.status ≢ 200)
        × All (λ j. Has j s.queue ⊎ (I.pretty j.peer ≢ I.pretty pid)) t.queue
  Reach-ban_node nodes pid s t pin render text alike dec reads keyed done r decoded =
      let held =
        Reach-StaysBanned G L I N message_id (I.pretty pid) alike dec reads (pretty_named I pid dec)
          s.queue r (ban_node-StaysBanned nodes pid s keyed done) in
      (
        elim (crawl_node-gate G L I pin pid t.db) [
          | inl (_, _, free) ↦ let b = held.banned in cc
          | inr (_, refused) ↦ refused
        ],
        (λ answered.
            let (pid', p, d, row, free, _) = handler-found G L I render text t.db answered in
            let same_pid : pid ≡ pid' = ok-injective pid pid' (sym decoded ∙ d) in
            let here : I.pretty pid ≡ I.pretty pid' = ap I.pretty same_pid in
            let b = held.banned in ground (arith, row, free, b, here)),
        held.queued,
      )
