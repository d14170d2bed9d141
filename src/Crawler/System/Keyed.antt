-- ===== src/Crawler/System/Keyed.antt =====
-- What any step does to the rows, and the keys of the rows of a crawler that has begun with none.
use obcrawler.Base.{String, ◌≡◌, ◌≢◌, refl, none}
use obcrawler.Ipfs.{Ipfs, PrintsAlike}
use obcrawler.Repo.Gorm.{Gorm, IsLawful}
use obcrawler.Crawler.Network.{Network}
use obcrawler.Crawler.Pubsub.{Message}
use obcrawler.Crawler.System.{
  System, Step, Reach, here, next, crawls, bans, unbans, connects, hears, ticks, unpins, answers,
  takes, saves, marks,
}
use obcrawler.Crawler.System.Rows.{
  Action, banning, unbanning, crawled_at, other, IsKeyed, Change, no_row, Change-IsKeyed,
}
use obcrawler.Crawler.System.Writes.{
  crawl_node-Change, ban_node-Change, unban_node-Change, update_peer-Change, handle_message-Change,
  save_body-Change,
}
use obcrawler.Crawler.System.Reads.{
  old_tick-Change, unpin_tick-Change, handler-Change, crawled_body-Change,
}

module _ (G : Gorm) (I : Ipfs) (N : Network I) (message_id : Message I → String)
    (kept : String) where
  -- What the step is asked to do to a mark.
  abbrev pub action : {s t : System G I} → Step G I N message_id kept s t → Action
  action (bans nodes pid) = banning (I.pretty pid)
  action (unbans pid spared) = unbanning (I.pid_string pid)
  action (crawls pin pid) = other
  action (connects pid first now) = other
  action (hears m first now recent) = other
  action (ticks pin t₁ t₂ t₃) = other
  action (unpins nodes t₁ t₂) = other
  action (answers render text) = other
  action (takes before after j e) = other
  action (saves j graph) = other
  action (marks j ca pa) = crawled_at ca

  unbanning-injective : (a b : String) → unbanning a ≡ unbanning b → a ≡ b
  unbanning-injective a b e = cc

  -- No step is asked to take the mark off the row with the key `kept`.
  pub action_spares :
      {s t : System G I} (st : Step G I N message_id kept s t) → action st ≢ unbanning kept
  action_spares (bans nodes pid) = λ e. cc
  action_spares (unbans pid spared) = λ e. spared (unbanning-injective _ _ e)
  action_spares (crawls pin pid) = λ e. cc
  action_spares (connects pid first now) = λ e. cc
  action_spares (hears m first now recent) = λ e. cc
  action_spares (ticks pin t₁ t₂ t₃) = λ e. cc
  action_spares (unpins nodes t₁ t₂) = λ e. cc
  action_spares (answers render text) = λ e. cc
  action_spares (takes before after j e) = λ q. cc
  action_spares (saves j graph) = λ e. cc
  action_spares (marks j ca pa) = λ e. cc

module _ (G : Gorm) (L : IsLawful G) (I : Ipfs) (N : Network I) (message_id : Message I → String)
    (kept : String) (alike : PrintsAlike I) where
  -- Each step writes one row at most, and its mark as the step is asked to.
  pub Step-Change :
      {s t : System G I} (st : Step G I N message_id kept s t)
      → Change G I (action G I N message_id kept st) s.db t.db
  Step-Change {s} (crawls pin pid) = crawl_node-Change G L I pin pid s.db
  Step-Change {s} (bans nodes pid) = ban_node-Change G L I nodes pid s.db
  Step-Change {s} (unbans pid spared) = unban_node-Change G L I pid s.db alike
  Step-Change {s} (connects pid first now) = update_peer-Change G L I pid first now s.db
  Step-Change {s} (hears m first now recent) =
      handle_message-Change G L I message_id m first now recent s.db
  Step-Change {s} (ticks pin t₁ t₂ t₃) = old_tick-Change G L I pin t₁ t₂ t₃ s.db
  Step-Change {s} (unpins nodes t₁ t₂) = unpin_tick-Change G L I nodes t₁ t₂ s.db
  Step-Change {s} (answers render text) = handler-Change G L I render text s.db
  Step-Change {s} (takes before after j e) = no_row (λ id. refl)
  Step-Change {s} (saves j graph) = save_body-Change G L I j graph s.db
  Step-Change {s} (marks j ca pa) = crawled_body-Change G L I N j ca pa s.db

  -- Along the steps of the crawler, every row keeps a key that the crawler makes.
  pub IsKeyed-Reach :
      {s t : System G I} → Reach G I N message_id kept s t → IsKeyed G I s.db → IsKeyed G I t.db
  IsKeyed-Reach here h = h
  IsKeyed-Reach (next r st) h = Change-IsKeyed G I (Step-Change st) (IsKeyed-Reach r h)

  -- A crawler that has begun with no rows has, after any of its steps but an UnbanNode of one peer,
  -- only rows whose key is empty or is that of a peer, where both texts of a peer are the same.
  pub Reach-IsKeyed :
      (s t : System G I)
      → ((id : String) → G.peer_row s.db id ≡ none)
      → Reach G I N message_id kept s t
      → IsKeyed G I t.db
  Reach-IsKeyed s t empty r = IsKeyed-Reach r (λ id some_row. absurd (some_row (empty id)))
