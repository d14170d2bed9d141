-- ===== src/Crawler/System/Rows.antt =====
-- What a step may do to the rows: change none, or one.
use obcrawler.Base.{
  ℕ, String, ◌≡◌, ◌≢◌, ◌∙◌, ap, sym, true, false, none, some, [], arith, same, subst, ◌⊎◌, inl, inr,
  if◌then◌else◌, Bool-cases,
}
use obcrawler.Go.{ok}
use obcrawler.Ipfs.{Ipfs}
use obcrawler.Repo.Models.{Peer}
use obcrawler.Repo.Gorm.{Gorm}
use obcrawler.Crawler.Peers.{or_blank}
use obcrawler.Crawler.Pubsub.{Message, Valid, check_message}

-- A key that the crawler makes: the empty one, or that of a peer.
abbrev pub IsKey : (I : Ipfs) → String → Type 0
IsKey I id = (id ≡ "") ⊎ ((pid : I.PeerId) × (I.pretty pid ≡ id))

-- What a step is asked to do to the mark of a row, with the key of the peer that is banned or
-- unbanned; or that it saves the time of a crawl.
pub data Action : Type 0 where
  banning unbanning : String → Action
  crawled_at : ℕ → Action
  other : Action

module _ (G : Gorm) (I : Ipfs) where
  abbrev pub IsBanned : G.State → String → Type 0
  IsBanned s id = (or_blank (G.peer_row s id)).banned ≡ true

  -- Every row has a key that the crawler makes.
  abbrev pub IsKeyed : G.State → Type 0
  IsKeyed s = (id : String) → G.peer_row s id ≢ none → IsKey I id

  -- What a row that is written has for a mark: the one of before; or the row has the empty key; or
  -- it is what the action is about.
  pub data Mark (a : Action) (s : G.State) (key : String) (k : Peer) : Type 0 where
    keeps : k.banned ≡ (or_blank (G.peer_row s key)).banned → Mark a s key k
    keyless : key ≡ "" → Mark a s key k
    marks_it : a ≡ banning key → k.banned ≡ true → Mark a s key k
    clears_it : a ≡ unbanning key → k.banned ≡ false → Mark a s key k

  -- What a row that is written has for a record: none, that of before, or the content of a message
  -- from the peer of the row that has passed the checks.
  pub data Content (s : G.State) (key : String) (k : Peer) : Type 0 where
    no_record : k.ipns_record ≡ [] → Content s key k
    same_record : k.ipns_record ≡ (or_blank (G.peer_row s key)).ipns_record → Content s key k
    checked_record :
        (m : Message I) (v : Valid I)
        → I.pretty m.from ≡ key
        → check_message I m ≡ ok v
        → k.ipns_record ≡ m.content
        → Content s key k

  -- What a row that is written has for the time of the last crawl: that of before, or the new one.
  pub data Times (a : Action) (s : G.State) (key : String) (k : Peer) : Type 0 where
    same_time : k.last_crawled ≡ (or_blank (G.peer_row s key)).last_crawled → Times a s key k
    new_time : a ≡ crawled_at k.last_crawled → Times a s key k

  -- At most one row is written, under a key that the crawler makes, with a mark, a record and a time
  -- as above.
  pub data Change (a : Action) (s t : G.State) : Type 0 where
    no_row : ((id : String) → G.peer_row t id ≡ G.peer_row s id) → Change a s t
    one_row :
        (key : String) (k : Peer)
        → IsKey I key
        → Mark a s key k
        → Content s key k
        → Times a s key k
        → ((id : String) → G.peer_row t id ≡ (if same id key then some k else G.peer_row s id))
        → Change a s t

  Mark-IsBanned :
      {a : Action} {s : G.State} {kept : String} (key : String) (k : Peer)
      → Mark a s key k
      → kept ≢ ""
      → a ≢ unbanning kept
      → kept ≡ key
      → IsBanned s kept
      → k.banned ≡ true
  Mark-IsBanned {s = s} key k (keeps e) named other_one e' b = e ∙ subst (λ i. IsBanned s i) e' b
  Mark-IsBanned key k (keyless e) named other_one e' b = absurd (named (e' ∙ e))
  Mark-IsBanned key k (marks_it e m) named other_one e' b = m
  Mark-IsBanned key k (clears_it e m) named other_one e' b =
      absurd (other_one (e ∙ ap unbanning (sym e')))

  pub Change-IsBanned :
      {a : Action} {kept : String} {s t : G.State}
      → kept ≢ ""
      → a ≢ unbanning kept
      → Change a s t
      → IsBanned s kept
      → IsBanned t kept
  Change-IsBanned {kept = kept} named other_one (no_row same_rows) b =
      ground (arith, same_rows kept)
  Change-IsBanned {kept = kept} named other_one (one_row key k isk m content times rows) b =
      elim (Bool-cases (same kept key)) [
        | inl e ↦
            let here : kept ≡ key = ground arith in
            let marked = Mark-IsBanned key k m named other_one here b in ground (arith, rows kept)
        | inr e ↦ ground (arith, rows kept)
      ]

  pub Change-IsKeyed : {a : Action} {s t : G.State} → Change a s t → IsKeyed s → IsKeyed t
  Change-IsKeyed (no_row same_rows) h id some_row = h id (rw (← same_rows id) some_row)
  Change-IsKeyed {s = s} (one_row key k isk m content times rows) h id some_row =
      elim (Bool-cases (same id key)) [
        | inl e ↦ let here : id ≡ key = ground arith in rw here isk
        | inr e ↦ h id (let kept_row : G.peer_row s id ≢ none = ground (arith, rows id) in kept_row)
      ]
