-- ===== src/Crawler/Ticks/Alive.antt =====
-- What the unpin ticker of Start (crawler/crawler.go) unpins, and of which peers.
use obcrawler.Base.{
  ℕ, String, ◌≡◌, ◌≢◌, refl, List, [], ◌∷◌, arith, All, All-append, Bool-cases, inl, inr, All-map,
  Has, Option-cases, same_self, subst, same,
}
use obcrawler.Go.{ok, Result-cases}
use obcrawler.Ipfs.{Ipfs}
use obcrawler.Repo.Models.{Peer, CidRecord}
use obcrawler.Repo.Gorm.{
  Gorm, IsLawful, PeerFilter, SameTables, SameTables-trans, count_records, owner_is,
}
use obcrawler.Repo.Database.{view, update}
use obcrawler.Repo.Database.Atomic.{update_captured, update_pure}
use obcrawler.Crawler.Peers.{find_records, unpin_cid, unpin_records}
use obcrawler.Crawler.Ticks.{
  unpin_filters, goes_on, find_body, unpins_after, unpin_peers, unpin_tick,
}
use obcrawler.Crawler.Ticks.Due.{IsAlive, found_rows, Row-IsAlive}

counted : (rs : List CidRecord) (r : CidRecord) → Has r rs → count_records r.cid r.peer_id rs ≢ 0
counted [] r h = absurd h
counted (x ∷ rs) r (inl e) = rw e (ground (arith, same_self x.cid, same_self x.peer_id))
counted (x ∷ rs) r (inr h) = let later = counted rs r h in ground (arith, later)

module _ (G : Gorm) (I : Ipfs) (P : I.Node × I.Cid → Type 0) where
  unpin_cid-each :
      (ns : List I.Node) (c : I.Cid) → ((n : I.Node) → P (n, c)) → All P (unpin_cid G I ns c).0
  unfolding unpin_cid
  unpin_cid-each [] c h = tt
  unpin_cid-each (n ∷ ns) c h = elim (Option-cases (I.core_api n)) [
    | inl e ↦ rw (e, unpin_cid) (h n, unpin_cid-each ns c h)
    | inr (x, e) ↦ rw (e, unpin_cid) tt
  ]

  unpin_records-each :
      (nodes : List I.Node) (rs : List CidRecord)
      → ((r : CidRecord) (n : I.Node) (c : I.Cid) → Has r rs → I.decode_cid r.cid ≡ ok c → P (n, c))
      → All P (unpin_records G I nodes rs)
  unfolding unpin_records
  unpin_records-each nodes [] h = tt
  unpin_records-each nodes (r ∷ rs) h =
      let rest = unpin_records-each nodes rs (λ x n c has d. h x n c (inr has) d) in
      elim (Result-cases (I.decode_cid r.cid)) [
        | inl (c, e) ↦
            rw (e, unpin_records)
              (All-append P (unpin_cid G I nodes c).0 (unpin_records G I nodes rs)
                (unpin_cid-each nodes c (λ n. h r n c (inl refl) e)) rest)
        | inr (x, e) ↦ rw (e, unpin_records) rest
      ]

module _ (G : Gorm) (L : IsLawful G) (I : Ipfs) where
  find_records-owned :
      (key : String) (s : G.State) (r : CidRecord)
      → Has r (find_records G key s).0
      → G.copies s r.cid key ≢ 0
  unfolding find_records
  find_records-owned key s r h = elim (Result-cases (G.find_cids (owner_is key ∷ []) s)) [
    | inl (rs, e) ↦
        let found : (find_records G key s).0 ≡ rs = rw (e, find_records) refl in
        let has : Has r rs = subst (Has r) found h in
        let some_of : count_records r.cid r.peer_id rs ≢ 0 = counted rs r has in
        let law = L.find_cids_count (owner_is key ∷ []) s rs r.cid r.peer_id e in
        λ none_left. elim (Bool-cases (same r.peer_id key)) [
          | inl owned ↦
              let owner : r.peer_id ≡ key = ground arith in
              ground (arith, law, some_of, none_left, owner)
          | inr not_owned ↦ ground (arith, law, some_of)
        ]
    | inr (x, e) ↦
        let none_found : (find_records G key s).0 ≡ [] = rw (e, find_records) refl in
        absurd (subst (Has r) none_found h)
  ]

  -- The call is for a CID that the database has for a peer that is alive: the peer's record has not
  -- expired, and it was seen in the last ninety days.
  abbrev pub FromAlive : G.State → ℕ → ℕ → I.Node × I.Cid → Type 0
  FromAlive s t₁ t₂ call =
      (p : Peer) × (text : String) × IsAlive G L I s t₁ t₂ p
      × (I.decode_cid text ≡ ok call.1)
      × (G.copies s text p.peer_id ≢ 0)

  view-same : (key : String) (s : G.State) → SameTables G (view G (find_records G key) s).2 s
  unfolding view update find_records
  view-same key s = update_pure G L (find_records G key) s λ u.
      elim (Result-cases (G.find_cids (owner_is key ∷ []) u)) [
        | inl (rs, e) ↦ rw (e, find_records) refl
        | inr (x, e) ↦ rw (e, find_records) refl
      ]

  view-captured :
      (key : String) (s : G.State)
      → (view G (find_records G key) s).0 ≡ (find_records G key (G.begin s)).0
  unfolding view update
  view-captured key s = update_captured G (find_records G key) s

  unpins_after-alive :
      (nodes : List I.Node) (t₁ t₂ : ℕ) (s₀ s : G.State) (p : Peer)
      → IsAlive G L I s₀ t₁ t₂ p
      → SameTables G s s₀
      → All (FromAlive s₀ t₁ t₂) (unpins_after G I nodes (view G (find_records G p.peer_id) s)).0
  unpins_after-alive nodes t₁ t₂ s₀ s p alive tables =
      let found = view G (find_records G p.peer_id) s in
      elim (Bool-cases (goes_on found.1)) [
        | inl on ↦ rw on (
            unpin_records-each G I (FromAlive s₀ t₁ t₂) nodes found.0 (λ r n c has d.
              let owned : G.copies (G.begin s) r.cid p.peer_id ≢ 0 =
                find_records-owned p.peer_id (G.begin s) r
                  (subst (Has r) (view-captured p.peer_id s) has) in
              (
                p,
                r.cid,
                alive,
                d,
                rw (← tables.copies r.cid p.peer_id, ← (L.begin_tables s).copies r.cid p.peer_id)
                    owned,
              )))
        | inr off ↦ rw off tt
      ]

  unpin_peers-alive :
      (nodes : List I.Node) (t₁ t₂ : ℕ) (s₀ : G.State) (ps : List Peer) (s : G.State)
      → SameTables G s s₀
      → All (IsAlive G L I s₀ t₁ t₂) ps
      → All (FromAlive s₀ t₁ t₂) (unpin_peers G I nodes ps s).0
  unfolding unpin_peers
  unpin_peers-alive nodes t₁ t₂ s₀ [] s tables h = tt
  unpin_peers-alive nodes t₁ t₂ s₀ (p ∷ ps) s tables h =
      let found = view G (find_records G p.peer_id) s in
      All-append (FromAlive s₀ t₁ t₂) (unpins_after G I nodes found).0
        (unpin_peers G I nodes ps found.2).0 (unpins_after-alive nodes t₁ t₂ s₀ s p h.0 tables)
        (unpin_peers-alive nodes t₁ t₂ s₀ ps found.2
          (SameTables-trans G _ s s₀ (view-same p.peer_id s) tables) h.1)

  found_tables : (fs : List PeerFilter) (s : G.State) → SameTables G (view G (find_body G fs) s).2 s
  unfolding view update find_body
  found_tables fs s = update_pure G L (find_body G fs) s λ u.
      elim (Result-cases (G.find_peers fs 10 u)) [
        | inl (ps, e) ↦ rw (e, find_body) refl
        | inr (x, e) ↦ rw (e, find_body) refl
      ]

  -- The unpin ticker unpins only CIDs that the database has for a peer that is alive: one whose
  -- record has not expired and that was seen in the last ninety days.
  pub unpin_tick-alive :
      (nodes : List I.Node) (t₁ t₂ : ℕ) (s : G.State)
      → All (FromAlive s t₁ t₂) (unpin_tick G I nodes t₁ t₂ s).0
  unfolding unpin_tick
  unpin_tick-alive nodes t₁ t₂ s =
      let fs = unpin_filters t₁ t₂ in
      let found = view G (find_body G fs) s in
      let (rows, _) = found_rows G L I fs s in
      elim (Bool-cases (goes_on found.1)) [
        | inl on ↦ rw on (
            unpin_peers-alive nodes t₁ t₂ s found.0 found.2 (found_tables fs s)
              (All-map _ _ (Row-IsAlive G L I t₁ t₂ s) rows))
        | inr off ↦ rw off tt
      ]
