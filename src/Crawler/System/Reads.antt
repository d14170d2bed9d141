-- ===== src/Crawler/System/Reads.antt =====
-- The steps that only read: the tickers and the resolver; and the row that a crawl marks.
use obcrawler.Base.{
  ℕ, String, ◌≡◌, refl, ◌∙◌, sym, Option, none, some, List, [], ◌∷◌, arith, same, Bool, inl, inr,
  if◌then◌else◌, Bool-cases,
}
use obcrawler.Go.{GoError, record_not_found, message, foreign, Result, ok, err, Result-cases}
use obcrawler.Ipfs.{Ipfs, Job}
use obcrawler.Repo.Models.{Peer}
use obcrawler.Repo.Gorm.{Gorm, IsLawful, PeerFilter}
use obcrawler.Repo.Database.{Outcome, update, view}
use obcrawler.Repo.Database.Atomic.{update_done, update_pure}
use obcrawler.Crawler.Network.{Network}
use obcrawler.Crawler.Peers.{load_peer, save_last, find_records}
use obcrawler.Crawler.Peers.Rows.{load_peer-row}
use obcrawler.Crawler.Resolver.{handler, resolve_body, row_found, answer, resolve_decoded}
use obcrawler.Crawler.Ticks.{
  find_body, peers_found, old_filters, unpin_filters, goes_on, old_tick, unpin_peers, unpins_of,
  unpin_tick,
}
use obcrawler.Crawler.Worker.Run.{crawled, crawled_body}
use obcrawler.Crawler.System.Rows.{
  other, crawled_at, new_time, IsKey, Mark, keeps, keyless, Content, no_record, same_record, Change,
  no_row, one_row,
}
use obcrawler.Crawler.System.Writes.{update-Change, reads-Change}

module _ (G : Gorm) (L : IsLawful G) (I : Ipfs) where
  peers_found-state : (r : Result (List Peer)) (s : G.State) → (peers_found G r s).2 ≡ s
  peers_found-state (ok ps) s = refl
  peers_found-state (err e) s = refl

  find_body-Change :
      (fs : List PeerFilter) (s : G.State) → Change G I other s (view G (find_body G fs) s).2
  unfolding view update find_body
  find_body-Change fs s =
      reads-Change G L I (find_body G fs) s (λ u. peers_found-state (G.find_peers fs 10 u) u)

  pub old_tick-Change :
      (pin : Bool) (t₁ t₂ t₃ : ℕ) (s : G.State) → Change G I other s (old_tick G I pin t₁ t₂ t₃ s).1
  unfolding old_tick
  old_tick-Change pin t₁ t₂ t₃ s = find_body-Change (old_filters t₁ t₂ t₃) s

  row_found-state : (r : Result Peer) (s : G.State) → (row_found G I r s).2 ≡ s
  row_found-state (ok p) s = refl
  row_found-state (err e) s = refl

  answer-state :
      (render : GoError → List ℕ) (r : Outcome G.State Peer) → (answer G I render r).1 ≡ r.2
  answer-state render (p, none, s) = refl
  answer-state render (p, some record_not_found, s) = refl
  answer-state render (p, some (message t), s) = refl
  answer-state render (p, some (foreign n), s) = refl

  resolve_decoded-Change :
      (render : GoError → List ℕ) (r : Result I.PeerId) (s : G.State)
      → Change G I other s (resolve_decoded G I render r s).1
  unfolding view update resolve_body
  resolve_decoded-Change render (err e) s = no_row (λ id. refl)
  resolve_decoded-Change render (ok pid) s =
      rw answer-state (reads-Change G L I (resolve_body G I pid) s (λ u. row_found-state _ u))

  pub handler-Change :
      (render : GoError → List ℕ) (text : String) (s : G.State)
      → Change G I other s (handler G I render text s).1
  unfolding handler
  handler-Change render text s = resolve_decoded-Change render (I.b58_decode_peer text) s

  find_records-state : (id : String) (s : G.State) → (find_records G id s).2 ≡ s
  unfolding find_records
  find_records-state id s = ground arith

  unpin_peers-rows :
      (nodes : List I.Node) (ps : List Peer) (s : G.State) (id : String)
      → G.peer_row (unpin_peers G I nodes ps s).1 id ≡ G.peer_row s id
  unfolding unpin_peers view update
  unpin_peers-rows nodes [] s id = refl
  unpin_peers-rows nodes (p ∷ ps) s id =
      let t = (update G (find_records G p.peer_id) s).2 in
      unpin_peers-rows nodes ps t id
      ∙ (update_pure G L (find_records G p.peer_id) s (find_records-state p.peer_id)).rows id

  unpins_of-rows :
      (nodes : List I.Node) (r : Outcome G.State (List Peer)) (id : String)
      → G.peer_row (unpins_of G I nodes r).1 id ≡ G.peer_row r.2 id
  unpins_of-rows nodes (ps, e, s) id = elim (Bool-cases (goes_on e)) [
    | inl on ↦ rw on (unpin_peers-rows nodes ps s id)
    | inr off ↦ rw off
  ]

  pub unpin_tick-Change :
      (nodes : List I.Node) (t₁ t₂ : ℕ) (s : G.State)
      → Change G I other s (unpin_tick G I nodes t₁ t₂ s).1
  unfolding unpin_tick view update find_body
  unpin_tick-Change nodes t₁ t₂ s =
      let fs = unpin_filters t₁ t₂ in
      no_row λ id.
        unpins_of-rows nodes (update G (find_body G fs) s) id
        ∙ (update_pure G L (find_body G fs) s
              (λ u. peers_found-state (G.find_peers fs 10 u) u)).rows
            id

  module _ (N : Network I) where
    crawled_body-row :
        (j : Job I) (ca pa : ℕ) (s : G.State) (id : String)
        → (crawled_body G I N j ca pa s).1 ≡ none
        → let k = crawled G I N j ca pa (G.peer_row s (I.pretty j.peer)) in
          G.peer_row (crawled_body G I N j ca pa s).2 id
          ≡ (if same id k.peer_id then some k else G.peer_row s id)
    unfolding crawled_body save_last
    crawled_body-row j ca pa s id h = elim (Result-cases (load_peer G (I.pretty j.peer) s)) [
      | inl (found, e) ↦ ground (
        arith,
        load_peer-row G L (I.pretty j.peer) s found e,
        L.save_peer_row (crawled G I N j ca pa found) s id,
      )
      | inr (x, e) ↦ ground arith
    ]

    pub mark-row :
        (j : Job I) (ca pa : ℕ) (s : G.State) (id : String)
        → (update G (crawled_body G I N j ca pa) s).1 ≡ none
        → let k = crawled G I N j ca pa (G.peer_row s (I.pretty j.peer)) in
          G.peer_row (update G (crawled_body G I N j ca pa) s).2 id
          ≡ (if same id k.peer_id then some k else G.peer_row s id)
    mark-row j ca pa s id h =
        let start = L.begin_tables s in
        let done = update_done G L (crawled_body G I N j ca pa) s h in
        done.1.rows id
        ∙ crawled_body-row j ca pa (G.begin s) id done.0
        ∙ rw (start.rows id, start.rows (I.pretty j.peer))

    crawled-IsKey :
        (j : Job I) (ca pa : ℕ) (found : Option Peer)
        → ((p : Peer) → found ≡ some p → p.peer_id ≡ I.pretty j.peer)
        → IsKey I (crawled G I N j ca pa found).peer_id
    crawled-IsKey j ca pa none h = inl refl
    crawled-IsKey j ca pa (some p) h = inr (j.peer, sym (h p refl))

    crawled-Mark :
        (j : Job I) (ca pa : ℕ) (s : G.State) (found : Option Peer)
        → G.peer_row s (I.pretty j.peer) ≡ found
        → Mark G I
            (crawled_at ca)
            s
            (crawled G I N j ca pa found).peer_id
            (crawled G I N j ca pa found)
    crawled-Mark j ca pa s none row = keyless refl
    crawled-Mark j ca pa s (some p) row =
        keeps (ground (arith, L.row_key s (I.pretty j.peer) p row))

    crawled-Content :
        (j : Job I) (ca pa : ℕ) (s : G.State) (found : Option Peer)
        → G.peer_row s (I.pretty j.peer) ≡ found
        → let k = crawled G I N j ca pa found in Content G I s k.peer_id k
    crawled-Content j ca pa s none row = no_record refl
    crawled-Content j ca pa s (some p) row =
        same_record (ground (arith, L.row_key s (I.pretty j.peer) p row))

    -- A crawl of an unknown peer writes the row under the empty key.
    pub crawled_body-Change :
        (j : Job I) (ca pa : ℕ) (s : G.State)
        → Change G I (crawled_at ca) s (update G (crawled_body G I N j ca pa) s).2
    crawled_body-Change j ca pa s =
        update-Change G L I (crawled_at ca) (crawled_body G I N j ca pa) s λ e.
          let found = G.peer_row s (I.pretty j.peer) in
          let k = crawled G I N j ca pa found in
          one_row k.peer_id k
            (crawled-IsKey j ca pa found (λ p f. L.row_key s (I.pretty j.peer) p f))
            (crawled-Mark j ca pa s found refl) (crawled-Content j ca pa s found refl)
            (new_time refl) (λ id. mark-row j ca pa s id e)
