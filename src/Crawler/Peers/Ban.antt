-- ===== src/Crawler/Peers/Ban.antt =====
-- What BanNode and UnbanNode leave in the database, and what CrawlNode does afterwards.
use obcrawler.Base.{
  ℕ, String, ◌≡◌, refl, ◌∙◌, true, false, Option, none, some, List, arith, same, if◌then◌else◌, inl,
  inr,
}
use obcrawler.Go.{Result-cases}
use obcrawler.Ipfs.{Ipfs, PrintsAlike}
use obcrawler.Repo.Models.{Peer}
use obcrawler.Repo.Gorm.{Gorm, IsLawful}
use obcrawler.Repo.Database.{update}
use obcrawler.Repo.Database.Atomic.{update_done}
use obcrawler.Crawler.Peers.{
  or_blank, load_peer, save_last, save_and_find, find_records, ban_body, ban_node, unban_body,
  unban_node, touched, seen_body, update_peer,
}
use obcrawler.Crawler.Peers.Rows.{load_peer-row}

-- The row of a banned peer, from the row before.
abbrev pub banned_row : String → Option Peer → Peer
banned_row id found = record (or_blank found) { peer_id = id; banned = true }

abbrev pub unbanned_row : String → Option Peer → Peer
unbanned_row id found = record (or_blank found) { peer_id = id; banned = false }

touched-key :
    (id : String) (first now : ℕ) (found : Option Peer)
    → ((p : Peer) → found ≡ some p → p.peer_id ≡ id)
    → (touched id first now found).peer_id ≡ id
touched-key id first now none h = refl
touched-key id first now (some p) h = h p refl

module _ (G : Gorm) (L : IsLawful G) where
  save_and_find-row :
      (p : Peer) (k : String) (s : G.State) (id : String)
      → (save_and_find G p k s).1 ≡ none
      → G.peer_row (save_and_find G p k s).2 id
        ≡ (if same id p.peer_id then some p else G.peer_row s id)
  unfolding save_and_find find_records
  save_and_find-row p k s id h = ground (arith, L.save_peer_row p s id)

  save_last-row :
      {A : Type 0} (a : A) (p : Peer) (s : G.State) (id : String)
      → (save_last G a p s).1 ≡ none
      → G.peer_row (save_last G a p s).2 id
        ≡ (if same id p.peer_id then some p else G.peer_row s id)
  unfolding save_last
  save_last-row a p s id h = ground (arith, L.save_peer_row p s id)

module _ (G : Gorm) (L : IsLawful G) (I : Ipfs) where
  ban_body-row :
      (pid : I.PeerId) (s : G.State) (id : String)
      → (ban_body G I pid s).1 ≡ none
      → G.peer_row (ban_body G I pid s).2 id ≡ (
          if same id (I.pretty pid)
          then some (banned_row (I.pretty pid) (G.peer_row s (I.pretty pid)))
          else G.peer_row s id)
  unfolding ban_body
  ban_body-row pid s id h = elim (Result-cases (load_peer G (I.pretty pid) s)) [
    | inl (found, e) ↦ ground (
      arith,
      load_peer-row G L (I.pretty pid) s found e,
      save_and_find-row G L (banned_row (I.pretty pid) found) (I.pretty pid) s id,
    )
    | inr (x, e) ↦ ground arith
  ]

  unban_body-row :
      (pid : I.PeerId) (s : G.State) (id : String)
      → (unban_body G I pid s).1 ≡ none
      → G.peer_row (unban_body G I pid s).2 id ≡ (
          if same id (I.pid_string pid)
          then some (unbanned_row (I.pid_string pid) (G.peer_row s (I.pretty pid)))
          else G.peer_row s id)
  unfolding unban_body
  unban_body-row pid s id h = elim (Result-cases (load_peer G (I.pretty pid) s)) [
    | inl (found, e) ↦ ground (
      arith,
      load_peer-row G L (I.pretty pid) s found e,
      save_last-row G L tt (unbanned_row (I.pid_string pid) found) s id,
    )
    | inr (x, e) ↦ ground arith
  ]

  seen_body-row :
      (pid : I.PeerId) (first now : ℕ) (s : G.State) (id : String)
      → (seen_body G I pid first now s).1 ≡ none
      → G.peer_row (seen_body G I pid first now s).2 id ≡ (
          if same id (I.pretty pid)
          then some (touched (I.pretty pid) first now (G.peer_row s (I.pretty pid)))
          else G.peer_row s id)
  unfolding seen_body
  seen_body-row pid first now s id h = elim (Result-cases (load_peer G (I.pretty pid) s)) [
    | inl (found, e) ↦ ground (
      arith,
      load_peer-row G L (I.pretty pid) s found e,
      touched-key (I.pretty pid) first now found
          (λ p f. L.row_key s (I.pretty pid) p (load_peer-row G L (I.pretty pid) s found e ∙ f)),
      save_last-row G L tt (touched (I.pretty pid) first now found) s id,
    )
    | inr (x, e) ↦ ground arith
  ]

  -- BanNode, when it reports no error, marks the peer's row as banned, makes the row if there was
  -- none, and leaves every other row alone.
  pub ban_node-row :
      (nodes : List I.Node) (pid : I.PeerId) (s : G.State) (id : String)
      → (ban_node G I nodes pid s).1 ≡ none
      → G.peer_row (ban_node G I nodes pid s).2 id ≡ (
          if same id (I.pretty pid)
          then some (banned_row (I.pretty pid) (G.peer_row s (I.pretty pid)))
          else G.peer_row s id)
  unfolding ban_node
  ban_node-row nodes pid s id h =
      let done = update_done G L (ban_body G I pid) s (ground arith) in
      let start = L.begin_tables s in
      ground (
        arith,
        done.1.rows id,
        ban_body-row pid (G.begin s) id done.0,
        start.rows id,
        start.rows (I.pretty pid),
      )

  -- UnbanNode, when it reports no error, clears the mark in the same way.
  pub unban_node-row :
      (pid : I.PeerId) (s : G.State) (id : String)
      → (unban_node G I pid s).1 ≡ none
      → G.peer_row (unban_node G I pid s).2 id ≡ (
          if same id (I.pid_string pid)
          then some (unbanned_row (I.pid_string pid) (G.peer_row s (I.pretty pid)))
          else G.peer_row s id)
  unfolding unban_node
  unban_node-row pid s id h =
      let done = update_done G L (unban_body G I pid) s h in
      let start = L.begin_tables s in
      ground (
        arith,
        done.1.rows id,
        unban_body-row pid (G.begin s) id done.0,
        start.rows id,
        start.rows (I.pretty pid),
      )

  -- A connection refreshes the peer's row, and no other.
  pub update_peer-row :
      (pid : I.PeerId) (first now : ℕ) (s : G.State) (id : String)
      → (update G (seen_body G I pid first now) s).1 ≡ none
      → G.peer_row (update_peer G I pid first now s) id ≡ (
          if same id (I.pretty pid)
          then some (touched (I.pretty pid) first now (G.peer_row s (I.pretty pid)))
          else G.peer_row s id)
  unfolding update_peer
  update_peer-row pid first now s id h =
      let done = update_done G L (seen_body G I pid first now) s h in
      let start = L.begin_tables s in
      done.1.rows id
      ∙ seen_body-row pid first now (G.begin s) id done.0
      ∙ rw (start.rows id, start.rows (I.pretty pid))

  -- Banning a peer and unbanning it again leaves every row as it was, but for the mark, and
  -- makes a row for a peer that had none.
  pub unban-ban :
      (nodes : List I.Node) (pid : I.PeerId) (s : G.State) (id : String)
      → PrintsAlike I
      → (ban_node G I nodes pid s).1 ≡ none
      → (unban_node G I pid (ban_node G I nodes pid s).2).1 ≡ none
      → G.peer_row (unban_node G I pid (ban_node G I nodes pid s).2).2 id ≡ (
          if same id (I.pretty pid)
          then some (unbanned_row (I.pretty pid) (G.peer_row s (I.pretty pid)))
          else G.peer_row s id)
  unban-ban nodes pid s id alike hb hu = ground (
    arith,
    alike pid,
    unban_node-row pid (ban_node G I nodes pid s).2 id hu,
    ban_node-row nodes pid s id hb,
    ban_node-row nodes pid s (I.pretty pid) hb,
  )
