-- ===== src/Crawler/Resolver.antt =====
-- The HTTP handler of crawler/resolver.go.
use obcrawler.Base.{
  ℕ, String, ◌≡◌, refl, ◌∙◌, sym, false, none, some, List, [], ◌∷◌, arith, subst, ap,
}
use obcrawler.Go.{GoError, record_not_found, message, foreign, Result, ok, err}
use obcrawler.Ipfs.{Ipfs}
use obcrawler.Repo.Models.{Peer, blank}
use obcrawler.Repo.Gorm.{Gorm, IsLawful, peer_id_is, banned_is}
use obcrawler.Repo.Database.{Outcome, view, update}
use obcrawler.Repo.Database.Atomic.{update_done, update_captured}

pub record Response : Type 0 where
  pub status : ℕ
  pub body : List ℕ

module _ (G : Gorm) (I : Ipfs) where
  abbrev pub row_found : Result Peer → G.State → Outcome G.State Peer
  row_found (ok p) s = (p, none, s)
  row_found (err e) s = (blank, some e, s)

  unfoldable pub resolve_body : I.PeerId → G.State → Outcome G.State Peer
  resolve_body pid s =
      row_found (G.first_peer (peer_id_is (I.pretty pid) ∷ banned_is false ∷ []) s) s

  -- The body of an error is its text, which `render` gives.
  abbrev pub answer : (GoError → List ℕ) → Outcome G.State Peer → Response × G.State
  answer render (p, none, s) = (record { status = 200; body = p.ipns_record }, s)
  answer render (p, some record_not_found, s) =
      (record { status = 404; body = render record_not_found }, s)
  answer render (p, some e, s) = (record { status = 500; body = render e }, s)

  abbrev pub resolve_decoded : (GoError → List ℕ) → Result I.PeerId → G.State → Response × G.State
  resolve_decoded render (err e) s = (record { status = 400; body = render e }, s)
  resolve_decoded render (ok pid) s = answer render (view G (resolve_body pid) s)

  unfoldable pub handler : (GoError → List ℕ) → String → G.State → Response × G.State
  unfolding resolve_body view
  handler render text s = resolve_decoded render (I.b58_decode_peer text) s

module _ (G : Gorm) (L : IsLawful G) (I : Ipfs) (render : GoError → List ℕ) where
  answer-found :
      (r : Outcome G.State Peer)
      → (answer G I render r).0.status ≡ 200
      → (r.1 ≡ none) × ((answer G I render r).0.body ≡ r.0.ipns_record)
  answer-found (p, none, s) h = (refl, refl)
  answer-found (p, some record_not_found, s) h = absurd (omega arith)
  answer-found (p, some (message t), s) h = absurd (omega arith)
  answer-found (p, some (foreign n), s) h = absurd (omega arith)

  row_found-row :
      (pid : I.PeerId) (s : G.State) (r : Result Peer)
      → G.first_peer (peer_id_is (I.pretty pid) ∷ banned_is false ∷ []) s ≡ r
      → (row_found G I r s).1 ≡ none
      → let p = (row_found G I r s).0 in (G.peer_row s (I.pretty pid) ≡ some p) × (p.banned ≡ false)
  row_found-row pid s (ok p) h e =
      let (row, m) = L.first_found (peer_id_is (I.pretty pid) ∷ banned_is false ∷ []) s p h in
      let key : p.peer_id ≡ I.pretty pid = ground arith in
      (subst (λ i. G.peer_row s i ≡ some p) key row, ground arith)
  row_found-row pid s (err x) h e = cc

  body-row :
      (pid : I.PeerId) (s : G.State)
      → (resolve_body G I pid s).1 ≡ none
      → let p = (resolve_body G I pid s).0 in
        (G.peer_row s (I.pretty pid) ≡ some p) × (p.banned ≡ false)
  unfolding resolve_body
  body-row pid s h = row_found-row pid s _ refl h

  resolve_decoded-found :
      (r : Result I.PeerId) (s : G.State)
      → (resolve_decoded G I render r s).0.status ≡ 200
      → (pid : I.PeerId) × (p : Peer) × (r ≡ ok pid)
        × (G.peer_row s (I.pretty pid) ≡ some p)
        × (p.banned ≡ false)
        × ((resolve_decoded G I render r s).0.body ≡ p.ipns_record)
  unfolding view update resolve_body
  resolve_decoded-found (err e) s h = absurd (omega arith)
  resolve_decoded-found (ok pid) s h =
      let found = update G (resolve_body G I pid) s in
      let (quiet, body) = answer-found found h in
      let captured = update_captured G (resolve_body G I pid) s in
      let (row, free) =
        body-row pid (G.begin s) (update_done G L (resolve_body G I pid) s quiet).0 in
      (
        pid,
        (resolve_body G I pid (G.begin s)).0,
        refl,
        sym ((L.begin_tables s).rows (I.pretty pid)) ∙ row,
        free,
        body ∙ ap (λ (p : Peer). p.ipns_record) captured,
      )

  -- A response with status 200 carries the record of a peer that the database knows under the
  -- requested id and that is not banned.
  pub handler-found :
      (text : String) (s : G.State)
      → (handler G I render text s).0.status ≡ 200
      → (pid : I.PeerId) × (p : Peer) × (I.b58_decode_peer text ≡ ok pid)
        × (G.peer_row s (I.pretty pid) ≡ some p)
        × (p.banned ≡ false)
        × ((handler G I render text s).0.body ≡ p.ipns_record)
  unfolding handler
  handler-found text s h = resolve_decoded-found (I.b58_decode_peer text) s h
