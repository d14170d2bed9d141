-- ===== src/Crawler/Peers/Unpin.antt =====
-- What BanNode unpins.
use obcrawler.Base.{
  String, ◌≡◌, ◌≢◌, refl, none, List, [], ◌∷◌, arith, ap, subst, string_dec, inl, inr, Has, All,
  Has-append_left, Has-append_right,
}
use obcrawler.Go.{ok, Result-cases}
use obcrawler.Ipfs.{Ipfs}
use obcrawler.Repo.Models.{CidRecord}
use obcrawler.Repo.Gorm.{Gorm, IsLawful, count_records, owner_is}
use obcrawler.Repo.Database.{update}
use obcrawler.Repo.Database.Atomic.{update_done, update_captured}
use obcrawler.Crawler.Peers.{
  load_peer, save_and_find, find_records, ban_body, ban_node, unpin_cid, unpin_records,
}
use obcrawler.Crawler.Peers.Ban.{banned_row}

-- coreapi.NewCoreAPI works on every node.
abbrev pub AllHealthy : (I : Ipfs) → List I.Node → Type 0
AllHealthy I ns = All (λ n. I.core_api n ≡ none) ns

module _ (G : Gorm) (I : Ipfs) where
  unpin_cid-Has :
      (ns : List I.Node) (n : I.Node) (c : I.Cid)
      → AllHealthy I ns
      → Has n ns
      → Has (n, c) (unpin_cid G I ns c).0
  unfolding unpin_cid
  unpin_cid-Has [] n c healthy h = absurd h
  unpin_cid-Has (m ∷ ns) n c healthy (inl e) = rw (healthy.0, unpin_cid) (inl (ap (λ k. (k, c)) e))
  unpin_cid-Has (m ∷ ns) n c healthy (inr h) =
      rw (healthy.0, unpin_cid) (inr (unpin_cid-Has ns n c healthy.1 h))

  unpin_records-Has :
      (ns : List I.Node) (rs : List CidRecord) (n : I.Node) (text o : String) (c : I.Cid)
      → AllHealthy I ns
      → Has n ns
      → I.decode_cid text ≡ ok c
      → count_records text o rs ≢ 0
      → Has (n, c) (unpin_records G I ns rs)
  unfolding unpin_records
  unpin_records-Has ns [] n text o c healthy h d many = absurd (many refl)
  unpin_records-Has ns (r ∷ rs) n text o c healthy h d many = elim (string_dec text r.cid) [
    | yes p ↦
        let found : I.decode_cid r.cid ≡ ok c = subst (λ t. I.decode_cid t ≡ ok c) p d in
        rw (found, unpin_records) (Has-append_left _ _ _ (unpin_cid-Has ns n c healthy h))
    | no p ↦
        let later = unpin_records-Has ns rs n text o c healthy h d (ground arith) in
        elim (Result-cases (I.decode_cid r.cid)) [
          | inl (c', e) ↦ rw (e, unpin_records) (Has-append_right _ (unpin_cid G I ns c').0 _ later)
          | inr (x, e) ↦ rw (e, unpin_records) later
        ]
  ]

module _ (G : Gorm) (L : IsLawful G) (I : Ipfs) where
  find_records-count :
      (k c : String) (s : G.State)
      → (find_records G k s).1 ≡ none
      → count_records c k (find_records G k s).0 ≡ G.copies s c k
  unfolding find_records
  find_records-count k c s h = elim (Result-cases (G.find_cids (owner_is k ∷ []) s)) [
    | inl (rs, e) ↦ ground (arith, L.find_cids_count (owner_is k ∷ []) s rs c k e)
    | inr (x, e) ↦ ground arith
  ]

  ban_body-count :
      (pid : I.PeerId) (c : String) (s : G.State)
      → (ban_body G I pid s).1 ≡ none
      → count_records c (I.pretty pid) (ban_body G I pid s).0 ≡ G.copies s c (I.pretty pid)
  unfolding ban_body save_and_find
  ban_body-count pid c s h = elim (Result-cases (load_peer G (I.pretty pid) s)) [
    | inl (found, e) ↦
        let p = banned_row (I.pretty pid) found in
        ground (
          arith,
          L.save_peer_copies p s c (I.pretty pid),
          find_records-count (I.pretty pid) c (G.save_peer p s).1,
        )
    | inr (x, e) ↦ ground arith
  ]

  ban_node-calls :
      (nodes : List I.Node) (pid : I.PeerId) (s : G.State)
      → (ban_node G I nodes pid s).1 ≡ none
      → ((update G (ban_body G I pid) s).1 ≡ none)
        × ((ban_node G I nodes pid s).0 ≡ unpin_records G I nodes (ban_body G I pid (G.begin s)).0)
  unfolding ban_node
  ban_node-calls nodes pid s h = ground (arith, update_captured G (ban_body G I pid) s)

  -- Where coreapi.NewCoreAPI works on every node, a BanNode that reports no error unpins, on every
  -- node, each CID that the database has for the peer and that decodes. It does so also where
  -- another peer has the same CID.
  pub ban_node-unpins :
      (nodes : List I.Node) (pid : I.PeerId) (s : G.State) (n : I.Node) (text : String) (c : I.Cid)
      → AllHealthy I nodes
      → Has n nodes
      → I.decode_cid text ≡ ok c
      → G.copies s text (I.pretty pid) ≢ 0
      → (ban_node G I nodes pid s).1 ≡ none
      → Has (n, c) (ban_node G I nodes pid s).0
  ban_node-unpins nodes pid s n text c healthy h d many done =
      let (sound, calls) = ban_node-calls nodes pid s done in
      let body = (update_done G L (ban_body G I pid) s sound).0 in
      rw calls (
        unpin_records-Has G I nodes _ n text (I.pretty pid) c healthy h d
          (rw (ban_body-count pid text (G.begin s) body, (L.begin_tables s).copies) many))
