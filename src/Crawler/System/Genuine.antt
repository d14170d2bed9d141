-- ===== src/Crawler/System/Genuine.antt =====
-- Which records the crawler keeps (crawler/pubsub.go) and its resolver serves (crawler/resolver.go).
use obcrawler.Base.{
  ℕ, String, ◌≡◌, refl, ◌∙◌, ap, sym, subst, none, List, [], arith, same, ◌⊎◌, inl, inr, Bool-cases,
}
use obcrawler.Go.{GoError, Result, ok, err}
use obcrawler.Ipfs.{Ipfs, PrintsAlike, DecodesPeers}
use obcrawler.Repo.Models.{Peer}
use obcrawler.Repo.Gorm.{Gorm, IsLawful}
use obcrawler.Crawler.Network.{Network}
use obcrawler.Crawler.Peers.{or_blank}
use obcrawler.Crawler.Pubsub.{
  Message, Valid, with_eol, after_validation, with_key, with_entry, check_message,
}
use obcrawler.Crawler.Resolver.{handler, handler-found}
use obcrawler.Crawler.System.{System, Reach, here, next}
use obcrawler.Crawler.System.Rows.{
  Action, Change, no_row, one_row, Content, no_record, same_record, checked_record,
}
use obcrawler.Crawler.System.Keyed.{Step-Change}
use obcrawler.Crawler.System.Jobs.{ok-injective}

module _ (I : Ipfs) where
  -- The bytes are an IPNS record that the peer's public key validates.
  pub record Authentic (pid : I.PeerId) (bytes : List ℕ) : Type 0 where
    pub entry : I.Entry
    pub key : I.PublicKey
    pub unmarshals : I.unmarshal_entry bytes ≡ ok entry
    pub extracted : I.extract_public_key pid ≡ ok key
    pub validated : I.validate key entry ≡ ok tt

  with_eol-entry :
      (rec : I.Entry) (r : Result ℕ) (v : Valid I) → with_eol I rec r ≡ ok v → rec ≡ v.entry
  with_eol-entry rec (err e) v h = cc
  with_eol-entry rec (ok t) v h = cc

  after_validation-ok :
      (rec : I.Entry) (r : Result (Unit {0})) (v : Valid I)
      → after_validation I rec r ≡ ok v
      → (r ≡ ok tt) × (rec ≡ v.entry)
  after_validation-ok rec (err e) v h = cc
  after_validation-ok rec (ok u) v h = (refl, with_eol-entry rec (I.get_eol rec) v h)

  with_key-ok :
      (rec : I.Entry) (r : Result I.PublicKey) (v : Valid I)
      → with_key I rec r ≡ ok v
      → (key : I.PublicKey) × (r ≡ ok key) × (I.validate key rec ≡ ok tt) × (rec ≡ v.entry)
  with_key-ok rec (err e) v h = cc
  with_key-ok rec (ok key) v h =
      let (valid, same_entry) = after_validation-ok rec (I.validate key rec) v h in
      (key, refl, valid, same_entry)

  with_entry-ok :
      (pid : I.PeerId) (r : Result I.Entry) (v : Valid I)
      → with_entry I pid r ≡ ok v
      → (rec : I.Entry) × (r ≡ ok rec) × (with_key I rec (I.extract_public_key pid) ≡ ok v)
  with_entry-ok pid (err e) v h = cc
  with_entry-ok pid (ok rec) v h = (rec, refl, h)

  check_message-Authentic :
      (m : Message I) (v : Valid I) → check_message I m ≡ ok v → Authentic m.from m.content
  unfolding check_message
  check_message-Authentic m v h =
      let (rec, e, rest) = with_entry-ok m.from (I.unmarshal_entry m.content) v h in
      let (key, k, valid, _) = with_key-ok rec (I.extract_public_key m.from) v rest in
      record { entry = rec; key = key; unmarshals = e; extracted = k; validated = valid }

  -- No bytes, or those of an authentic record of the peer.
  abbrev pub IsServable : I.PeerId → List ℕ → Type 0
  IsServable pid bytes = (bytes ≡ []) ⊎ Authentic pid bytes

  -- No bytes, or those of an authentic record of a peer with that key.
  abbrev IsGenuine : String → List ℕ → Type 0
  IsGenuine id bytes = (bytes ≡ []) ⊎ ((pid : I.PeerId) × (I.pretty pid ≡ id) × Authentic pid bytes)

module _ (G : Gorm) (I : Ipfs) where
  -- Every row has a genuine record.
  abbrev AllGenuine : G.State → Type 0
  AllGenuine s = (id : String) → IsGenuine I id (or_blank (G.peer_row s id)).ipns_record

  Content-IsGenuine :
      (s : G.State) (key : String) (k : Peer)
      → Content G I s key k
      → AllGenuine s
      → IsGenuine I key k.ipns_record
  Content-IsGenuine s key k (no_record e) h = inl e
  Content-IsGenuine s key k (same_record e) h = subst (IsGenuine I key) (sym e) (h key)
  Content-IsGenuine s key k (checked_record m v its_key valid e) h =
      inr
        (m.from, its_key, subst (Authentic I m.from) (sym e) (check_message-Authentic I m v valid))

  Change-AllGenuine : {a : Action} {s t : G.State} → Change G I a s t → AllGenuine s → AllGenuine t
  Change-AllGenuine (no_row rows) h id =
      subst (λ r. IsGenuine I id (or_blank r).ipns_record) (sym (rows id)) (h id)
  Change-AllGenuine {s = s} (one_row key k isk m content times rows) h id =
      subst (λ r. IsGenuine I id (or_blank r).ipns_record) (sym (rows id))
        (elim (Bool-cases (same id key)) [
          | inl e ↦
              let there : id ≡ key = ground arith in
              rw e (rw there (Content-IsGenuine s key k content h))
          | inr e ↦ rw e (h id)
        ])

module _ (G : Gorm) (L : IsLawful G) (I : Ipfs) (N : Network I) (message_id : Message I → String)
    (kept : String) (alike : PrintsAlike I) where
  AllGenuine-Reach :
      {s t : System G I}
      → Reach G I N message_id kept s t
      → AllGenuine G I s.db
      → AllGenuine G I t.db
  AllGenuine-Reach here h = h
  AllGenuine-Reach (next r st) h =
      Change-AllGenuine G I (Step-Change G L I N message_id kept alike st) (AllGenuine-Reach r h)

  -- A crawler that has begun with no rows serves authentic records only: whatever its steps, a
  -- response of the resolver with status 200 has no bytes, or those of an IPNS record that
  -- unmarshals and that the public key of the requested peer validates. That assumes that both
  -- texts of a peer are the same, and that peer.Decode reads back what pid.Pretty() prints.
  pub handler-IsServable :
      (dec : DecodesPeers I) (render : GoError → List ℕ) (text : String) (s t : System G I)
      → ((id : String) → G.peer_row s.db id ≡ none)
      → Reach G I N message_id kept s t
      → (handler G I render text t.db).0.status ≡ 200
      → (pid : I.PeerId) × (I.b58_decode_peer text ≡ ok pid)
        × IsServable I pid (handler G I render text t.db).0.body
  handler-IsServable dec render text s t empty r found =
      let (pid, p, asked, row, free, body) = handler-found G L I render text t.db found in
      let start : AllGenuine G I s.db = λ id. inl (rw (empty id) refl) in
      let genuine : IsGenuine I (I.pretty pid) p.ipns_record =
        subst (λ o. IsGenuine I (I.pretty pid) (or_blank o).ipns_record) row
          (AllGenuine-Reach r start (I.pretty pid)) in
      (
        pid,
        asked,
        subst (IsServable I pid) (sym body) (elim genuine [
          | inl none_there ↦ inl none_there
          | inr (other, same_text, a) ↦
              let same_pid : other ≡ pid =
                ok-injective other pid
                  (sym (dec.decodes other) ∙ ap I.decode_peer same_text ∙ dec.decodes pid) in
              inr (subst (λ q. Authentic I q p.ipns_record) same_pid a)
        ]),
      )
