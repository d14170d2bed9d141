-- ===== src/Crawler/Pubsub/Loop/Timers.antt =====
-- The recent messages of listenPubsub (crawler/pubsub.go) and the timers that forget them.
use obcrawler.Base.{
  ℕ, ◌+◌, ◌≤◌, String, ◌≡◌, ◌≢◌, refl, sym, ap, ◌∙◌, subst, true, false, List, ◌∷◌, ◌++◌, contains,
  same, arith, ◌⊎◌, inl, inr, All, All-map, Has, Bool-cases,
}
use obcrawler.Crawler.Pubsub.{forget}
use obcrawler.Crawler.Pubsub.Loop.{Timer, Handling, minute}
use obcrawler.Crawler.Pubsub.Loop.Lists.{
  Spaced, OtherIds, Apart, Apart-drop, All-drop, contains-forget, contains-forget_self, All-both,
  Has-drop,
}

-- What holds of the recent messages, the timers, the time and the handlings.
pub record Inv (recent : List String) (timers : List Timer) (clock : ℕ) (hs : List Handling)
    : Type 0 where
  pub timed : All (λ t. contains recent t.id ≡ true) timers
  pub apart : Apart timers
  pub spaced : Spaced hs
  pub past : All (λ h. h.at ≤ clock) hs
  pub covered : All (λ h. (h.at + minute ≤ clock) ⊎ (contains recent h.id ≡ true)) hs
  pub waits : All (λ t. All (λ h. h.id ≡ t.id → h.at + minute ≤ t.due) hs) timers
  pub timer_of :
      (id : String)
      → contains recent id ≡ true
      → (t : Timer) × Has t timers × (t.id ≡ id) × (t.due ≤ clock + minute)

module _ (recent : List String) (timers : List Timer) (clock : ℕ) (hs : List Handling)
    (inv : Inv recent timers clock hs) (at : ℕ) (later : clock ≤ at) where
  pub Inv-later : Inv recent timers at hs
  Inv-later = record {
    timed = inv.timed;
    apart = inv.apart;
    spaced = inv.spaced;
    past = All-map (λ h. h.at ≤ at) hs (λ h p. omega (arith, p, later)) inv.past;
    covered =
        All-map (λ h. (h.at + minute ≤ at) ⊎ (contains recent h.id ≡ true)) hs
          (λ h c. elim c [ inl p ↦ inl (omega (arith, p, later)) | inr m ↦ inr m ]) inv.covered;
    waits = inv.waits;
    timer_of = λ id m.
        let (t, has, same_id, soon) = inv.timer_of id m in
        (t, has, same_id, omega (arith, soon, later));
  }

  -- A message that is not a recent one.
  pub Inv-new :
      (id : String)
      → contains recent id ≡ false
      → Inv
          (id ∷ recent)
          (record { due = at + minute; id = id } ∷ timers)
          at
          (record { id = id; at = at } ∷ hs)
  Inv-new id new =
      let old_ids : OtherIds id timers =
        All-map (λ t. t.id ≢ id) timers (λ t m. λ e. ground arith) inv.timed in
      record {
        timed = (
          ground arith,
          All-map (λ t. contains (id ∷ recent) t.id ≡ true) timers (λ t m. ground arith) inv.timed,
        );
        apart = (old_ids, inv.apart);
        spaced = (
          All-map (λ g. (g.id ≢ id) ⊎ (g.at + minute ≤ at)) hs
              (λ g c. elim c [
                | inl p ↦ inr (omega (arith, p, later))
                | inr m ↦ inl (λ e. ground arith)
              ])
              inv.covered,
          inv.spaced,
        );
        past = (omega arith, Inv-later.past);
        covered = (
          inr (ground arith),
          All-map (λ h. (h.at + minute ≤ at) ⊎ (contains (id ∷ recent) h.id ≡ true)) hs
              (λ h c. elim c [ inl p ↦ inl p | inr m ↦ inr (ground arith) ]) Inv-later.covered,
        );
        waits = (
          (
            λ e. omega arith,
            All-map (λ h. h.id ≡ id → h.at + minute ≤ at + minute) hs (λ h p e. omega (arith, p))
                Inv-later.past,
          ),
          All-both timers (λ t ne w. (λ e. absurd (ne (sym e)), w)) old_ids inv.waits,
        );
        timer_of = λ k m. elim (Bool-cases (same k id)) [
          | inl e ↦ (
            record { due = at + minute; id = id },
            inl refl,
            (let e' : id ≡ k = ground arith in e'),
            omega arith,
          )
          | inr e ↦
              let old : contains recent k ≡ true = ground arith in
              let (t, has, same_id, soon) = Inv-later.timer_of k old in (t, inr has, same_id, soon)
        ];
      }

  still_covered :
      (x : Timer) (h : Handling)
      → x.due ≤ at
      → (h.id ≡ x.id → h.at + minute ≤ x.due)
      → (h.at + minute ≤ at) ⊎ (contains recent h.id ≡ true)
      → (h.at + minute ≤ at) ⊎ (contains (forget x.id recent) h.id ≡ true)
  still_covered x h due w (inl p) = inl p
  still_covered x h due w (inr m) = elim (Bool-cases (same h.id x.id)) [
    | inl e ↦ let p = w (ground arith) in inl (omega (arith, p, due))
    | inr e ↦ let ne : h.id ≢ x.id = ground arith in inr (contains-forget x.id h.id recent ne ∙ m)
  ]

  still_timed :
      (before after : List Timer) (x : Timer) (id : String)
      → timers ≡ before ++ x ∷ after
      → contains (forget x.id recent) id ≡ true
      → (t : Timer) × Has t (before ++ after) × (t.id ≡ id) × (t.due ≤ at + minute)
  still_timed before after x id e m =
      let ne : id ≢ x.id = λ same_id.
        let gone = contains-forget_self x.id recent in
        let there : contains (forget x.id recent) x.id ≡ true =
          subst (λ k. contains (forget x.id recent) k ≡ true) same_id m in
        ground arith in
      let old : contains recent id ≡ true = sym (contains-forget x.id id recent ne) ∙ m in
      let (t, has, same_id, soon) = Inv-later.timer_of id old in
      elim (Has-drop t before after x (subst (Has t) e has)) [
        | inl kept ↦ (t, kept, same_id, soon)
        | inr is_x ↦ absurd (ne (sym same_id ∙ ap (λ u. u.id) is_x))
      ]

  -- A timer that is due.
  pub Inv-fires :
      (before after : List Timer) (x : Timer)
      → timers ≡ before ++ x ∷ after
      → x.due ≤ at
      → Inv (forget x.id recent) (before ++ after) at hs
  Inv-fires before after x e due =
      let (rest, ids) = Apart-drop before after x (subst Apart e inv.apart) in
      let (timed, _) =
        All-drop (λ t. contains recent t.id ≡ true) before after x
          (subst (All (λ t. contains recent t.id ≡ true)) e inv.timed) in
      let (waits, of_x) =
        All-drop (λ t. All (λ h. h.id ≡ t.id → h.at + minute ≤ t.due) hs) before after x
          (subst (All (λ t. All (λ h. h.id ≡ t.id → h.at + minute ≤ t.due) hs)) e inv.waits) in
      record {
        timed =
            All-both (before ++ after) (λ t ne m. contains-forget x.id t.id recent ne ∙ m) ids
              timed;
        apart = rest;
        spaced = inv.spaced;
        past = Inv-later.past;
        covered = All-both hs (λ h w c. still_covered x h due w c) of_x Inv-later.covered;
        waits = waits;
        timer_of = λ id m. still_timed before after x id e m;
      }
