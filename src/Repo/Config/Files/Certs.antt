-- ===== src/Repo/Config/Files/Certs.antt =====
-- The files that a run of genCertPair leaves.
use obcrawler.Base.{ℕ, ◌≡◌, ◌≢◌, false, refl, none, some, List, ◌⊎◌, inl, inr, Option-cases}
use obcrawler.Go.{ok, Result-cases}
use obcrawler.Repo.Config.Files.{Pair, CertDisk, gen_cert_pair}

-- A write that reports no error has stored the text, and os.Remove works.
pub record IsSound (d : CertDisk) : Type 0 where
  pub cert_stored : (t : List ℕ) → (d.write_cert t).1 ≡ none → (d.write_cert t).0 ≡ some t
  pub key_stored : (t : List ℕ) → (d.write_key t).1 ≡ none → (d.write_key t).0 ≡ some t
  pub removes : d.remove_fails ≡ false

-- Where neither file is there, a run ends without an error and with both files, which hold the
-- generated pair; or it ends with an error and with one file at most. That assumes that a write
-- without an error stores the text, and that the certificate can be removed.
pub gen_cert_pair_files :
    (d : CertDisk) (files : Pair)
    → IsSound d
    → files.cert ≡ none
    → files.key ≡ none
    → let (after, e) = gen_cert_pair d files in
      (e ≡ none)
        × ((cert : List ℕ) × (key : List ℕ) × (d.new_pair ≡ ok (cert, key))
            × (after.cert ≡ some cert)
            × (after.key ≡ some key))
      ⊎ (e ≢ none) × ((after.cert ≡ none) ⊎ (after.key ≡ none))
unfolding gen_cert_pair
gen_cert_pair_files d files sound no_cert no_key = elim (Result-cases d.new_pair) [
  | inr (x, e) ↦ rw (e, gen_cert_pair) (inr ((λ p. cc), inl no_cert))
  | inl ((cert, key), e) ↦ elim (Option-cases (d.write_cert cert).1) [
    | inr (x, c) ↦ rw (e, gen_cert_pair, c) (inr ((λ p. cc), inr no_key))
    | inl c ↦ elim (Option-cases (d.write_key key).1) [
      | inr (x, k) ↦ rw (e, gen_cert_pair, c, k, sound.removes) (inr ((λ p. cc), inl refl))
      | inl k ↦
          rw (e, gen_cert_pair, c, k)
            (inl (refl, (cert, key, refl, sound.cert_stored cert c, sound.key_stored key k)))
    ]
  ]
]
