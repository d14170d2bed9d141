-- ===== src/Crawler/Peers/Rows.antt =====
-- What a lookup of a peer by its key says, and the rows and records after each transaction.
use obcrawler.Base.{String, ◌≡◌, refl, ◌∙◌, Option, none, some, [], ◌∷◌, arith, subst}
use obcrawler.Go.{Result, ok, err, tolerate, record_not_found}
use obcrawler.Repo.Models.{Peer}
use obcrawler.Repo.Gorm.{Gorm, IsLawful, peer_id_is}
use obcrawler.Crawler.Peers.{load_peer}

module _ (G : Gorm) (L : IsLawful G) where
  load_found :
      (id : String) (s : G.State) (p : Peer)
      → G.first_peer (peer_id_is id ∷ []) s ≡ ok p
      → G.peer_row s id ≡ some p
  load_found id s p h =
      let (row, m) = L.first_found (peer_id_is id ∷ []) s p h in
      let e : p.peer_id ≡ id = ground arith in subst (λ i. G.peer_row s i ≡ some p) e row

  load_missing :
      (id : String) (s : G.State) (o : Option Peer)
      → G.first_peer (peer_id_is id ∷ []) s ≡ err record_not_found
      → G.peer_row s id ≡ o
      → o ≡ none
  load_missing id s none h r = refl
  load_missing id s (some p) h r =
      ground (arith, L.first_missing (peer_id_is id ∷ []) s id p h r, L.row_key s id p r)

  tolerate_row :
      (id : String) (s : G.State) (r : Result Peer) (found : Option Peer)
      → G.first_peer (peer_id_is id ∷ []) s ≡ r
      → tolerate r ≡ ok found
      → G.peer_row s id ≡ found
  tolerate_row id s (ok p) found h t = load_found id s p h ∙ cc
  tolerate_row id s (err record_not_found) found h t = load_missing id s _ h refl ∙ cc
  tolerate_row id s (err e) found h t = cc

  -- A lookup that reports no error has read the row of the key.
  pub load_peer-row :
      (id : String) (s : G.State) (found : Option Peer)
      → load_peer G id s ≡ ok found
      → G.peer_row s id ≡ found
  unfolding load_peer
  load_peer-row id s found h = tolerate_row id s _ found refl h
