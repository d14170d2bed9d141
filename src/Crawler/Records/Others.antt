-- ===== src/Crawler/Records/Others.antt =====
-- What the transaction on a peer's records does to those of other peers.
use obcrawler.Base.{String, ◌≡◌, ◌≢◌, ◌∙◌, none, List, [], arith, inl, inr, Option-cases}
use obcrawler.Ipfs.{Ipfs}
use obcrawler.Repo.Gorm.{Gorm, IsLawful}
use obcrawler.Repo.Database.{update}
use obcrawler.Repo.Database.Atomic.{update_done, update_atomic}
use obcrawler.Crawler.Records.{save_body}
use obcrawler.Crawler.Records.Saved.{save_new-copies}
use obcrawler.Crawler.Records.Dropped.{drop_old-others}
use obcrawler.Crawler.Records.Exact.{saved, body_split_any}

module _ (G : Gorm) (L : IsLawful G) (I : Ipfs) (owner : String) (graph : List I.Cid) where
  save_body-others :
      (s : G.State) (a o : String)
      → o ≢ owner
      → (save_body G I owner graph s).1 ≡ none
      → G.copies (save_body G I owner graph s).2 a o ≡ G.copies s a o
  save_body-others s a o ne done =
      let (e, split) = body_split_any G L I owner graph s done in
      rw split (
        drop_old-others G L I owner _ _ (saved G L I owner graph s).2 a o ne
        ∙ ground (arith, save_new-copies G L I owner graph [] s a o e))

  -- The records of other peers are as before, whether or not the transaction succeeds.
  pub update-others :
      (s : G.State) (a o : String)
      → o ≢ owner
      → G.copies (update G (save_body G I owner graph) s).2 a o ≡ G.copies s a o
  update-others s a o ne = elim (Option-cases (update G (save_body G I owner graph) s).1) [
    | inl e ↦
        let (body, tables) = update_done G L (save_body G I owner graph) s e in
        tables.copies a o ∙ save_body-others (G.begin s) a o ne body ∙ (L.begin_tables s).copies a o
    | inr (x, e) ↦ (update_atomic G L (save_body G I owner graph) s x e).copies a o
  ]
