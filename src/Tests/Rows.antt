-- ===== src/Tests/Rows.antt =====
-- Witnesses on CrawlNode, BanNode, UnbanNode and the callback for connections.
use obcrawler.Base.{◌≡◌, refl, true, some, [], ◌∷◌, inl, Has, arith}
use obcrawler.Base.Tests.{string_dec}
use obcrawler.Repo.Memory.{Tables, memory, memory-IsLawful}
use obcrawler.Repo.Memory.Table.{lookup_row, first_row}
use obcrawler.Crawler.Peers.{ban_node}
use obcrawler.Crawler.Peers.Ban.{ban_node-row}
use obcrawler.Crawler.Peers.Unpin.{ban_node-unpins}
use obcrawler.Tests.{toy, alice, known}

abbrev after_ban : Tables
unfolding ban_node
after_ban = (ban_node memory toy (0 ∷ []) "alice" known).2

ban_node-row_example : lookup_row "alice" after_ban.rows ≡ some (record alice { banned = true })
unfolding string_dec first_row lookup_row ban_node
ban_node-row_example = ban_node-row memory memory-IsLawful toy (0 ∷ []) "alice" known "alice" refl

ban_node-unpins_example : Has (0, "shared") (ban_node memory toy (0 ∷ []) "alice" known).0
unfolding string_dec first_row ban_node
ban_node-unpins_example =
    ban_node-unpins memory memory-IsLawful toy (0 ∷ []) "alice" known 0 "shared" "shared" (refl, tt)
      (inl refl) refl (omega arith) refl
