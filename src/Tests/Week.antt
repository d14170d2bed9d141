-- ===== src/Tests/Week.antt =====
-- A witness on a crawl and the ticker behind it.
use obcrawler.Base.{true, Option, none, some, [], ◌∷◌}
use obcrawler.Repo.Memory.{memory}
use obcrawler.Repo.Database.{update}
use obcrawler.Crawler.Peers.{update_peer}
use obcrawler.Crawler.System.{System}
use obcrawler.Crawler.Worker.Defs.{Work}
use obcrawler.Crawler.Worker.Run.{Setup, process_job, start_work, crawled_body}
use obcrawler.Tests.System.{two, two_net, alone, job_of_alice}

abbrev setup_of_two : Setup two
setup_of_two = record {
  nodes = 0 ∷ [];
  quorum = 1;
  cache_data = true;
  pin_files = true;
  fuel = λ c. 10;
  picks = λ k. 0;
}

abbrev or_begun : Option (Work memory two two_net) → Work memory two two_net
or_begun none = start_work memory two two_net job_of_alice 0 alone.db
or_begun (some t) = t

abbrev crawled_alice : Work memory two two_net
unfolding process_job
crawled_alice =
    or_begun (process_job memory two two_net setup_of_two 0 50 60 job_of_alice 0 alone.db)

-- The peer is connected to, and a second crawl of it ends.
abbrev connected : System memory two
connected = record alone { db = update_peer memory two true 70 71 crawled_alice.db }

abbrev crawled_again : System memory two
crawled_again = record connected {
  db = (update memory (crawled_body memory two two_net job_of_alice 80 81) connected.db).2;
}
