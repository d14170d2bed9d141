-- ===== src/Rpc/Notices.antt =====
-- From a crawl to a client: the notices of processJob, which notifySubscribers of crawler/crawler.go
-- sends to each subscription, and the messages that the stream makes of them.
use obcrawler.Base.{ℕ, ◌≡◌, List, [], ◌∷◌}
use obcrawler.Go.{ok}
use obcrawler.Ipfs.{Ipfs, Job}
use obcrawler.Repo.Gorm.{Gorm, IsLawful}
use obcrawler.Crawler.Network.{Network}
use obcrawler.Crawler.Worker.Defs.{
  Event, notified, record_put, pinned, unpinned, Payload, Object, profile, listing,
}
use obcrawler.Rpc.Models.{Models}
use obcrawler.Rpc.Stream.{UserData}

-- The objects that a crawl passes to notifySubscribers, in order.
abbrev pub notices_of : {I : Ipfs} {P L : Type 0} → List (Event I P L) → List (Object P L)
notices_of [] = []
notices_of (notified o ∷ es) = o ∷ notices_of es
notices_of (record_put n e ∷ es) = notices_of es
notices_of (pinned n c ∷ es) = notices_of es
notices_of (unpinned n c ∷ es) = notices_of es

module _ (G : Gorm) (L : IsLawful G) (I : Ipfs) (N : Network I) where
  module _ (M : Models) (as_read : N.Profile → M.Profile) where
    abbrev pub as_payload : Payload N.Profile N.Listing → Payload M.Profile N.Listing
    as_payload (profile p) = profile (as_read p)
    as_payload (listing l) = listing l

    -- The same object, whose profile is read field by field.
    abbrev pub as_object : Object N.Profile N.Listing → Object M.Profile N.Listing
    as_object o = record { payload = as_payload o.payload; expiration_date = o.expiration_date }

    abbrev pub Carries : ℕ → UserData M N.Listing → Type 0
    Carries t ud = M.timestamp_proto t ≡ ok ud.expiration
