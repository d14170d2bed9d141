-- ===== src/Repo/Models.antt =====
-- The rows of the database (repo/models.go). A time is a number of nanoseconds since Go's zero
-- time, so a zero `time.Time` is 0.
use obcrawler.Base.{ℕ, String, Bool, false, List, []}

pub record Peer : Type 0 where
  pub peer_id : String
  pub first_seen : ℕ
  pub last_seen : ℕ
  pub last_crawled : ℕ
  pub last_pinned : ℕ
  pub ipns_expiration : ℕ
  pub ipns_record : List ℕ
  pub banned : Bool

-- `var peer repo.Peer`
abbrev pub blank : Peer
blank = record {
  peer_id = "";
  first_seen = 0;
  last_seen = 0;
  last_crawled = 0;
  last_pinned = 0;
  ipns_expiration = 0;
  ipns_record = [];
  banned = false;
}

-- Without the columns of gorm.Model, which the code never reads.
pub record CidRecord : Type 0 where
  pub cid : String
  pub peer_id : String
