-- ===== src/Repo/Memory.antt =====
-- A database in memory, as an instance of `Gorm` that the theorems are tried on.
pub mod Table
mod Sorted
pub mod Records
use obcrawler.Base.{String, ◌≡◌, refl, Option, none, some, List, [], ◌∷◌, ap, arith}
use obcrawler.Go.{GoError, Result, ok, err, record_not_found}
use obcrawler.Repo.Models.{Peer, CidRecord}
use obcrawler.Repo.Gorm.{Gorm, IsLawful, SameTables, PeerFilter, CidFilter, count_records}
use Table.{
  lookup_row, without_row, Unique, without-Unique, lookup-without_self, lookup-without, first_row,
  first_row-found, first_row-missing, lookup_row-key,
}
use Sorted.{oldest, oldest-found}
use Records.{matching, remaining, count-matching, count-remaining}

pub record Tables : Type 0 where
  pub rows : List Peer
  pub unique : Unique rows
  pub records : List CidRecord

abbrev pub or_missing : Option Peer → Result Peer
or_missing none = err record_not_found
or_missing (some p) = ok p

-- db.Save(&peer): the row of its key is replaced.
abbrev put_row : Peer → Tables → Tables
put_row p s = record {
  rows = p ∷ without_row p.peer_id s.rows;
  unique = (lookup-without_self p.peer_id s.rows, without-Unique p.peer_id s.rows s.unique);
  records = s.records;
}

abbrev pub memory : Gorm
memory = record {
  State = Tables;
  peer_row = λ s id. lookup_row id s.rows;
  copies = λ s c o. count_records c o s.records;
  first_peer = λ fs s. or_missing (first_row fs s.rows);
  find_peers = λ fs n s. ok (oldest fs n s.rows);
  find_cids = λ fs s. ok (matching fs s.records);
  save_peer = λ p s. (none, put_row p s);
  save_cid = λ r s. (none, record s { records = r ∷ s.records });
  delete_cids = λ fs s. (none, record s { records = remaining fs s.records });
  begin = λ s. s;
  commit = λ s t. (none, t);
  rollback = λ s t. s;
}

abbrev pub empty : Tables
empty = record { rows = []; unique = tt; records = [] }

or_missing-found : (o : Option Peer) (p : Peer) → or_missing o ≡ ok p → o ≡ some p
or_missing-found none p h = cc
or_missing-found (some q) p h = cc

or_missing-missing : (o : Option Peer) → or_missing o ≡ err record_not_found → o ≡ none
or_missing-missing none h = refl
or_missing-missing (some q) h = cc

-- Equal states hold the same rows.
same_tables : (s t : Tables) → s ≡ t → SameTables memory s t
same_tables s t e = record {
  rows = λ id. ap (λ (u : Tables). lookup_row id u.rows) e;
  copies = λ c o. ap (λ (u : Tables). count_records c o u.records) e;
}

-- The database in memory meets the laws.
pub memory-IsLawful : IsLawful memory
memory-IsLawful = record {
  row_key = λ s id p h. lookup_row-key id p s.rows h;
  first_found = λ fs s p h. first_row-found fs p s.rows s.unique (or_missing-found _ p h);
  first_missing = λ fs s id p h f. first_row-missing fs id p s.rows (or_missing-missing _ h) f;
  find_peers_found = λ fs n s ps h.
      let e : oldest fs n s.rows ≡ ps = cc in rw (← e) (oldest-found fs n s.rows s.unique);
  find_cids_count = λ fs s rs c o h.
      let e : matching fs s.records ≡ rs = cc in rw (← e) (count-matching fs s.records c o);
  find_cids_missing = λ fs s c o h m. cc;
  save_peer_row =
      λ p s id h. unfold lookup_row in ground (arith, lookup-without p.peer_id id s.rows);
  save_peer_copies = λ p s c o h. refl;
  save_cid_copies = λ r s c o h. refl;
  save_cid_row = λ r s id h. refl;
  delete_cids_copies = λ fs s c o h. count-remaining fs s.records c o;
  delete_cids_row = λ fs s id. refl;
  delete_cids_failed = λ fs s c o e h. cc;
  begin_tables = λ s. same_tables s s refl;
  commit_tables = λ s t h. same_tables t t refl;
  commit_failed = λ s t e h. cc;
  rollback_tables = λ s t. same_tables s s refl;
}
