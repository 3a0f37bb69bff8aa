-- ===== src/Replica/Read.antt =====
-- `replica::read` against the contents of the database.
use distributed_replicated_c.Prelude.{ℕ, pos, eq_ℤ-false, ◌≡◌, ◌≢◌, refl, List, [], none, some}
use distributed_replicated_c.Nuraft.Buffer.{BufferApi}
use distributed_replicated_c.Nuraft.Raft.{RaftApi}
use distributed_replicated_c.Splinter.{SplinterApi, SplinterLaws}
use distributed_replicated_c.Replica.{Replica, database, read}

module _ {b : BufferApi} {s : SplinterApi} (db_laws : SplinterLaws s) {Snapshot : Type 0}
    (raft : RaftApi b s Snapshot) where
  open db_laws use {contents}

  pub read_found :
      (key value : List ℕ) (r : Replica raft)
      → contents (database raft r) key ≡ some value
      → read raft key r ≡ (value, pos 0)
  unfolding read
  read_found key value r h =
      let (p, q) = db_laws.lookup_found (database raft r) key value h in rw (p, q) refl

  pub read_missing :
      (key : List ℕ) (r : Replica raft)
      → contents (database raft r) key ≡ none
      → ((read raft key r).0 ≡ []) × ((read raft key r).1 ≢ pos 0)
  unfolding read
  read_missing key r h =
      let (p, q) = db_laws.lookup_missing (database raft r) key h in
      let miss = eq_ℤ-false _ (pos 0) q in (rw (p, miss) refl, rw (p, miss) q)
