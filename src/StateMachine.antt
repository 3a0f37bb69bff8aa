-- ===== src/StateMachine.antt =====
-- src/server/splinterdb_state_machine.{h,cpp} and splinterdb_snapshot.h: the Raft state machine that
-- applies committed log entries to SplinterDB.
pub mod Commit
pub mod Refinement
use distributed_replicated_c.Prelude.{
  ℕ, ℤ, pos, eq_ℤ, Bool, true, false, not, if◌then◌else◌, Option, none, some, List, [], ◌∷◌,
}
use distributed_replicated_c.Result.{
  Result, ok, throws, runtime_error, overflow_error, or_throw, ◌>>=◌,
}
use distributed_replicated_c.Nuraft.Buffer.{BufferApi}
use distributed_replicated_c.Splinter.{SplinterApi}
use distributed_replicated_c.Operation.{
  Operation, OperationType, put, update, delete, other, value_of, deserialize,
}

-- The `cout` lines and the timer of `commit` are left out. `Snapshot` is nuraft::snapshot;
-- `snapshots` is the map by log number, in increasing order of the numbers.
pub record StateMachine (s : SplinterApi) (Snapshot : Type 0) : Type 0 where
  pub spl_handle : s.Db
  pub last_committed_idx : ℕ
  pub commit_thread_initialized : Bool
  pub snapshots : List (ℕ × Snapshot)
  pub disable_snapshots : Bool

-- The last entry of the map.
last_of {ℓ} : {A : Type ℓ} → List (ℕ × A) → Option A
last_of [] = none
last_of ((idx, a) ∷ []) = some a
last_of ((idx, a) ∷ e ∷ rest) = last_of (e ∷ rest)

abbrev pub not_implemented {ℓ} : {A : Type ℓ} → Result A
not_implemented = throws (runtime_error "Not implemented.")

module _ (s : SplinterApi) where
  open s use {Db}

  -- The switch over the operation's type.
  unfoldable pub apply_as : OperationType → Operation → Db → Result (ℤ × Db)
  apply_as put op db = do value ← value_of op; ok (s.insert db op.key.bytes value.bytes)
  apply_as update op db = do value ← value_of op; ok (s.update db op.key.bytes value.bytes)
  apply_as delete op db = ok (s.delete db op.key.bytes)
  apply_as (other n) op db = throws (runtime_error "Unknown operation type.")

  unfoldable pub apply_operation : Operation → Db → Result (ℤ × Db)
  apply_operation op db = apply_as op.type op db

module _ (b : BufferApi) where
  open b use {Buffer, alloc, start, buffer_of, put_i32}

  -- The buffer with the return code.
  unfoldable pub reply : ℤ → Result Buffer
  reply ret_code = do
    bs ← or_throw overflow_error (put_i32 ret_code (start (alloc 4)))
    ok (buffer_of bs)

module _ (s : SplinterApi) {Snapshot : Type 0} where
  open s use {Db, Config, create, register_thread}

  unfoldable pub created : Bool → ℤ × Db → Result (StateMachine s Snapshot)
  created disable_snapshots (rc, handle) =
      if eq_ℤ rc (pos 0)
      then ok (record {
        spl_handle = handle;
        last_committed_idx = 0;
        commit_thread_initialized = false;
        snapshots = [];
        disable_snapshots = disable_snapshots;
      })
      else throws (runtime_error "Failed to create SplinterDB instance.")

  -- The constructor.
  unfoldable pub new_state_machine : Config → Bool → Result (StateMachine s Snapshot)
  unfolding created
  new_state_machine cfg disable_snapshots = created disable_snapshots (create cfg)

  -- The compare_exchange at the head of `commit`: the first call registers its thread.
  unfoldable pub register_commit_thread : StateMachine s Snapshot → StateMachine s Snapshot
  register_commit_thread sm = if sm.commit_thread_initialized then sm else record sm {
    commit_thread_initialized = true;
    spl_handle = register_thread sm.spl_handle;
  }

  unfoldable pub commit_config : ℕ → StateMachine s Snapshot → StateMachine s Snapshot
  commit_config log_idx sm = record sm { last_committed_idx = log_idx }

  unfoldable pub last_snapshot : StateMachine s Snapshot → Option Snapshot
  unfolding last_of
  last_snapshot sm = last_of sm.snapshots

  abbrev pub last_commit_index : StateMachine s Snapshot → ℕ
  last_commit_index sm = sm.last_committed_idx

  unfoldable pub chk_create_snapshot : StateMachine s Snapshot → Bool
  chk_create_snapshot sm = not sm.disable_snapshots

  -- The snapshot transfer is not implemented: each of these throws and changes nothing.
  abbrev pub save_logical_snp_obj :
      StateMachine s Snapshot → Result (Unit {0}) × StateMachine s Snapshot
  save_logical_snp_obj sm = (not_implemented, sm)

  abbrev pub apply_snapshot : StateMachine s Snapshot → Result Bool × StateMachine s Snapshot
  apply_snapshot sm = (not_implemented, sm)

  abbrev pub read_logical_snp_obj : StateMachine s Snapshot → Result ℤ × StateMachine s Snapshot
  read_logical_snp_obj sm = (not_implemented, sm)

  abbrev pub free_user_snp_ctx :
      StateMachine s Snapshot → Result (Unit {0}) × StateMachine s Snapshot
  free_user_snp_ctx sm = (not_implemented, sm)

  abbrev pub create_snapshot : StateMachine s Snapshot → Result (Unit {0}) × StateMachine s Snapshot
  create_snapshot sm = (not_implemented, sm)

module _ (b : BufferApi) (s : SplinterApi) {Snapshot : Type 0} where
  open b use {Buffer}
  open s use {Db}

  unfoldable pub committed :
      ℕ → StateMachine s Snapshot → Result (ℤ × Db) → Result Buffer × StateMachine s Snapshot
  committed log_idx sm (throws e) = (throws e, sm)
  committed log_idx sm (ok (ret_code, db)) =
      (reply b ret_code, record sm { spl_handle = db; last_committed_idx = log_idx })

  -- What was changed before an exception stays changed, so the state comes back beside it.
  unfoldable pub commit :
      ℕ → Buffer → StateMachine s Snapshot → Result Buffer × StateMachine s Snapshot
  commit log_idx buf sm =
      let sm' = register_commit_thread s sm in
      committed log_idx sm' (do op ← deserialize b buf; apply_operation s op sm'.spl_handle)
