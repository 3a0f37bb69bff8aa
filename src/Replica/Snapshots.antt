-- ===== src/Replica/Snapshots.antt =====
-- Whether the state machine of a replica and its Raft server agree on snapshots.
use distributed_replicated_c.Prelude.{
  zero, suc, ◌<◌, ◌≡◌, refl, sym, ap, ◌∙◌, ℤ, pos, negsuc, eq_ℤ, Bool, true, false, not, [], ◌↔◌,
  arith, if◌then◌else◌,
}
use distributed_replicated_c.Result.{Result, ok, throws, runtime_error}
use distributed_replicated_c.Splinter.{SplinterApi}
use distributed_replicated_c.StateMachine.{
  StateMachine, created, new_state_machine, chk_create_snapshot,
}
use distributed_replicated_c.Replica.Launch.{
  ReplicaConfig, RaftParams, is_not_positive, max_0, raft_params_of,
}

sign : (f : ℤ) → (not (is_not_positive f) ≡ true) ↔ (0 < max_0 f)
unfolding is_not_positive
sign (pos zero) = ground arith
sign (pos (suc n)) = (λ h. omega arith, λ h. refl)
sign (negsuc n) = ground arith

module _ {s : SplinterApi} {Snapshot : Type 0} where
  created-disable :
      (disable : Bool) (t : ℤ × s.Db) {sm : StateMachine s Snapshot}
      → created s disable t ≡ ok sm
      → sm.disable_snapshots ≡ disable
  unfolding created
  created-disable disable (rc, db) {sm} h = by_test (eq_ℤ rc (pos 0)) h
    where
      fresh : StateMachine s Snapshot
      fresh = record {
        spl_handle = db;
        last_committed_idx = 0;
        commit_thread_initialized = false;
        snapshots = [];
        disable_snapshots = disable;
      }

      by_test :
          (t : Bool)
          → ◌≡◌ {A = Result (StateMachine s Snapshot)}
              (if t
                then ok fresh
                else throws (runtime_error "Failed to create SplinterDB instance."))
              (ok sm)
          → sm.disable_snapshots ≡ disable
      by_test true k =
          let e : fresh ≡ sm = cc in
          ap (λ (x : StateMachine s Snapshot). x.disable_snapshots) (sym e)
      by_test false k = cc

  -- The state machine of a replica agrees to a snapshot exactly if Raft is told to take snapshots at
  -- all, that is, if the distance between them that it is given is not 0.
  pub snapshot_distance-agrees :
      (config : ReplicaConfig s) (params : RaftParams) (sm : StateMachine s Snapshot)
      → new_state_machine s config.splinterdb_cfg (is_not_positive config.snapshot_frequency)
        ≡ ok sm
      → (chk_create_snapshot s sm ≡ true) ↔ (0 < (raft_params_of config params).snapshot_distance)
  unfolding new_state_machine chk_create_snapshot raft_params_of is_not_positive
  snapshot_distance-agrees config params sm h =
      let d = ap not (created-disable _ (s.create config.splinterdb_cfg) h) in
      let (there, back) = sign config.snapshot_frequency in
      ((λ e. there (sym d ∙ e)), (λ e. d ∙ back e))
