-- ===== src/Replica.antt =====
-- include/server/replica.h and src/server/replica.cpp: a Raft server with its state machine.
pub mod Settings
pub mod Read
pub mod Logs
pub mod Launch
pub mod Waits
pub mod Started
pub mod Snapshots
use distributed_replicated_c.Prelude.{
  ℕ, ℤ, pos, eq_ℤ, Bool, false, if◌then◌else◌, Option, List, [], ◌∷◌, String,
}
use distributed_replicated_c.Result.{ok, runtime_error}
use distributed_replicated_c.Exec.{Exec, pure, raise, lift, ◌>>=◌}
use distributed_replicated_c.Nuraft.Buffer.{BufferApi}
use distributed_replicated_c.Nuraft.Raft.{
  RaftApi, RaftResult, ReturnMethod, blocking, async_handler,
}
use distributed_replicated_c.Splinter.{SplinterApi}
use distributed_replicated_c.Operation.{Operation, serialize}
use distributed_replicated_c.StateMachine.{StateMachine}

-- Logging, and the members that only the constructor reads, are left out.
pub record Replica {b : BufferApi} {s : SplinterApi} {Snapshot : Type 0}
    (raft : RaftApi b s Snapshot) : Type 0 where
  pub server_id : ℤ
  pub return_method : ReturnMethod
  pub raft_instance : raft.Server

module _ {b : BufferApi} {s : SplinterApi} {Snapshot : Type 0} (raft : RaftApi b s Snapshot) where
  -- The handle of the database behind the state machine.
  abbrev pub database : Replica raft → s.Db
  database r = (raft.state_machine r.raft_instance).spl_handle

  abbrev set_database : s.Db → Replica raft → Replica raft
  set_database db r = record r { raft_instance = raft.with_database db r.raft_instance }

  unfoldable pub register_thread : Replica raft → Replica raft
  register_thread r = set_database (s.register_thread (database r)) r

  unfoldable pub dump_cache : Replica raft → Replica raft
  dump_cache r = set_database (s.print_cache (database r)) r

  unfoldable pub clear_cache : Replica raft → Replica raft
  clear_cache r = set_database (s.clear_cache (database r)) r

  abbrev pub get_id : Replica raft → ℤ
  get_id r = r.server_id

  abbrev pub get_leader : Replica raft → ℤ
  get_leader r = raft.get_leader r.raft_instance

  abbrev pub get_server_info : ℤ → Replica raft → Option raft.SrvConfig
  get_server_info server_id r = raft.get_srv_config server_id r.raft_instance

  abbrev pub get_all_servers : Replica raft → List raft.SrvConfig
  get_all_servers r = raft.get_srv_config_all r.raft_instance

  unfoldable pub shutdown : ℕ → Replica raft → Replica raft
  shutdown time_limit_sec r = record r {
    raft_instance = raft.shutdown time_limit_sec r.raft_instance;
  }

  -- The second half of `read`: the value of a lookup that returned 0.
  unfoldable pub looked_up : ℤ × List ℕ → List ℕ × ℤ
  looked_up (rc, value) = if eq_ℤ rc (pos 0) then (value, rc) else ([], rc)

  unfoldable pub read : List ℕ → Replica raft → List ℕ × ℤ
  unfolding looked_up
  read key r =
      let (rc, result) = s.lookup (database r) key in
      if eq_ℤ rc (pos 0) then looked_up (s.lookup_result_value result) else ([], rc)

  unfoldable pub add_server : ℤ → String → String → Replica raft → (ℤ × String) × Replica raft
  add_server server_id raft_endpoint client_endpoint r =
      let (ret, srv) =
        raft.add_srv (raft.srv_config server_id (pos 0) raft_endpoint client_endpoint false)
          r.raft_instance in
      ((ret.result_code, ret.result_str), record r { raft_instance = srv })

  append_entries : b.Buffer → Exec (Replica raft) (RaftResult b.Buffer)
  append_entries new_log r =
      let (ret, srv) = raft.append_entries (new_log ∷ []) r.raft_instance in
      (ok ret, record r { raft_instance = srv })

  by_return_method : ReturnMethod → RaftResult b.Buffer → Exec (Replica raft) (RaftResult b.Buffer)
  by_return_method blocking ret = pure ret
  by_return_method async_handler ret = raise (runtime_error "async handler not implemented")

  -- The entry is appended before the return method is looked at.
  unfoldable pub append_log : Operation → Exec (Replica raft) (RaftResult b.Buffer)
  unfolding append_entries by_return_method
  append_log op r =
      (do
        new_log ← lift (serialize b op)
        ret ← append_entries new_log
        by_return_method r.return_method ret)
        r
