-- ===== src/Server.antt =====
-- include/server/server.h, src/server/server.cpp and include/common/rpc.h: the handlers that the
-- server binds to the RPCs of clients and of replicas that join.
pub mod Pipeline
pub mod Consistency
pub mod Settings
pub mod Followers
pub mod Lifecycle
use distributed_replicated_c.Prelude.{
  ℕ, ℤ, pos, eq_ℤ, Bool, true, false, if◌then◌else◌, Option, none, some, List, [], ◌∷◌, map, String,
}
use distributed_replicated_c.Result.{Result, ok, throws, overflow_error, or_throw, ◌>>=◌ as ◌>>=ʳ◌}
use distributed_replicated_c.Exec.{Exec, pure, lift, ◌>>=◌}
use distributed_replicated_c.Nuraft.Buffer.{BufferApi}
use distributed_replicated_c.Nuraft.Raft.{RaftApi, RaftResult}
use distributed_replicated_c.Splinter.{SplinterApi}
use distributed_replicated_c.Slice.{of_bytes}
use distributed_replicated_c.Operation.{Operation, make_put, make_delete}
use distributed_replicated_c.Types.{ReadResult, MutationResult}
use distributed_replicated_c.Replica
use distributed_replicated_c.Replica.{Replica}

-- The RPCs of client_srv_, by their names in rpc.h, with their arguments.
pub data ClientRpc : Type 0 where
  ping get_srv_id get_leader_id get_all_servers splinterdb_dumpcache splinterdb_clearcache :
      ClientRpc
  get_srv_endpoint : ℤ → ClientRpc
  splinterdb_get : List ℕ → ClientRpc
  splinterdb_put splinterdb_update : List ℕ → List ℕ → ClientRpc
  splinterdb_delete : List ℕ → ClientRpc

-- What goes back to the client; `error_reply` is what respond_error sends.
pub data Reply : Type 0 where
  text_reply error_reply : String → Reply
  id_reply : ℤ → Reply
  flag_reply : Bool → Reply
  servers_reply : List (ℤ × String) → Reply
  read_reply : ReadResult → Reply
  mutation_reply : MutationResult → Reply

module _ (b : BufferApi) where
  open b use {Buffer, start, get_i32}

  -- The return code in the buffer of a result, or 0 for a null pointer.
  unfoldable pub result_value : Option Buffer → Result ℤ
  result_value none = ok (pos 0)
  result_value (some buf) = or_throw overflow_error (get_i32 (start buf)) >>=ʳ λ read. ok read.0

  unfoldable pub spl_code : RaftResult Buffer → Result ℤ
  spl_code result =
      if result.accepted
      then (if result.has_result then result_value result.result else ok (pos 0))
      else ok (pos 0)

  -- Whatever the branch, the code of Raft is the result's.
  unfoldable pub extract_result : RaftResult Buffer → Result MutationResult
  unfolding spl_code result_value
  extract_result result = spl_code result >>=ʳ λ spl_rc.
      ok (record { spl_rc = spl_rc; raft_rc = result.result_code; msg = result.result_str })

module _ {b : BufferApi} {s : SplinterApi} {Snapshot : Type 0} (raft : RaftApi b s Snapshot) where
  unfoldable pub append_operation : Operation → Exec (Replica raft) MutationResult
  append_operation op = do result ← Replica.append_log raft op; lift (extract_result b result)

  unfoldable pub handle_put : List ℕ → List ℕ → Exec (Replica raft) MutationResult
  unfolding append_operation
  handle_put key value = append_operation (make_put (of_bytes key) (of_bytes value))

  unfoldable pub handle_delete : List ℕ → Exec (Replica raft) MutationResult
  unfolding append_operation
  handle_delete key = append_operation (make_delete (of_bytes key))

  -- The handler of an update makes a put.
  unfoldable pub handle_update : List ℕ → List ℕ → Exec (Replica raft) MutationResult
  unfolding append_operation
  handle_update key value = append_operation (make_put (of_bytes key) (of_bytes value))

  unfoldable pub handle_get : List ℕ → Replica raft → ReadResult
  handle_get key r =
      let (slice, rc) = Replica.read raft key r in
      if eq_ℤ rc (pos 0)
      then record { value = slice; spl_rc = pos 0 }
      else record { value = []; spl_rc = rc }

  unfoldable pub handle_get_all_servers : Replica raft → List (ℤ × String)
  handle_get_all_servers r =
      map (λ srv. (raft.get_id srv, raft.get_aux srv)) (Replica.get_all_servers raft r)

  unfoldable pub handle_get_srv_endpoint : ℤ → Replica raft → Reply
  handle_get_srv_endpoint server_id r = elim (Replica.get_server_info raft server_id r) [
    | some srv ↦ text_reply (raft.get_aux srv)
    | none ↦ error_reply "Invalid server id"
  ]

  -- The handler of join_srv_.
  unfoldable pub handle_join : ℤ → String → String → Replica raft → (ℤ × String) × Replica raft
  handle_join server_id raft_endpoint client_endpoint =
      Replica.add_server raft server_id raft_endpoint client_endpoint

  unfoldable pub handle : ClientRpc → Exec (Replica raft) Reply
  handle ping r = (ok (text_reply "pong"), r)
  handle get_srv_id r = (ok (id_reply (Replica.get_id raft r)), r)
  handle get_leader_id r = (ok (id_reply (Replica.get_leader raft r)), r)
  handle get_all_servers r = (ok (servers_reply (handle_get_all_servers r)), r)
  handle splinterdb_dumpcache r = (ok (flag_reply true), Replica.dump_cache raft r)
  handle splinterdb_clearcache r = (ok (flag_reply true), Replica.clear_cache raft r)
  handle (get_srv_endpoint server_id) r = (ok (handle_get_srv_endpoint server_id r), r)
  handle (splinterdb_get key) r = (ok (read_reply (handle_get key r)), r)
  handle (splinterdb_put key value) r =
      (do result ← handle_put key value; pure (mutation_reply result)) r
  handle (splinterdb_update key value) r =
      (do result ← handle_update key value; pure (mutation_reply result)) r
  handle (splinterdb_delete key) r = (do result ← handle_delete key; pure (mutation_reply result)) r
