-- ===== src/Server/Settings.antt =====
-- What no RPC of a client changes of a server.
use distributed_replicated_c.Prelude.{◌≡◌, refl, ap, ◌∙◌}
use distributed_replicated_c.Exec.{Exec, pure, lift, ◌>>=◌}
use distributed_replicated_c.Nuraft.Buffer.{BufferApi}
use distributed_replicated_c.Nuraft.Raft.{RaftApi}
use distributed_replicated_c.Splinter.{SplinterApi}
use distributed_replicated_c.Operation.{Operation}
use distributed_replicated_c.Operation.Request.{Request, put, update, delete, operation_of}
use distributed_replicated_c.Types.{MutationResult}
use distributed_replicated_c.Replica.{Replica, append_log, dump_cache, clear_cache}
use distributed_replicated_c.Replica.Settings.{Keeps, Keeps->>=, append_log-Keeps}
use distributed_replicated_c.Server.{
  ClientRpc, ping, get_srv_id, get_leader_id, get_all_servers, splinterdb_dumpcache,
  splinterdb_clearcache, get_srv_endpoint, splinterdb_get, splinterdb_put, splinterdb_update,
  splinterdb_delete, mutation_reply, extract_result, append_operation, handle,
}
use distributed_replicated_c.Server.Pipeline.{handled_as, handle_mutation, handle_mutation_lem}

module _ {b : BufferApi} {s : SplinterApi} {Snapshot : Type 0} (raft : RaftApi b s Snapshot) where
  append_operation-Keeps : (op : Operation) → Keeps (append_operation raft op)
  unfolding append_operation
  append_operation-Keeps op =
      Keeps->>= (append_log raft op) (λ result. lift (extract_result b result))
        (append_log-Keeps op) (λ result r. refl)

  pub handle_mutation-Keeps : (req : Request) → Keeps (handle_mutation raft req)
  handle_mutation-Keeps req r =
      ap (λ (m : Exec (Replica raft) MutationResult). (m r).1.return_method)
        (handle_mutation_lem raft req)
      ∙ append_operation-Keeps (operation_of (handled_as req)) r

  replied-Keeps :
      (req : Request) → Keeps (do result ← handle_mutation raft req; pure (mutation_reply result))
  replied-Keeps req =
      Keeps->>= (handle_mutation raft req) (λ result. pure (mutation_reply result))
        (handle_mutation-Keeps req) (λ result r. refl)

  -- No RPC of a client changes the return method of the server that handles it.
  pub handle-return_method :
      (op : ClientRpc) (r : Replica raft) → (handle raft op r).1.return_method ≡ r.return_method
  unfolding handle dump_cache clear_cache
  handle-return_method ping r = refl
  handle-return_method get_srv_id r = refl
  handle-return_method get_leader_id r = refl
  handle-return_method get_all_servers r = refl
  handle-return_method splinterdb_dumpcache r = refl
  handle-return_method splinterdb_clearcache r = refl
  handle-return_method (get_srv_endpoint id) r = refl
  handle-return_method (splinterdb_get key) r = refl
  handle-return_method (splinterdb_put key value) r = replied-Keeps (put key value) r
  handle-return_method (splinterdb_update key value) r = replied-Keeps (update key value) r
  handle-return_method (splinterdb_delete key) r = replied-Keeps (delete key) r
