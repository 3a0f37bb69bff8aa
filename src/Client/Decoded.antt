-- ===== src/Client/Decoded.antt =====
-- The replies of a server have the types that the client asks for with as<T>().
use distributed_replicated_c.Prelude.{
  ◌≡◌, refl, sym, ap, subst, ℤ, Bool, List, String, ◌⊎◌, inl, inr, Option, none, some,
}
use distributed_replicated_c.Result.{Result, ok}
use distributed_replicated_c.Exec.{Exec, pure, ◌>>=◌, >>=-eq-ok}
use distributed_replicated_c.Types.{MutationResult, ReadResult}
use distributed_replicated_c.Nuraft.Buffer.{BufferApi}
use distributed_replicated_c.Nuraft.Raft.{RaftApi}
use distributed_replicated_c.Splinter.{SplinterApi}
use distributed_replicated_c.Replica
use distributed_replicated_c.Replica.{Replica}
use distributed_replicated_c.Server.{
  ClientRpc, ping, get_srv_id, get_leader_id, get_all_servers, splinterdb_dumpcache,
  splinterdb_clearcache, get_srv_endpoint, splinterdb_get, splinterdb_put, splinterdb_update,
  splinterdb_delete, Reply, text_reply, error_reply, mutation_reply, handle, handle_put,
  handle_update, handle_delete, handle_get_srv_endpoint,
}
use distributed_replicated_c.Client.{as_mutation, as_read, as_id, as_flag, as_servers}
use distributed_replicated_c.Client.Connect.{as_text}

-- The client's as<T>() of the reply to an RPC gives a value. get_srv_endpoint may reply with an
-- error instead.
abbrev pub IsDecoded : ClientRpc → Reply → Type 0
IsDecoded ping reply = (text : String) × (as_text reply ≡ ok text)
IsDecoded get_srv_id reply = (id : ℤ) × (as_id reply ≡ ok id)
IsDecoded get_leader_id reply = (id : ℤ) × (as_id reply ≡ ok id)
IsDecoded get_all_servers reply = (srvs : List (ℤ × String)) × (as_servers reply ≡ ok srvs)
IsDecoded splinterdb_dumpcache reply = (flag : Bool) × (as_flag reply ≡ ok flag)
IsDecoded splinterdb_clearcache reply = (flag : Bool) × (as_flag reply ≡ ok flag)
IsDecoded (get_srv_endpoint id) reply =
    (text : String) × ((as_text reply ≡ ok text) ⊎ (reply ≡ error_reply text))
IsDecoded (splinterdb_get key) reply = (result : ReadResult) × (as_read reply ≡ ok result)
IsDecoded (splinterdb_put key value) reply =
    (result : MutationResult) × (as_mutation reply ≡ ok result)
IsDecoded (splinterdb_update key value) reply =
    (result : MutationResult) × (as_mutation reply ≡ ok result)
IsDecoded (splinterdb_delete key) reply =
    (result : MutationResult) × (as_mutation reply ≡ ok result)

reply-injective : {x y : Reply} → ◌≡◌ {A = Result Reply} (ok x) (ok y) → x ≡ y
reply-injective h = cc

module _ {b : BufferApi} {s : SplinterApi} {Snapshot : Type 0} (raft : RaftApi b s Snapshot) where
  mutation-as_mutation :
      (m : Exec (Replica raft) MutationResult) (r r' : Replica raft) (reply : Reply)
      → (do x ← m; pure (mutation_reply x)) r ≡ (ok reply, r')
      → (result : MutationResult) × (as_mutation reply ≡ ok result)
  mutation-as_mutation m r r' reply h =
      let (x, r1, e, k) = >>=-eq-ok m (λ x. pure (mutation_reply x)) r h in
      (x, ap as_mutation (sym (reply-injective (ap (λ t. t.0) k))))

  endpoint-IsDecoded :
      (id : ℤ) (r : Replica raft)
      → IsDecoded (get_srv_endpoint id) (handle_get_srv_endpoint raft id r)
  unfolding handle_get_srv_endpoint
  endpoint-IsDecoded id r = by_info (Replica.get_server_info raft id r)
    where
      by_info :
          (o : Option raft.SrvConfig)
          → IsDecoded (get_srv_endpoint id) (
              let t : Reply = elim o [
                | some srv ↦ text_reply (raft.get_aux srv)
                | none ↦ error_reply "Invalid server id"
              ] in
              t)
      by_info (some srv) = (raft.get_aux srv, inl refl)
      by_info none = ("Invalid server id", inr refl)

  -- Every reply of a handler has the type that belongs to its RPC, and that of get_srv_endpoint is
  -- the endpoint or an error.
  pub handle-IsDecoded :
      (op : ClientRpc) (r r' : Replica raft) (reply : Reply)
      → handle raft op r ≡ (ok reply, r')
      → IsDecoded op reply
  unfolding handle
  handle-IsDecoded ping r r' reply h =
      subst (IsDecoded ping) (reply-injective (ap (λ t. t.0) h)) (_, refl)
  handle-IsDecoded get_srv_id r r' reply h =
      subst (IsDecoded get_srv_id) (reply-injective (ap (λ t. t.0) h)) (_, refl)
  handle-IsDecoded get_leader_id r r' reply h =
      subst (IsDecoded get_leader_id) (reply-injective (ap (λ t. t.0) h)) (_, refl)
  handle-IsDecoded get_all_servers r r' reply h =
      subst (IsDecoded get_all_servers) (reply-injective (ap (λ t. t.0) h)) (_, refl)
  handle-IsDecoded splinterdb_dumpcache r r' reply h =
      subst (IsDecoded splinterdb_dumpcache) (reply-injective (ap (λ t. t.0) h)) (_, refl)
  handle-IsDecoded splinterdb_clearcache r r' reply h =
      subst (IsDecoded splinterdb_clearcache) (reply-injective (ap (λ t. t.0) h)) (_, refl)
  handle-IsDecoded (get_srv_endpoint id) r r' reply h =
      subst (IsDecoded (get_srv_endpoint id)) (reply-injective (ap (λ t. t.0) h))
        (endpoint-IsDecoded id r)
  handle-IsDecoded (splinterdb_get key) r r' reply h =
      subst (IsDecoded (splinterdb_get key)) (reply-injective (ap (λ t. t.0) h)) (_, refl)
  handle-IsDecoded (splinterdb_put key value) r r' reply h =
      mutation-as_mutation (handle_put raft key value) r r' reply h
  handle-IsDecoded (splinterdb_update key value) r r' reply h =
      mutation-as_mutation (handle_update raft key value) r r' reply h
  handle-IsDecoded (splinterdb_delete key) r r' reply h =
      mutation-as_mutation (handle_delete raft key) r r' reply h
