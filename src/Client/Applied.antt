-- ===== src/Client/Applied.antt =====
-- A client and its servers together.
use distributed_replicated_c.Prelude.{
  ℕ, ◌<◌, ◌≡◌, ◌⊎◌, inl, inr, refl, sym, ap, ◌∙◌, ℤ, pos, true, inl, inr, some, List,
}
use distributed_replicated_c.Result.{Result, ok}
use distributed_replicated_c.Exec.{Exec, pure, ◌>>=◌, >>=-eq-ok}
use distributed_replicated_c.Types.{MutationResult, is_success}
use distributed_replicated_c.Nuraft.Buffer.{BufferApi, BufferLaws}
use distributed_replicated_c.Nuraft.Raft.{RaftApi, RaftLaws, blocking}
use distributed_replicated_c.Splinter.{SplinterApi, SplinterLaws}
use distributed_replicated_c.Operation.Request.{Request, Fits}
use distributed_replicated_c.StateMachine.Refinement.{apply_request}
use distributed_replicated_c.Replica.{Replica}
use distributed_replicated_c.Server.{
  ClientRpc, Reply, mutation_reply, handle, handle_put, handle_update, handle_delete,
}
use distributed_replicated_c.Server.Pipeline.{handled_as, handle_mutation, is_success-codes}
use distributed_replicated_c.Server.Consistency.{data_of, success_applies}
use distributed_replicated_c.Client.{RpcApi, Client, ClientState, find_client, weird_case}
use distributed_replicated_c.Client.Answers.{mutate, rpc_of, mutate-IsAnswered}

-- The connections lead to servers in blocking mode: a call that returns was handled by the server at
-- its end, on the state that this server had in the world before.
pub record Serves {b : BufferApi} {s : SplinterApi} {Snapshot : Type 0}
    (raft : RaftApi b s Snapshot) (rpc : RpcApi) : Type 0 where
  pub server_of : rpc.Connection → rpc.World → Replica raft
  pub call-handle :
      (c : rpc.Connection) (op : ClientRpc) (w w' : rpc.World) (reply : Reply)
      → rpc.call c op w ≡ (ok reply, w')
      → handle raft op (server_of c w) ≡ (ok reply, server_of c w')
  pub mode : (c : rpc.Connection) (w : rpc.World) → (server_of c w).return_method ≡ blocking

reply-injective :
    {x y : MutationResult}
    → ◌≡◌ {A = Result Reply} (ok (mutation_reply x)) (ok (mutation_reply y))
    → x ≡ y
reply-injective h = cc

pub codes-is_success :
    (res : MutationResult) → res.spl_rc ≡ pos 0 → res.raft_rc ≡ pos 0 → is_success res ≡ true
unfolding is_success
codes-is_success res h k = rw (h, k) refl

module _ {b : BufferApi} {s : SplinterApi} {Snapshot : Type 0} {raft : RaftApi b s Snapshot} where
  -- The reply to a mutation is the result of its handler.
  handler_result :
      (m : Exec (Replica raft) MutationResult) (result : MutationResult) (r r' : Replica raft)
      → (do x ← m; pure (mutation_reply x)) r ≡ (ok (mutation_reply result), r')
      → m r ≡ (ok result, r')
  handler_result m result r r' h =
      let (x, r1, e, k) = >>=-eq-ok m (λ x. pure (mutation_reply x)) r h in
      e
      ∙ ap (λ y. (ok y, r1)) (reply-injective (ap (λ t. t.0) k))
      ∙ ap (λ q. (ok result, q)) (ap (λ t. t.1) k)

  handle-handle_mutation :
      (req : Request) (result : MutationResult) (r r' : Replica raft)
      → handle raft (rpc_of req) r ≡ (ok (mutation_reply result), r')
      → handle_mutation raft req r ≡ (ok result, r')
  unfolding handle
  handle-handle_mutation (Request.put key value) result r r' h =
      handler_result (handle_put raft key value) result r r' h
  handle-handle_mutation (Request.update key value) result r r' h =
      handler_result (handle_update raft key value) result r r' h
  handle-handle_mutation (Request.delete key) result r r' h =
      handler_result (handle_delete raft key) result r r' h

  -- A call of a mutation that returns a result was handled so by the server at its end.
  pub call-handle_mutation :
      {rpc : RpcApi} (servers : Serves raft rpc) (req : Request) (c : rpc.Connection)
      (w w' : rpc.World) (result : MutationResult)
      → rpc.call c (rpc_of req) w ≡ (ok (mutation_reply result), w')
      → handle_mutation raft req (servers.server_of c w) ≡ (ok result, servers.server_of c w')
  call-handle_mutation servers req c w w' result h =
      handle-handle_mutation req result (servers.server_of c w) (servers.server_of c w')
        (servers.call-handle c (rpc_of req) w w' (mutation_reply result) h)

-- The data of one of the client's servers was changed as the request asks.
pub record IsApplied {b : BufferApi} {s : SplinterApi} (db_laws : SplinterLaws s)
    {Snapshot : Type 0} {raft : RaftApi b s Snapshot} {rpc : RpcApi} (servers : Serves raft rpc)
    (cl : Client rpc) (req : Request) (after : rpc.World) : Type 0 where
  pub server : ℤ
  pub connection : rpc.Connection
  pub known : find_client server cl.clients ≡ some connection
  pub before : rpc.World
  pub asked : (rpc.call connection (rpc_of req) before).1 ≡ after
  pub changed :
      (j : List ℕ)
      → data_of db_laws raft (servers.server_of connection after) j
        ≡ apply_request
            (handled_as req)
            (data_of db_laws raft (servers.server_of connection before))
            j

-- The last reply to the client has the code 999: what became of the request is unknown.
pub record IsUnknown {rpc : RpcApi} (cl : Client rpc) (req : Request) (after : rpc.World)
    : Type 0 where
  pub server : ℤ
  pub connection : rpc.Connection
  pub known : find_client server cl.clients ≡ some connection
  pub before : rpc.World
  pub reply : MutationResult
  pub asked : rpc.call connection (rpc_of req) before ≡ (ok (mutation_reply reply), after)
  pub weird : reply.raft_rc ≡ weird_case

module _ {b : BufferApi} (laws : BufferLaws b) {s : SplinterApi} (db_laws : SplinterLaws s)
    {Snapshot : Type 0} {raft : RaftApi b s Snapshot} (raft_laws : RaftLaws raft) {rpc : RpcApi}
    (servers : Serves raft rpc) (cl : Client rpc) where
  -- When a client that makes at least one attempt returns a success for a mutation, the last call that
  -- it made changed the data of the server at the other end, at every key, exactly as the
  -- specification of the request says, where an update is a put; or the reply to that call has the
  -- code 999. The servers are in blocking mode, the payload of the request fits a u64, and the server
  -- that replied to the last call with the code 0 led and committed no other entry during the call.
  pub mutate-IsApplied :
      (req : Request) (result : MutationResult) (s0 s1 : ClientState rpc)
      → Fits (handled_as req)
      → 0 < cl.num_retries
      → mutate cl req s0 ≡ (ok result, s1)
      → is_success result ≡ true
      → ((c : rpc.Connection) (w : rpc.World) (reply : MutationResult)
          → rpc.call c (rpc_of req) w ≡ (ok (mutation_reply reply), s1.world)
          → reply.raft_rc ≡ pos 0
          → raft.LeadsAlone (servers.server_of c w).raft_instance)
      → IsApplied db_laws servers cl req s1.world ⊎ IsUnknown cl req s1.world
  mutate-IsApplied req result s0 s1 fits retries run success alone =
      let (spl, rft) = is_success-codes result success in
      let answer = mutate-IsAnswered cl req result s0 s1 retries run rft in
      let served =
        call-handle_mutation servers req answer.connection answer.before s1.world answer.reply
          answer.asked in
      elim answer.raft_rc [
        | inl zero ↦ inl (record {
          server = answer.server;
          connection = answer.connection;
          known = answer.known;
          before = answer.before;
          asked = ap (λ t. t.1) answer.asked;
          changed =
              success_applies laws db_laws raft_laws req
                (servers.server_of answer.connection answer.before)
                (servers.server_of answer.connection s1.world) answer.reply
                (servers.mode answer.connection answer.before)
                (alone answer.connection answer.before answer.reply answer.asked zero) fits served
                (codes-is_success answer.reply (sym answer.spl_rc ∙ spl) zero);
        })
        | inr weird ↦ inr (record {
          server = answer.server;
          known = answer.known;
          connection = answer.connection;
          before = answer.before;
          reply = answer.reply;
          asked = answer.asked;
          weird = weird;
        })
      ]
