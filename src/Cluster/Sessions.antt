-- ===== src/Cluster/Sessions.antt =====
-- A mutation of one client, and what the clients read after it.
use distributed_replicated_c.Prelude.{
  ℕ, ◌<◌, ◌≤◌, ◌≡◌, refl, sym, ap, ◌∙◌, true, ◌⊎◌, inl, inr, [], ◌∷◌, ◌++◌, length, take, drop, ℤ,
  some, false, pos, List,
}
use distributed_replicated_c.Result.{ok}
use distributed_replicated_c.Nuraft.Buffer.{BufferApi, BufferLaws}
use distributed_replicated_c.Nuraft.Raft.{RaftApi, RaftLaws}
use distributed_replicated_c.Splinter.{SplinterApi, SplinterLaws}
use distributed_replicated_c.Operation.{serialize}
use distributed_replicated_c.Operation.Codec.{deserialize-serialize}
use distributed_replicated_c.Operation.Request.{
  Request, Fits, operation_of, operation_of-IsWellFormed,
}
use distributed_replicated_c.StateMachine.Refinement.{Contents, Entry}
use distributed_replicated_c.Types.{MutationResult, ReadResult, is_success}
use distributed_replicated_c.Replica.{Replica}
use distributed_replicated_c.Server.{mutation_reply}
use distributed_replicated_c.Server.Pipeline.{handled_as, handle_mutation, is_success-codes}
use distributed_replicated_c.Server.Consistency.{success-code}
use distributed_replicated_c.Client.{RpcApi, Client, ClientState, find_client, get}
use distributed_replicated_c.Client.Answers.{mutate, rpc_of, mutate-IsAnswered}
use distributed_replicated_c.Client.Applied.{IsUnknown, call-handle_mutation, codes-is_success}
use distributed_replicated_c.Cluster.{Reach}
use distributed_replicated_c.Cluster.Reads.{Answers}
use distributed_replicated_c.Cluster.Durable.{key_of, left_by, LeavesAlone, Acknowledges, Steps}
use distributed_replicated_c.Cluster.Clients.{ServesCluster, client_get-left_by}

-- The code that Raft returns for the payload of a mutation.
abbrev pub raft_code :
    {b : BufferApi} {s : SplinterApi} {Snapshot : Type 0} (raft : RaftApi b s Snapshot)
    → b.Buffer
    → Replica raft
    → ℤ
raft_code raft payload r = (raft.append_entries (payload ∷ []) r.raft_instance).0.result_code

-- What Raft promises of the world around the clients. The cluster of any world is one that new servers
-- come to. When append_entries in blocking mode returned the code OK for the payload of a mutation, to
-- the server that leads or to one that forwarded it, the entry was committed during the call, with
-- whatever else the cluster committed before and behind it.
pub record Replicates {b : BufferApi} {s : SplinterApi} {Snapshot : Type 0}
    {raft : RaftApi b s Snapshot} {rpc : RpcApi} (cluster : ServesCluster raft rpc)
    (db_laws : SplinterLaws s) (initial : Contents) : Type 0 where
  pub reached : (w : rpc.World) → Reach raft db_laws initial (cluster.cluster_of w)
  pub appended :
      (c : rpc.Connection) (w w' : rpc.World) (req : Request) (res : MutationResult)
      (payload : b.Buffer)
      → rpc.call c (rpc_of req) w ≡ (ok (mutation_reply res), w')
      → serialize b (operation_of (handled_as req)) ≡ ok payload
      → raft_code raft payload (cluster.servers.server_of c w) ≡ pos 0
      → Steps raft db_laws initial (cluster.cluster_of w) (cluster.cluster_of w')
        × (earlier : List (Entry b)) × (more : List (Entry b)) × (index : ℕ) × ((cluster.cluster_of
              w').log
            ≡ (cluster.cluster_of w).log
              ++ (earlier
                  ++ (record { index = index; request = handled_as req; payload = payload }
                      ∷ more)))

module _ {b : BufferApi} (laws : BufferLaws b) {s : SplinterApi} (db_laws : SplinterLaws s)
    {Snapshot : Type 0} {raft : RaftApi b s Snapshot} (raft_laws : RaftLaws raft)
    (initial : Contents) {rpc : RpcApi} (cluster : ServesCluster raft rpc)
    (world : Replicates cluster db_laws initial) where
  open cluster use {servers, cluster_of, node_of, before, behind}

  -- A call that is answered with a success appends an entry for its request.
  call-Acknowledges :
      (c : rpc.Connection) (w w' : rpc.World) (req : Request) (res : MutationResult)
      → Fits (handled_as req)
      → rpc.call c (rpc_of req) w ≡ (ok (mutation_reply res), w')
      → is_success res ≡ true
      → Acknowledges raft db_laws initial req (cluster_of w) (cluster_of w')
  call-Acknowledges c w w' req res fits asked success =
      let (payload, made, _) =
        deserialize-serialize laws (operation_of (handled_as req))
          (operation_of-IsWellFormed (handled_as req) fits) in
      let handled = call-handle_mutation servers req c w w' res asked in
      let code =
        success-code laws db_laws raft_laws req (servers.server_of c w) (servers.server_of c w') res
          payload (servers.mode c w) fits made handled success in
      let (steps, earlier, more, index, grown) =
        world.appended c w w' req res payload asked made code in
      record {
        before = before c w;
        behind = behind c w;
        server = node_of c w;
        place = cluster.member c w;
        res = res;
        replica = servers.server_of c w';
        run = ap (handle_mutation raft req) (cluster.replica c w) ∙ handled;
        success = success;
        steps = steps;
        earlier = earlier;
        entry = record { index = index; request = handled_as req; payload = payload };
        more = more;
        same = refl;
        log = grown;
      }

  -- What one client writes, every client reads. When a client that makes at least one attempt returns
  -- a success for a put, an update or a delete whose payload fits a u64, then later a get of the key by
  -- any client returns the value with the code 0, and after a delete no value and another code, when
  -- the servers that this client knows have committed all that the log held after the mutation, the
  -- SplinterDB of none of them has refused one of its entries, and of the entries that they have
  -- committed since the call that succeeded began none makes another request for the key; or the last
  -- reply to the writing client had the code 999. Raft commits what it answers with OK, and the servers
  -- are in blocking mode.
  pub mutate-get :
      (writer reader : Client rpc) (req : Request) (result : MutationResult) (read : ReadResult)
      (s0 s1 t0 t1 : ClientState rpc)
      → Fits (handled_as req)
      → 0 < writer.num_retries
      → mutate writer req s0 ≡ (ok result, s1)
      → is_success result ≡ true
      → Steps raft db_laws initial (cluster_of s1.world) (cluster_of t0.world)
      → ((id : ℤ) (k : rpc.Connection)
          → find_client id reader.clients ≡ some k
          → ((node_of k t0.world).refused ≡ false)
            × (length (cluster_of s1.world).log ≤ (node_of k t0.world).applied))
      → ((c : rpc.Connection) (w : rpc.World) (reply : MutationResult)
          → rpc.call c (rpc_of req) w ≡ (ok (mutation_reply reply), s1.world)
          → reply.raft_rc ≡ pos 0
          → (id : ℤ) (k : rpc.Connection) → find_client id reader.clients ≡ some k
          → LeavesAlone req (
              drop
                (length (cluster_of w).log)
                (take (node_of k t0.world).applied (cluster_of t0.world).log)))
      → get rpc reader (key_of req) t0 ≡ (ok read, t1)
      → Answers (left_by req) read ⊎ IsUnknown writer req s1.world
  mutate-get writer reader req result read s0 s1 t0 t1 fits retries run success steps caught_up
        alone asked =
      let (spl, rft) = is_success-codes result success in
      let answer = mutate-IsAnswered writer req result s0 s1 retries run rft in
      elim answer.raft_rc [
        | inl zero ↦ inl (
            client_get-left_by laws db_laws raft_laws initial cluster reader req read t0 t1
              (world.reached answer.before)
              (call-Acknowledges answer.connection answer.before s1.world req answer.reply fits
                answer.asked (codes-is_success answer.reply (sym answer.spl_rc ∙ spl) zero))
              steps caught_up (alone answer.connection answer.before answer.reply answer.asked zero)
              asked)
        | inr weird ↦ inr (record {
          server = answer.server;
          known = answer.known;
          connection = answer.connection;
          before = answer.before;
          reply = answer.reply;
          asked = answer.asked;
          weird = weird;
        })
      ]
