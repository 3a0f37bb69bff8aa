-- ===== src/Cluster/Clients.antt =====
-- src/client/client.cpp on the servers of a cluster.
use distributed_replicated_c.Prelude.{
  ℕ, ℤ, some, false, ◌≤◌, ◌≡◌, ap, ◌∙◌, subst, List, ◌∷◌, ◌++◌, length, take, drop,
}
use distributed_replicated_c.Result.{Result, ok}
use distributed_replicated_c.Nuraft.Buffer.{BufferApi, BufferLaws}
use distributed_replicated_c.Nuraft.Raft.{RaftApi, RaftLaws}
use distributed_replicated_c.Splinter.{SplinterApi, SplinterLaws}
use distributed_replicated_c.StateMachine.Refinement.{Contents, replay}
use distributed_replicated_c.Types.{ReadResult}
use distributed_replicated_c.Replica.{Replica}
use distributed_replicated_c.Operation.Request.{Request}
use distributed_replicated_c.Server.{Reply, read_reply, splinterdb_get, handle, handle_get}
use distributed_replicated_c.Client.{RpcApi, Client, ClientState, find_client, get}
use distributed_replicated_c.Client.Applied.{Serves}
use distributed_replicated_c.Client.Reads.{get-call}
use distributed_replicated_c.Cluster.{Node, Cluster, Reach}
use distributed_replicated_c.Cluster.Reads.{Answers, get-Answers}
use distributed_replicated_c.Cluster.Durable.{
  key_of, left_by, LeavesAlone, Acknowledges, Steps, acknowledged-Answers,
}

-- The connections lead to the servers of a cluster, and each server is the replica of a node.
pub record ServesCluster {b : BufferApi} {s : SplinterApi} {Snapshot : Type 0}
    (raft : RaftApi b s Snapshot) (rpc : RpcApi) : Type 0 where
  pub servers : Serves raft rpc
  pub cluster_of : rpc.World → Cluster raft
  pub node_of : rpc.Connection → rpc.World → Node raft
  pub before : rpc.Connection → rpc.World → List (Node raft)
  pub behind : rpc.Connection → rpc.World → List (Node raft)
  pub member :
      (c : rpc.Connection) (w : rpc.World)
      → (cluster_of w).nodes ≡ before c w ++ node_of c w ∷ behind c w
  pub replica : (c : rpc.Connection) (w : rpc.World) → (node_of c w).replica ≡ servers.server_of c w

read_reply-injective :
    {x y : ReadResult} → ◌≡◌ {A = Result Reply} (ok (read_reply x)) (ok (read_reply y)) → x ≡ y
read_reply-injective h = cc

module _ {b : BufferApi} {s : SplinterApi} {Snapshot : Type 0} {raft : RaftApi b s Snapshot} where
  handle-handle_get :
      (key : List ℕ) (result : ReadResult) (r r' : Replica raft)
      → handle raft (splinterdb_get key) r ≡ (ok (read_reply result), r')
      → handle_get raft key r ≡ result
  unfolding handle
  handle-handle_get key result r r' h = read_reply-injective (ap (λ t. t.0) h)

module _ {b : BufferApi} (laws : BufferLaws b) {s : SplinterApi} (db_laws : SplinterLaws s)
    {Snapshot : Type 0} {raft : RaftApi b s Snapshot} (raft_laws : RaftLaws raft)
    (initial : Contents) {rpc : RpcApi} (cluster : ServesCluster raft rpc) (cl : Client rpc) where
  open cluster use {servers, cluster_of, node_of, before, behind}

  -- The server that a get of a client was sent to.
  get-asked :
      (key : List ℕ) (result : ReadResult) (st st' : ClientState rpc)
      → get rpc cl key st ≡ (ok result, st')
      → (id : ℤ) × (c : rpc.Connection) × (find_client id cl.clients ≡ some c)
        × (handle_get raft key (node_of c st.world).replica ≡ result)
  get-asked key result st st' h =
      let (id, c, known, called) = get-call cl key result st st' h in
      (
        id,
        c,
        known,
        ap (handle_get raft key) (cluster.replica c st.world)
            ∙ handle-handle_get key result (servers.server_of c st.world)
                (servers.server_of c st'.world)
                (servers.call-handle c (splinterdb_get key) st.world st'.world (read_reply result)
                  called),
      )

  -- What a client's get returns, while the cluster around it is one that new servers come to, and the
  -- SplinterDB of none of the servers that the client knows has refused an entry that its server has
  -- committed, is the answer of a front part of the cluster's log: the value that its entries leave
  -- under the key when they are replayed, with the code 0, or no value and another code if they leave
  -- none.
  pub client_get-Answers :
      (key : List ℕ) (result : ReadResult) (st st' : ClientState rpc)
      → Reach raft db_laws initial (cluster_of st.world)
      → ((id : ℤ) (k : rpc.Connection)
          → find_client id cl.clients ≡ some k
          → (node_of k st.world).refused ≡ false)
      → get rpc cl key st ≡ (ok result, st')
      → (n : ℕ) × (n ≤ length (cluster_of st.world).log)
        × Answers (replay (take n (cluster_of st.world).log) initial key) result
  client_get-Answers key result st st' path intact h =
      let (id, c, known, same) = get-asked key result st st' h in
      let (within, answer) =
        get-Answers laws db_laws raft_laws initial key (before c st.world) (behind c st.world)
          (node_of c st.world) path (cluster.member c st.world) (intact id c known) in
      (
        (node_of c st.world).applied,
        within,
        subst
            (Answers
              (replay (take (node_of c st.world).applied (cluster_of st.world).log) initial key))
            same answer,
      )

  -- A client's get of the key of a put, an update or a delete that any client was told to have
  -- succeeded returns the value with the code 0, and after a delete no value and another code, when
  -- the servers that the client knows have committed all that the log held at the answer, their
  -- SplinterDB has refused none of their entries, and none of the entries committed there since the
  -- call began makes another request for the key.
  pub client_get-left_by :
      (req : Request) {c d : Cluster raft} (result : ReadResult) (st st' : ClientState rpc)
      → Reach raft db_laws initial c
      → Acknowledges raft db_laws initial req c d
      → Steps raft db_laws initial d (cluster_of st.world)
      → ((id : ℤ) (k : rpc.Connection)
          → find_client id cl.clients ≡ some k
          → ((node_of k st.world).refused ≡ false) × (length d.log ≤ (node_of k st.world).applied))
      → ((id : ℤ) (k : rpc.Connection)
          → find_client id cl.clients ≡ some k
          → LeavesAlone req
              (drop (length c.log) (take (node_of k st.world).applied (cluster_of st.world).log)))
      → get rpc cl (key_of req) st ≡ (ok result, st')
      → Answers (left_by req) result
  client_get-left_by req result st st' path a steps caught_up alone h =
      let (id, k, known, same) = get-asked (key_of req) result st st' h in
      let (intact, le) = caught_up id k known in
      subst (Answers (left_by req)) same (
        acknowledged-Answers laws db_laws raft_laws initial req (before k st.world)
          (behind k st.world) (node_of k st.world) path a steps (cluster.member k st.world) intact
          le (alone id k known))
