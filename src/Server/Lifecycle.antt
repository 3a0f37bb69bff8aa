-- ===== src/Server/Lifecycle.antt =====
-- The class `server` of include/server/server.h and src/server/server.cpp from its constructor to its
-- destructor. What is printed is left out.
use distributed_replicated_c.Prelude.{ℕ, ℤ, String}
use distributed_replicated_c.Result.{Start, ready, exits}
use distributed_replicated_c.Exec.{Exec, pure, lift, ◌>>=◌}
use distributed_replicated_c.Nuraft.Buffer.{BufferApi}
use distributed_replicated_c.Nuraft.Raft.{RaftApi}
use distributed_replicated_c.Splinter.{SplinterApi}
use distributed_replicated_c.Replica.{Replica, register_thread, shutdown}
use distributed_replicated_c.Replica.Launch.{ReplicaConfig, RaftParams, LaunchApi, new_replica}
use distributed_replicated_c.Server.{ClientRpc, Reply, handle, handle_join}

-- rpc::server of rpclib, which is not part of the repository. `listen` is its constructor, with the
-- port. `bind_client` and `bind_join` register a handler for each RPC, and `set_worker_init` what each
-- worker thread does first. `async_run` starts the workers; `run` handles calls, those of the workers
-- too, until it is stopped, and gives the replica that the handlers leave.
pub record RpcServerApi {b : BufferApi} {s : SplinterApi} {Snapshot : Type 0}
    (raft : RaftApi b s Snapshot) : Type 1 where
  pub World : Type 0
  pub Listener : Type 0
  pub listen : ℕ → Exec World Listener
  pub bind_client : Listener → (ClientRpc → Exec (Replica raft) Reply) → Exec World (Unit {0})
  pub bind_join :
      Listener
      → (ℤ → String → String → Replica raft → (ℤ × String) × Replica raft)
      → Exec World (Unit {0})
  pub set_worker_init : Listener → (Replica raft → Replica raft) → Exec World (Unit {0})
  pub async_run : Listener → ℕ → Exec World (Unit {0})
  pub run : Listener → Replica raft → Exec World (Replica raft)
  pub stop : Listener → Exec World (Unit {0})

pub record Server {b : BufferApi} {s : SplinterApi} {Snapshot : Type 0}
    {raft : RaftApi b s Snapshot} (net : RpcServerApi raft) : Type 0 where
  pub replica_instance : Replica raft
  pub client_srv : net.Listener
  pub join_srv : net.Listener

module _ {b : BufferApi} {s : SplinterApi} {Snapshot : Type 0} {raft : RaftApi b s Snapshot}
    (net : RpcServerApi raft) where
  open net use {World, Listener}

  -- Each handler is bound under the name of its RPC.
  unfoldable pub initialize : Server net → Exec World (Unit {0})
  initialize srv = do
    joins ← net.bind_join srv.join_srv (handle_join raft)
    net.bind_client srv.client_srv (handle raft)

  -- The constructor behind its first member, the replica.
  unfoldable pub opened : ℕ → ℕ → Start (Replica raft) → Exec World (Start (Server net))
  unfolding initialize
  opened client_port join_port exits = pure exits
  opened client_port join_port (ready r) = do
    client_srv ← net.listen client_port
    join_srv ← net.listen join_port
    let srv : Server net = record {
      replica_instance = r;
      client_srv = client_srv;
      join_srv = join_srv;
    }
    bound ← initialize srv
    set ← net.set_worker_init client_srv (register_thread raft)
    pure (ready srv)

  unfoldable pub new_server :
      LaunchApi raft → RaftParams → ℕ → ℕ → ReplicaConfig s → Exec World (Start (Server net))
  unfolding opened
  new_server launch params client_port join_port cfg = do
    r ← lift (new_replica launch cfg params)
    opened client_port join_port r

  -- It returns once the server for joins is stopped.
  unfoldable pub run : ℕ → Server net → Exec World (Server net)
  run nthreads srv = do
    started ← net.async_run srv.client_srv nthreads
    r ← net.run srv.join_srv srv.replica_instance
    pure (record srv { replica_instance = r })

  -- The destructor.
  unfoldable pub destroy : Server net → Exec World (Server net)
  destroy srv = do
    clients ← net.stop srv.client_srv
    joins ← net.stop srv.join_srv
    pure (record srv { replica_instance = shutdown raft 5 srv.replica_instance })
