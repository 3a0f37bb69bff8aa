-- ===== src/SplServer.antt =====
-- apps/spl_server.cpp: the command line of a server, and how it joins a cluster. What is printed is
-- left out.
pub mod Flags
pub mod Settings
pub mod Joining
use Prim.Native.String.{◌++◌}
use text.Mathlib.Text.{◌==◌ as ◌==ˢ◌}
use distributed_replicated_c.Prelude.{
  ℕ, ◌-◌, ◌*◌, ◌%◌, ◌^◌, ℤ, pos, negsuc, eq_ℤ, Bool, if◌then◌else◌, u64_mod, String,
}
use distributed_replicated_c.Result.{Result, ok, throws, Start, ready, exits}
use distributed_replicated_c.Exec.{Exec, pure, lift, ◌>>=◌}
use distributed_replicated_c.Text.{to_string}
use distributed_replicated_c.Endpoint.{parse_endpoint, endpoint_of}
use distributed_replicated_c.Nuraft.Buffer.{BufferApi}
use distributed_replicated_c.Nuraft.Raft.{RaftApi}
use distributed_replicated_c.Splinter.{SplinterApi}
use distributed_replicated_c.Replica.{Replica}
use distributed_replicated_c.Replica.Logs.{trace, disabled}
use distributed_replicated_c.Replica.Launch.{
  ReplicaConfig, new_replica_config, RaftParams, LaunchApi, new_replica, is_not_positive,
}
use distributed_replicated_c.InmemLogStore.Pack.{to_u64}
use distributed_replicated_c.Server.Lifecycle.{RpcServerApi, Server, new_server, run, destroy}
use distributed_replicated_c.SplServer.Flags.{ServerFlags}

-- static_cast<uint16_t>
abbrev pub to_u16 : ℤ → ℕ
to_u16 (pos n) = n % 2 ^ 16
to_u16 (negsuc n) = 2 ^ 16 - 1 - n % 2 ^ 16

-- The configuration of SplinterDB from the name of the file, the sizes of disk and cache and the
-- largest size of a key, with every other member 0 and the default comparison of keys; the name that
-- gethostname gives; and what Raft takes as its default parameters.
pub record MachineApi (s : SplinterApi) : Type 0 where
  pub splinterdb_config : String → ℕ → ℕ → ℕ → s.Config
  pub hostname : String
  pub raft_defaults : RaftParams

-- rpc::client of rpclib, as a server that joins uses it: `join` is the call of
-- RPC_JOIN_REPLICA_GROUP.
pub record JoinApi {b : BufferApi} {s : SplinterApi} {Snapshot : Type 0}
    {raft : RaftApi b s Snapshot} (net : RpcServerApi raft) : Type 1 where
  pub Connection : Type 0
  pub connect : String → ℕ → Exec net.World Connection
  pub join : Connection → ℤ → String → String → Exec net.World (ℤ × String)

module _ {s : SplinterApi} (machine : MachineApi s) where
  -- The configuration that main makes of the flags.
  unfoldable pub config_of : ServerFlags → ReplicaConfig s
  config_of flags =
      let dbname = "sm-state-" ++ (to_string flags.serverid ++ ".db") in
      record (new_replica_config (
        machine.splinterdb_config dbname ((flags.dbfilesize * 1024 * 1024) % u64_mod)
          ((flags.cachesize * 1024 * 1024) % u64_mod) flags.maxkeysize)) {
            server_id = flags.serverid;
            addr = machine.hostname;
            raft_port = to_u16 flags.raftport;
            client_port = to_u16 flags.clientport;
            log_level = trace;
            display_level = disabled;
          }

module _ {b : BufferApi} {s : SplinterApi} {Snapshot : Type 0} {raft : RaftApi b s Snapshot}
    {net : RpcServerApi raft} (join_api : JoinApi net) where
  open net use {World}

  -- exit(1) for a return code other than 0.
  unfoldable pub try_join_cluster : String → ReplicaConfig s → Exec World (Start (Unit {0}))
  try_join_cluster seed cfg = do
    address ← lift (parse_endpoint seed)
    cl ← join_api.connect address.0 address.1
    answer ←
        join_api.join cl cfg.server_id (endpoint_of cfg.addr cfg.raft_port)
          (endpoint_of cfg.addr cfg.client_port)
    pure (if eq_ℤ answer.0 (pos 0) then ready tt else exits)

  -- The end of main with the server, which is destroyed before main returns.
  unfoldable pub serve : ℤ → Server net → Start (Unit {0}) → Exec World (Start ℤ)
  serve nthreads srv exits = pure exits
  serve nthreads srv (ready u) = do
    stopped ← run net (to_u64 nthreads) srv
    destroyed ← destroy net stopped
    pure (ready (pos 0))

  -- main behind the construction of the server.
  unfoldable pub started : ServerFlags → ReplicaConfig s → Start (Server net) → Exec World (Start ℤ)
  started flags cfg exits = pure exits
  started flags cfg (ready srv) = do
    joined ← if flags.seed ==ˢ "" then pure (ready tt) else try_join_cluster flags.seed cfg
    serve flags.nthreads srv joined

  unfoldable pub main : MachineApi s → LaunchApi raft → ServerFlags → Exec World (Start ℤ)
  main machine launch flags = if is_not_positive flags.serverid then pure (ready (pos 1)) else (do
    srv ←
        new_server net launch machine.raft_defaults (to_u16 flags.clientport)
          (to_u16 flags.joinport) (config_of machine flags)
    started flags (config_of machine flags) srv)
