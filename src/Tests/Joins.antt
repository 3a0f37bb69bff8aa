-- ===== src/Tests/Joins.antt =====
-- The command line of a server that joins a cluster, at concrete inputs.
use Prim.Native.String.{◌++◌}
use distributed_replicated_c.Prelude.{ℕ, ◌*◌, ◌^◌, ◌≡◌, refl, pos, false, arith}
use distributed_replicated_c.Result.{ok, ready}
use distributed_replicated_c.Text
use distributed_replicated_c.Text.{to_string}
use distributed_replicated_c.Endpoint.{parse_endpoint, split_endpoint, checked_port, endpoint_of}
use distributed_replicated_c.StateMachine.{new_state_machine, created}
use distributed_replicated_c.Replica.Launch.{
  new_replica_config, wait_ready, initialize, launched, new_replica, is_not_positive,
}
use distributed_replicated_c.SplServer.Flags.{
  ServerFlags, default_flags, validate_port, validate_nthreads, is_accepted,
}
use distributed_replicated_c.Server.Lifecycle
use distributed_replicated_c.Server.Lifecycle.{
  RpcServerApi, Server, new_server, opened, run, destroy,
}
use distributed_replicated_c.SplServer.{
  MachineApi, JoinApi, config_of, try_join_cluster, serve, started, main,
}
use distributed_replicated_c.SplServer.Settings.{config_of-exact}
use distributed_replicated_c.SplServer.Joining.{HasJoined, main-HasJoined}
use distributed_replicated_c.Tests.Databases.{map_db}
use distributed_replicated_c.Tests.Rafts.{single_raft}
use distributed_replicated_c.Tests.Launches.{slow_launch, params}

abbrev flags : ServerFlags
flags = record default_flags { serverid = pos 4; seed = "node1:10002" }

abbrev machine : MachineApi map_db
machine = record {
  splinterdb_config = λ name disk cache key. tt;
  hostname = "node4";
  raft_defaults = params;
}

-- A network on which no call arrives.
abbrev net : RpcServerApi single_raft
net = record {
  World = Unit {0};
  Listener = ℕ;
  listen = λ port w. (ok port, w);
  bind_client = λ srv handler w. (ok tt, w);
  bind_join = λ srv handler w. (ok tt, w);
  set_worker_init = λ srv init w. (ok tt, w);
  async_run = λ srv nthreads w. (ok tt, w);
  run = λ srv r w. (ok r, w);
  stop = λ srv w. (ok tt, w);
}

-- The seed accepts every server.
abbrev join_api : JoinApi net
join_api = record {
  Connection = Unit {0};
  connect = λ host port w. (ok tt, w);
  join = λ c id raft_endpoint client_endpoint w. (ok (pos 0, "OK"), w);
}

config_of-exact_example :
    let cfg = config_of machine flags in
    (pos cfg.raft_port ≡ pos 10001)
    × (pos cfg.client_port ≡ pos 10003)
    × (cfg.splinterdb_cfg
        ≡ machine.splinterdb_config
            ("sm-state-" ++ (to_string (pos 4) ++ ".db"))
            (1024 * 2 ^ 20)
            (64 * 2 ^ 20)
            100)
    × (parse_endpoint (endpoint_of cfg.addr cfg.raft_port) ≡ ok ("node4", cfg.raft_port))
    × (parse_endpoint (endpoint_of cfg.addr cfg.client_port) ≡ ok ("node4", cfg.client_port))
unfolding is_accepted validate_port validate_nthreads
config_of-exact_example = config_of-exact machine flags refl (omega arith) (omega arith) (
  (λ e. omega arith),
  ((λ e. omega arith), ((λ e. omega arith), ((λ e. omega arith), ((λ e. omega arith), tt)))),
)

joined_run : main join_api machine slow_launch flags tt ≡ (ok (ready (pos 0)), tt)
unfolding main started serve try_join_cluster config_of new_replica_config new_replica initialize
    launched wait_ready new_state_machine created is_not_positive parse_endpoint split_endpoint
    checked_port Text.stoi Text.split_at Text.skip_spaces Text.read_signed Text.read_unsigned
    Text.read_digits Text.to_int new_server opened Lifecycle.initialize run destroy
joined_run = refl

main-HasJoined_example :
    (is_not_positive (pos 4) ≡ false)
    × ((srv : Server net) × (w1 : Unit {0}) × (new_server net slow_launch params 10003 10002
            (config_of machine flags)
            tt
          ≡ (ok (ready srv), w1)))
    × HasJoined join_api "node1:10002" (config_of machine flags)
main-HasJoined_example = main-HasJoined join_api machine slow_launch flags tt tt joined_run refl
