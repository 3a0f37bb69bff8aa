-- ===== src/Tests/Launches.antt =====
-- The construction of a replica at concrete inputs.
use distributed_replicated_c.Prelude.{
  ℕ, ◌+◌, ◌≡◌, ◌≢◌, refl, pos, leb, true, false, some, none, [], String, arith,
}
use distributed_replicated_c.Result.{ok, ready}
use distributed_replicated_c.Nuraft.Raft.{blocking}
use distributed_replicated_c.StateMachine.{new_state_machine, created}
use distributed_replicated_c.Replica.{Replica}
use distributed_replicated_c.Replica.Launch.{
  ReplicaConfig, RaftParams, LaunchApi, wait_ready, initialize, launched, new_replica,
  is_not_positive,
}
use distributed_replicated_c.Replica.Started.{IsLaunched, new_replica-ready}
use distributed_replicated_c.Replica.Waits.{wait_ready-finds}
use distributed_replicated_c.Replica.Logs.{info, warning, raft_log_file_name}
use distributed_replicated_c.Text.{to_string, digits, digit}
use distributed_replicated_c.Tests.Logs.{list_entries}
use distributed_replicated_c.Tests.StateMgrs.{list_configs}
use distributed_replicated_c.Tests.Databases.{map_db}
use distributed_replicated_c.Tests.Rafts.{Machine, single_raft}

-- Raft is ready after two sleeps, which the commit index counts.
abbrev pub slow_launch : LaunchApi single_raft
slow_launch = record {
  entries = list_entries;
  configs = list_configs;
  Logger = String × String;
  start_logs = λ raft_log level display spl_log. (raft_log, spl_log);
  init = λ sm smgr logger port pool params. some sm;
  is_initialized = λ sm. leb 2 sm.last_committed_idx;
  sleep_ms = λ ms sm. record sm { last_committed_idx = sm.last_committed_idx + 1 };
}

abbrev config : ReplicaConfig map_db
config = record {
  server_id = pos 4;
  raft_port = 25000;
  client_port = 25001;
  addr = "localhost";
  asio_thread_pool_size = 10;
  snapshot_frequency = pos 7;
  initialization_delay_ms = 250;
  initialization_retries = 20;
  raft_log_file = none;
  log_level = info;
  display_level = warning;
  splinterdb_log_file = none;
  splinterdb_cfg = tt;
  return_method = blocking;
}

abbrev pub params : RaftParams
params = record {
  heart_beat_interval = 0;
  election_timeout_lower_bound = 0;
  election_timeout_upper_bound = 0;
  reserved_log_items = 0;
  client_req_timeout = 0;
  return_method = blocking;
  auto_forwarding = false;
  snapshot_distance = 0;
}

abbrev machine : ℕ → Machine
machine idx = record {
  spl_handle = λ k. none;
  last_committed_idx = idx;
  commit_thread_initialized = false;
  snapshots = [];
  disable_snapshots = false;
}

abbrev replica : Replica single_raft
replica = record { server_id = pos 4; return_method = blocking; raft_instance = machine 2 }

started : new_replica slow_launch config params ≡ ok (ready replica)
unfolding new_replica initialize launched wait_ready new_state_machine created is_not_positive
started = refl

raft_log : raft_log_file_name none (pos 4) ≡ ".logs/srv-4.log"
unfolding raft_log_file_name to_string digits digit
raft_log = refl

new_replica-ready_example :
    (replica.server_id ≢ pos 0)
    × (replica.server_id ≡ config.server_id)
    × (replica.return_method ≡ config.return_method)
    × (slow_launch.is_initialized replica.raft_instance ≡ true)
    × IsLaunched slow_launch config params
new_replica-ready_example = new_replica-ready slow_launch config params replica started

wait_ready-finds_example :
    (sm : Machine) × (wait_ready slow_launch 250 20 (machine 0) ≡ ready sm)
    × (slow_launch.is_initialized sm ≡ true)
wait_ready-finds_example = wait_ready-finds slow_launch 250 20 2 (machine 0) (omega arith) refl

created_machine : new_state_machine map_db tt (is_not_positive (pos 7)) ≡ ok (machine 0)
unfolding new_state_machine created is_not_positive
created_machine = refl
