-- ===== src/Replica/Launch.antt =====
-- include/server/replica_config.h, and the construction of a replica in src/server/replica.cpp: the
-- parameters of Raft, the state machine and the wait for the Raft server.
use distributed_replicated_c.Prelude.{
  ℕ, zero, suc, ℤ, pos, negsuc, eq_ℤ, Bool, true, false, if◌then◌else◌, Option, none, some, String,
}
use distributed_replicated_c.Result.{
  Result, ok, throws, invalid_argument, Start, ready, exits, ◌>>=◌,
}
use distributed_replicated_c.Nuraft.Buffer.{BufferApi}
use distributed_replicated_c.Nuraft.Raft.{RaftApi, ReturnMethod, blocking}
use distributed_replicated_c.Splinter.{SplinterApi}
use distributed_replicated_c.StateMachine.{StateMachine, new_state_machine}
use distributed_replicated_c.Nuraft.LogEntry.{EntryApi}
use distributed_replicated_c.InmemStateMgr.{ConfigApi, InmemStateMgr, new_state_mgr}
use distributed_replicated_c.Endpoint.{endpoint_of}
use distributed_replicated_c.Replica.{Replica}
use distributed_replicated_c.Replica.Logs.{
  LogLevel, info, warning, raft_log_file_name, spl_log_file_name,
}

-- `splinterdb_cfg` has its pointer to the data configuration set.
pub record ReplicaConfig (s : SplinterApi) : Type 0 where
  pub server_id : ℤ
  pub raft_port : ℕ
  pub client_port : ℕ
  pub addr : String
  pub asio_thread_pool_size : ℕ
  pub snapshot_frequency : ℤ
  pub initialization_delay_ms : ℕ
  pub initialization_retries : ℕ
  pub raft_log_file : Option String
  pub log_level : LogLevel
  pub display_level : LogLevel
  pub splinterdb_log_file : Option String
  pub splinterdb_cfg : s.Config
  pub return_method : ReturnMethod

-- The members of nuraft::raft_params that the program sets.
pub record RaftParams : Type 0 where
  pub heart_beat_interval : ℕ
  pub election_timeout_lower_bound : ℕ
  pub election_timeout_upper_bound : ℕ
  pub reserved_log_items : ℕ
  pub client_req_timeout : ℕ
  pub return_method : ReturnMethod
  pub auto_forwarding : Bool
  pub snapshot_distance : ℕ

-- The constructor of replica_config.
unfoldable pub new_replica_config : {s : SplinterApi} → s.Config → ReplicaConfig s
new_replica_config splinterdb_cfg = record {
  server_id = pos 0;
  raft_port = 25000;
  client_port = 25001;
  addr = "localhost";
  asio_thread_pool_size = 10;
  snapshot_frequency = pos 0;
  initialization_delay_ms = 250;
  initialization_retries = 20;
  raft_log_file = none;
  log_level = info;
  display_level = warning;
  splinterdb_log_file = none;
  splinterdb_cfg = splinterdb_cfg;
  return_method = blocking;
}

unfoldable pub default_raft_params_init : RaftParams → RaftParams
default_raft_params_init params = record params {
  heart_beat_interval = 100;
  election_timeout_lower_bound = 300;
  election_timeout_upper_bound = 500;
  reserved_log_items = 1000000;
  client_req_timeout = 3000;
  return_method = blocking;
  auto_forwarding = true;
}

-- max(0, frequency), and frequency <= 0
abbrev pub max_0 : ℤ → ℕ
max_0 (pos n) = n
max_0 (negsuc n) = 0

unfoldable pub is_not_positive : ℤ → Bool
is_not_positive (pos zero) = true
is_not_positive (pos (suc n)) = false
is_not_positive (negsuc n) = true

-- The parameters that `initialize` hands to Raft; `params` are the library's defaults.
unfoldable pub raft_params_of : {s : SplinterApi} → ReplicaConfig s → RaftParams → RaftParams
unfolding default_raft_params_init
raft_params_of config params = record (default_raft_params_init params) {
  snapshot_distance = max_0 config.snapshot_frequency;
  return_method = config.return_method;
}

-- What the constructor calls. `start_logs` opens the two files, starts the logger of Raft with its
-- file and levels, and gives SplinterDB the other file. `init` is raft_launcher::init, which gives a
-- server or a null pointer, with the port and the size of the thread pool. `sleep_ms` is the server
-- after that time.
pub record LaunchApi {b : BufferApi} {s : SplinterApi} {Snapshot : Type 0}
    (raft : RaftApi b s Snapshot) : Type 1 where
  pub entries : EntryApi b
  pub configs : ConfigApi b
  pub Logger : Type 0
  pub start_logs : String → LogLevel → LogLevel → String → Logger
  pub init :
      StateMachine s Snapshot
      → InmemStateMgr entries configs
      → Logger
      → ℕ
      → ℕ
      → RaftParams
      → Option raft.Server
  pub is_initialized : raft.Server → Bool
  pub sleep_ms : ℕ → raft.Server → raft.Server

module _ {b : BufferApi} {s : SplinterApi} {Snapshot : Type 0} {raft : RaftApi b s Snapshot}
    (launch : LaunchApi raft) where
  -- The loop over `ii`, with the number of rounds left.
  unfoldable pub wait_ready : ℕ → ℕ → raft.Server → Start raft.Server
  wait_ready delay_ms zero srv = exits
  wait_ready delay_ms (suc rounds) srv =
      let rest = wait_ready delay_ms rounds (launch.sleep_ms delay_ms srv) in
      if launch.is_initialized srv then ready srv else rest

  unfoldable pub initialize :
      ReplicaConfig s
      → RaftParams
      → launch.Logger
      → InmemStateMgr launch.entries launch.configs
      → StateMachine s Snapshot
      → Start raft.Server
  unfolding wait_ready
  initialize config params logger smgr sm =
      elim (launch.init sm smgr logger config.raft_port config.asio_thread_pool_size
        (raft_params_of config params)) [
          | none ↦ exits
          | some srv ↦ wait_ready config.initialization_delay_ms config.initialization_retries srv
        ]

  unfoldable pub launched : ReplicaConfig s → Start raft.Server → Start (Replica raft)
  launched config exits = exits
  launched config (ready srv) = ready (record {
    server_id = config.server_id;
    return_method = config.return_method;
    raft_instance = srv;
  })

  -- The logs of Raft and of SplinterDB.
  unfoldable pub logger_of : ReplicaConfig s → launch.Logger
  logger_of config =
      launch.start_logs (raft_log_file_name config.raft_log_file config.server_id) config.log_level
        config.display_level (spl_log_file_name config.splinterdb_log_file config.server_id)

  -- The state manager, with the two endpoints of the server.
  unfoldable pub state_mgr_of : ReplicaConfig s → InmemStateMgr launch.entries launch.configs
  state_mgr_of config =
      new_state_mgr launch.entries launch.configs config.server_id
        (endpoint_of config.addr config.raft_port) (endpoint_of config.addr config.client_port)

  -- The constructor.
  unfoldable pub new_replica : ReplicaConfig s → RaftParams → Result (Start (Replica raft))
  unfolding initialize launched is_not_positive logger_of state_mgr_of
  new_replica config params =
      if eq_ℤ config.server_id (pos 0)
      then throws (invalid_argument "server_id must be set")
      else (new_state_machine s config.splinterdb_cfg (is_not_positive config.snapshot_frequency)
          >>= λ sm. ok (
              launched config
                (initialize config params (logger_of config) (state_mgr_of config) sm)))
