-- ===== src/Tests/Connections.antt =====
-- A client that connects to the server of Tests/Servers, at concrete inputs.
use distributed_replicated_c.Prelude.{
  ◌≡◌, refl, ap, ◌∙◌, ◌⊎◌, ℤ, pos, All, List, [], ◌∷◌, String, arith, add64,
}
use distributed_replicated_c.Result.{ok, ready}
use distributed_replicated_c.Nuraft.Raft.{blocking}
use distributed_replicated_c.Text
use distributed_replicated_c.Endpoint.{parse_endpoint, split_endpoint, checked_port}
use distributed_replicated_c.Types.{was_accepted, is_success}
use distributed_replicated_c.Operation.Request.{put}
use distributed_replicated_c.ReadPolicy.{round_robin_read_policy}
use distributed_replicated_c.Replica.{Replica, append_log}
use distributed_replicated_c.Server.{handle, handle_put, extract_result, handle_get_all_servers}
use distributed_replicated_c.Server.Settings.{handle-return_method}
use distributed_replicated_c.StateMachine.{
  register_commit_thread, commit, committed, apply_operation, apply_as, reply,
}
use distributed_replicated_c.Operation.{
  serialize, deserialize, has_value, of_u8, to_u8, buffer_size,
}
use distributed_replicated_c.Slice
use distributed_replicated_c.Slice.{serialized_size}
use distributed_replicated_c.Bytes.{of_le_bytes, le_bytes}
use distributed_replicated_c.Client.{
  RpcApi, Client, ClientState, call_as, find_client, get_leader_handle, mutation_round,
  mutation_loop,
}
use distributed_replicated_c.Client
use distributed_replicated_c.Client.Answers.{mutate}
use distributed_replicated_c.Client.Applied.{Serves, IsApplied, IsUnknown, mutate-IsApplied}
use distributed_replicated_c.Client.Rotation.{here, ReadsFrom}
use distributed_replicated_c.Client.Connect.{
  ConnectApi, Connected, start_state, emplace, ask_seed, connect_to, connect_all, set_timeouts,
  connect_servers, or_exit, new_client,
}
use distributed_replicated_c.Client.Constructed.{reads-ReadsFrom}
use distributed_replicated_c.Client.Connections.{IsConnected, new_client-IsConnected}
use distributed_replicated_c.Tests.Buffers.{
  list_buffer_laws, read_as, read, write, to_word, of_word,
}
use distributed_replicated_c.Tests.Databases.{map_db_laws}
use distributed_replicated_c.Tests.Rafts.{single_raft, single_raft_laws}
use distributed_replicated_c.Tests.Servers.{server, accepted}

-- A server in blocking mode.
abbrev pub World : Type 0
World = (r : Replica single_raft) × (r.return_method ≡ blocking)

abbrev pub live_rpc : RpcApi
live_rpc = record {
  Connection = Unit {0};
  World = World;
  call = λ c op w. (
    (handle single_raft op w.0).0,
    ((handle single_raft op w.0).1, handle-return_method single_raft op w.0 ∙ w.1),
  );
  sleep_ms = λ ms w. w;
}

abbrev pub servers : Serves single_raft live_rpc
servers = record {
  server_of = λ c w. w.0;
  call-handle = λ c op w w' reply h. ap (λ t. (t.0, t.1.0)) h;
  mode = λ c w. w.1;
}

abbrev pub live_connect : ConnectApi live_rpc
live_connect = record { connect = λ host port w. (ok tt, w); set_timeout = λ timeout c w. w }

abbrev pub live : World
live = (server, refl)

abbrev pub client : Client live_rpc
client = record { clients = (pos 1, tt) ∷ []; num_retries = 3 }

abbrev pub made : Connected live_rpc
made = record { client = client; read_policy = pos 1 ∷ []; leader_id = pos 1 }

made_run :
    (w : World) × (new_client live_connect "localhost" 25001 10000 3 live ≡ (ok (ready made), w))
unfolding new_client or_exit connect_servers set_timeouts connect_all connect_to emplace ask_seed
    call_as handle handle_get_all_servers parse_endpoint split_endpoint checked_port Text.stoi
    Text.split_at Text.skip_spaces Text.read_signed Text.read_unsigned Text.read_digits Text.to_int
    round_robin_read_policy
made_run = (_, refl)

reads-ReadsFrom_example : ReadsFrom client (97 ∷ []) (start_state made made_run.0)
reads-ReadsFrom_example =
    reads-ReadsFrom live_connect "localhost" 25001 10000 3 live made_run.0 made
      (start_state made made_run.0) (97 ∷ []) made_run.1 here

new_client-IsConnected_example :
    (seed : Unit {0}) × (v : World) × (v' : World) × (srvs : List (ℤ × String))
    × (live_connect.connect "localhost" 25001 live ≡ (ok seed, v))
    × (ask_seed live_connect seed v ≡ (ok (srvs, pos 1), v'))
    × All (λ entry. IsConnected live_connect srvs entry.0 entry.1) client.clients
new_client-IsConnected_example =
    new_client-IsConnected live_connect "localhost" 25001 10000 3 live made_run.0 made made_run.1

abbrev before : ClientState live_rpc
before = record { read_policy = pos 1 ∷ []; leader_id = pos 1; world = live }

put_run :
    (w : World) × (mutate client (put (97 ∷ []) (98 ∷ 99 ∷ [])) before
      ≡ (ok accepted, record before { world = w }))
unfolding Client.put mutation_loop get_leader_handle mutation_round was_accepted find_client call_as
    handle commit committed deserialize read_as read Slice.deserialize of_le_bytes has_value of_u8
    register_commit_thread apply_operation apply_as reply write le_bytes handle_put append_log
    extract_result serialize to_u8 buffer_size serialized_size add64 Slice.serialize to_word of_word
put_run = (_, refl)

mutate-IsApplied_example :
    IsApplied map_db_laws servers client (put (97 ∷ []) (98 ∷ 99 ∷ [])) put_run.0
    ⊎ IsUnknown client (put (97 ∷ []) (98 ∷ 99 ∷ [])) put_run.0
unfolding is_success
mutate-IsApplied_example =
    mutate-IsApplied list_buffer_laws map_db_laws single_raft_laws servers client
      (put (97 ∷ []) (98 ∷ 99 ∷ [])) accepted before (record before { world = put_run.0 })
      (omega arith) (omega arith) put_run.1 refl (λ c w reply asked code. tt)
