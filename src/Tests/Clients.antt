-- ===== src/Tests/Clients.antt =====
-- The client at concrete inputs, with the server of Tests/Servers at the other end.
use distributed_replicated_c.Prelude.{ℕ, ◌+◌, ◌*◌, ◌≤◌, ◌≡◌, refl, pos, [], ◌∷◌, arith, add64}
use distributed_replicated_c.Result.{ok, Result}
use distributed_replicated_c.Types.{was_accepted}
use distributed_replicated_c.Operation.Request.{put}
use distributed_replicated_c.Replica.{Replica, append_log}
use distributed_replicated_c.Server.{
  ClientRpc, Reply, handle, handle_put, extract_result, splinterdb_put,
}
use distributed_replicated_c.StateMachine.{
  register_commit_thread, commit, committed, apply_operation, apply_as, reply,
}
use distributed_replicated_c.Operation.{
  serialize, deserialize, has_value, of_u8, to_u8, buffer_size,
}
use distributed_replicated_c.Slice
use distributed_replicated_c.Slice.{serialized_size}
use distributed_replicated_c.Client.{
  RpcApi, Client, ClientState, call_as, find_client, get_leader_handle, mutation_round,
  mutation_loop,
}
use distributed_replicated_c.Client
use distributed_replicated_c.Client.Answers.{IsAnswered, mutate, mutate-IsAnswered}
use distributed_replicated_c.Client.Calls.{CallCount, mutate-calls}
use distributed_replicated_c.Bytes.{of_le_bytes, le_bytes}
use distributed_replicated_c.Tests.Buffers.{read_as, read, write, to_word, of_word}
use distributed_replicated_c.Tests.Rafts.{single_raft}
use distributed_replicated_c.Tests.Servers.{server, put_server, accepted}

-- Only a put counts.
abbrev puts : ClientRpc → ℕ
puts (splinterdb_put key value) = 1
puts _ = 0

-- The server, and how many puts it has handled.
abbrev World : Type 0
World = Replica single_raft × ℕ

abbrev serve : ClientRpc → World → Result Reply × World
serve op (r, n) = ((handle single_raft op r).0, ((handle single_raft op r).1, n + puts op))

abbrev local_rpc : RpcApi
local_rpc = record {
  Connection = Unit {0};
  World = World;
  call = λ c op w. serve op w;
  sleep_ms = λ ms w. w;
}

abbrev local_count : CallCount local_rpc puts
local_count = record {
  calls = λ w. w.1;
  calls-call = λ c op w. refl;
  calls-sleep_ms = λ ms w. refl;
}

abbrev client : Client local_rpc
client = record { clients = (pos 1, tt) ∷ []; num_retries = 3 }

abbrev before : ClientState local_rpc
before = record { read_policy = pos 1 ∷ []; leader_id = pos 1; world = (server, 0) }

abbrev after : ClientState local_rpc
after = record before { world = (put_server, 1) }

put_run : mutate client (put (97 ∷ []) (98 ∷ 99 ∷ [])) before ≡ (ok accepted, after)
unfolding Client.put mutation_loop get_leader_handle mutation_round was_accepted find_client call_as
    handle commit committed deserialize read_as read Slice.deserialize of_le_bytes has_value of_u8
    register_commit_thread apply_operation apply_as reply write le_bytes handle_put append_log
    extract_result serialize to_u8 buffer_size serialized_size add64 Slice.serialize to_word of_word
put_run = refl

mutate-IsAnswered_example :
    IsAnswered client (splinterdb_put (97 ∷ []) (98 ∷ 99 ∷ [])) accepted (put_server, 1)
mutate-IsAnswered_example =
    mutate-IsAnswered client (put (97 ∷ []) (98 ∷ 99 ∷ [])) accepted before after (omega arith)
      put_run refl

mutate-calls_example :
    (mutate client (put (97 ∷ []) (98 ∷ 99 ∷ [])) before).1.world.1 ≤ 0 + 3 * (1 + 1 * (3 * 0))
mutate-calls_example = mutate-calls local_count client (put (97 ∷ []) (98 ∷ 99 ∷ [])) before
