-- ===== src/Tests/Commands.antt =====
-- The command line of the client at a concrete input.
use distributed_replicated_c.Prelude.{◌≡◌, ◌↔◌, true, refl, [], ◌∷◌, add64, ℕ, List}
use distributed_replicated_c.Result.{ok, ready}
use distributed_replicated_c.Text
use distributed_replicated_c.Text.{codes}
use distributed_replicated_c.Endpoint.{parse_endpoint, split_endpoint, checked_port}
use distributed_replicated_c.Types.{MutationResult, is_success, was_accepted}
use distributed_replicated_c.ReadPolicy.{round_robin_read_policy}
use distributed_replicated_c.Replica.{append_log}
use distributed_replicated_c.Server.{handle, handle_put, extract_result, handle_get_all_servers}
use distributed_replicated_c.StateMachine.{
  register_commit_thread, commit, committed, apply_operation, apply_as, reply,
}
use distributed_replicated_c.Operation.{
  serialize, deserialize, has_value, of_u8, to_u8, buffer_size,
}
use distributed_replicated_c.Slice
use distributed_replicated_c.Slice.{serialized_size}
use distributed_replicated_c.Bytes.{of_le_bytes, le_bytes}
use distributed_replicated_c.Client.{
  call_as, find_client, get_leader_handle, mutation_round, mutation_loop,
}
use distributed_replicated_c.Client
use distributed_replicated_c.Client.Connect.{
  emplace, ask_seed, connect_to, connect_all, set_timeouts, connect_servers, or_exit, new_client,
}
use distributed_replicated_c.SplClient.{
  tokenize, push_token, handle_command, run_command, to_lower, handle_mutation_result,
}
use distributed_replicated_c.SplClient.Main.{
  ClientFlags, client_port, run_client, with_client, connect_and_run, main,
}
use distributed_replicated_c.SplClient.ExitCode.{HasSucceeded, main-HasSucceeded}
use distributed_replicated_c.Tests.Buffers.{read_as, read, write, to_word, of_word}
use distributed_replicated_c.SplClient.Reports.{success_line, handle_command-mutate}
use distributed_replicated_c.Client.Answers.{mutate}
use distributed_replicated_c.Exec.{pure, ◌>>=◌}
use distributed_replicated_c.Operation.Request.{put}
use distributed_replicated_c.Tests.Leaders.{moved_rpc, client, after}
use distributed_replicated_c.Tests.Connections.{live_rpc, live_connect, live}

abbrev flags : ClientFlags
flags = record { endpoint = "localhost:25001"; e = "put a bc" }

-- "succeeded" and the end of the line
abbrev succeeded : List ℕ
succeeded = 115 ∷ 117 ∷ 99 ∷ 99 ∷ 101 ∷ 101 ∷ 100 ∷ 101 ∷ 100 ∷ 10 ∷ []

main_run : (w : live_rpc.World) × (main live_connect flags [] live ≡ (ok (ready (0, succeeded)), w))
unfolding main connect_and_run with_client run_client client_port codes Text.stoi Text.split_at
    Text.skip_spaces Text.read_signed Text.read_unsigned Text.read_digits Text.to_int new_client
    or_exit connect_servers set_timeouts connect_all connect_to emplace ask_seed call_as handle
    handle_get_all_servers parse_endpoint split_endpoint checked_port round_robin_read_policy
    tokenize push_token handle_command run_command to_lower handle_mutation_result Client.put
    mutation_loop get_leader_handle mutation_round was_accepted find_client commit committed
    deserialize read_as read Slice.deserialize of_le_bytes has_value of_u8 register_commit_thread
    apply_operation apply_as reply write le_bytes handle_put append_log extract_result serialize
    to_u8 buffer_size serialized_size add64 Slice.serialize to_word of_word
main_run = (_, refl)

main-HasSucceeded_example : HasSucceeded live_connect flags succeeded live
main-HasSucceeded_example =
    main-HasSucceeded live_connect flags [] succeeded live main_run.0 main_run.1 refl

-- "PUT", a key, and a value.
put_words_run :
    handle_command moved_rpc client
      ((80 ∷ 85 ∷ 84 ∷ []) ∷ (97 ∷ []) ∷ (98 ∷ []) ∷ [])
      (record after { world = 102 })
    ≡ (ok (true, succeeded), after)
unfolding handle_command run_command to_lower Client.put mutation_loop get_leader_handle
    mutation_round was_accepted find_client call_as handle_mutation_result codes
put_words_run = refl

handle_command-mutate_example :
    (printed : MutationResult → List ℕ) × (handle_command moved_rpc client
        ((80 ∷ 85 ∷ 84 ∷ []) ∷ (97 ∷ []) ∷ (98 ∷ []) ∷ [])
        after
      ≡ (do res ← mutate client (put (97 ∷ []) (98 ∷ [])); pure (is_success res, printed res))
          after)
    × ((res : MutationResult) → (is_success res ≡ true) ↔ (printed res ≡ success_line))
unfolding to_lower
handle_command-mutate_example =
    handle_command-mutate client (put (97 ∷ []) (98 ∷ [])) (80 ∷ 85 ∷ 84 ∷ []) [] after refl
