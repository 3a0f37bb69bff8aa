-- ===== src/Tests/Servers.antt =====
-- The handlers of the server at concrete inputs.
use distributed_replicated_c.Prelude.{add64, true, pos, ◌≡◌, refl, [], ◌∷◌}
use distributed_replicated_c.Result.{ok}
use distributed_replicated_c.Nuraft.Raft.{blocking}
use distributed_replicated_c.Types.{MutationResult, is_success}
use distributed_replicated_c.Replica.{Replica, database, append_log}
use distributed_replicated_c.Operation.Request.{put, update}
use distributed_replicated_c.StateMachine.Commit.{execute}
use distributed_replicated_c.StateMachine.{
  register_commit_thread, commit, committed, apply_operation, apply_as, reply,
}
use distributed_replicated_c.Operation.{
  serialize, deserialize, has_value, of_u8, to_u8, buffer_size,
}
use distributed_replicated_c.Slice
use distributed_replicated_c.Slice.{serialized_size}
use distributed_replicated_c.Server.{extract_result, handle_put, handle_delete}
use distributed_replicated_c.Server.Pipeline.{handle_mutation, mutation_applies}
use distributed_replicated_c.Server.Consistency.{success_applies, data_of}
use distributed_replicated_c.StateMachine.Refinement.{apply_request}
use distributed_replicated_c.Bytes.{of_le_bytes, le_bytes}
use distributed_replicated_c.Tests.Buffers.{
  list_buffer_laws, read_as, read, write, to_word, of_word,
}
use distributed_replicated_c.Tests.Databases.{map_db, map_db_laws}
use distributed_replicated_c.Tests.Rafts.{single_raft, single_raft_laws}
use distributed_replicated_c.Tests.Operations.{put_payload, serialize_put, delete_payload}
use distributed_replicated_c.Tests.Machines.{new_machine, put_request-Fits}

abbrev pub server : Replica single_raft
server = record { server_id = pos 1; return_method = blocking; raft_instance = new_machine }

abbrev pub accepted : MutationResult
accepted = record { spl_rc = pos 0; raft_rc = pos 0; msg = "OK" }

abbrev pub put_server : Replica single_raft
put_server = record server {
  raft_instance = (single_raft.append_entries (put_payload ∷ []) new_machine).1;
}

abbrev delete_server : Replica single_raft
delete_server = record put_server {
  raft_instance = (single_raft.append_entries (delete_payload ∷ []) put_server.raft_instance).1;
}

-- Raft's code for the put.
put_code : (single_raft.append_entries (put_payload ∷ []) new_machine).0.result_code ≡ pos 0
unfolding commit committed deserialize read_as read Slice.deserialize of_le_bytes has_value of_u8
    register_commit_thread apply_operation apply_as reply write le_bytes
put_code = refl

pub put_run : handle_put single_raft (97 ∷ []) (98 ∷ 99 ∷ []) server ≡ (ok accepted, put_server)
unfolding commit committed deserialize read_as read Slice.deserialize of_le_bytes has_value of_u8
    register_commit_thread apply_operation apply_as reply write le_bytes handle_put append_log
    extract_result serialize to_u8 buffer_size serialized_size add64 Slice.serialize to_word of_word
put_run = refl

delete_run : handle_delete single_raft (97 ∷ []) put_server ≡ (ok accepted, delete_server)
unfolding commit committed deserialize read_as read Slice.deserialize of_le_bytes has_value of_u8
    register_commit_thread apply_operation apply_as reply write le_bytes handle_delete append_log
    extract_result serialize to_u8 buffer_size serialized_size add64 Slice.serialize to_word of_word
delete_run = refl

pub accepted-is_success : is_success accepted ≡ true
unfolding is_success
accepted-is_success = refl

abbrev new_database : map_db.Db
new_database = (register_commit_thread map_db new_machine).spl_handle

mutation_applies_example :
    (handle_mutation single_raft (update (97 ∷ []) (98 ∷ 99 ∷ [])) server ≡ (
      ok (record {
        spl_rc = (execute map_db (put (97 ∷ []) (98 ∷ 99 ∷ [])) new_database).0;
        raft_rc = pos 0;
        msg = (single_raft.append_entries (put_payload ∷ []) new_machine).0.result_str;
      }),
      put_server,
    ))
    × (database single_raft put_server
        ≡ (execute map_db (put (97 ∷ []) (98 ∷ 99 ∷ [])) new_database).1)
mutation_applies_example =
    mutation_applies list_buffer_laws map_db_laws single_raft_laws (update (97 ∷ []) (98 ∷ 99 ∷ []))
      server put_payload refl put_request-Fits serialize_put tt put_code

success_applies_example :
    data_of map_db_laws single_raft put_server (97 ∷ [])
    ≡ apply_request
        (put (97 ∷ []) (98 ∷ 99 ∷ []))
        (data_of map_db_laws single_raft server)
        (97 ∷ [])
success_applies_example =
    success_applies list_buffer_laws map_db_laws single_raft_laws (put (97 ∷ []) (98 ∷ 99 ∷ []))
      server put_server accepted refl tt put_request-Fits put_run accepted-is_success (97 ∷ [])
