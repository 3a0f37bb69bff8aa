-- ===== src/Tests/Machines.antt =====
-- The state machine at concrete inputs.
use distributed_replicated_c.Prelude.{ℕ, ◌≡◌, refl, List, [], ◌∷◌, none, true, false, All, arith}
use distributed_replicated_c.Result.{throws, overflow_error}
use distributed_replicated_c.Operation.Request.{Request, put, delete, Fits}
use distributed_replicated_c.Operation.{deserialize}
use distributed_replicated_c.Slice
use distributed_replicated_c.StateMachine.{commit, committed, register_commit_thread}
use distributed_replicated_c.StateMachine.Commit.{commit_throws}
use distributed_replicated_c.StateMachine.Refinement.{
  Entry, IsEntry, AllSucceed, commit_log, replay, commit_log-refines, replicas_agree,
}
use distributed_replicated_c.Tests.Buffers.{list_buffers, list_buffer_laws, read_as, read}
use distributed_replicated_c.Tests.Databases.{map_db, map_db_laws}
use distributed_replicated_c.Tests.Rafts.{Machine}
use distributed_replicated_c.Tests.Operations.{
  put_payload, serialize_put, delete_payload, serialize_delete,
}

abbrev pub new_machine : Machine
new_machine = record {
  spl_handle = λ k. none;
  last_committed_idx = 0;
  commit_thread_initialized = false;
  snapshots = [];
  disable_snapshots = true;
}

abbrev pub put_request : Request
put_request = put (97 ∷ []) (98 ∷ 99 ∷ [])

abbrev pub delete_request : Request
delete_request = delete (97 ∷ [])

pub put_request-Fits : Fits put_request
put_request-Fits = omega arith

pub delete_request-Fits : Fits delete_request
delete_request-Fits = omega arith

abbrev registered : Machine
registered = register_commit_thread map_db new_machine

abbrev short_payload : List ℕ
short_payload = 2 ∷ 1 ∷ []

commit_short : (commit list_buffers map_db 1 short_payload new_machine).0 ≡ throws overflow_error
unfolding commit committed deserialize read_as read Slice.deserialize register_commit_thread
commit_short = refl

commit_throws_example :
    ((commit list_buffers map_db 1 short_payload new_machine).1.last_committed_idx ≡ 0)
    × ((k : List ℕ)
        → (commit list_buffers map_db 1 short_payload new_machine).1.spl_handle k ≡ none)
unfolding map_db_laws
commit_throws_example =
    commit_throws list_buffer_laws map_db_laws 1 short_payload new_machine overflow_error
      commit_short

abbrev pub two_entries : List (Entry list_buffers)
two_entries =
    record { index = 4; request = put_request; payload = put_payload }
    ∷ record { index = 5; request = delete_request; payload = delete_payload }
    ∷ []

pub two_entries-IsEntry : All IsEntry two_entries
two_entries-IsEntry = (
  record { plain = tt; fits = put_request-Fits; made = serialize_put },
  (record { plain = tt; fits = delete_request-Fits; made = serialize_delete }, tt),
)

two_entries-AllSucceed : AllSucceed {s = map_db} two_entries new_machine
two_entries-AllSucceed = (refl, (refl, tt))

commit_log-refines_example :
    ((j : List ℕ)
      → (commit_log two_entries new_machine).spl_handle j ≡ replay two_entries (λ k. none) j)
    × ((commit_log two_entries new_machine).last_committed_idx ≡ 5)
unfolding map_db_laws
commit_log-refines_example =
    commit_log-refines list_buffer_laws map_db_laws two_entries new_machine two_entries-IsEntry
      two_entries-AllSucceed

abbrev pub other_machine : Machine
other_machine = record new_machine { commit_thread_initialized = true; disable_snapshots = false }

pub other-AllSucceed : AllSucceed {s = map_db} two_entries other_machine
other-AllSucceed = (refl, (refl, tt))

replicas_agree_example :
    ((j : List ℕ)
      → (commit_log two_entries new_machine).spl_handle j
        ≡ (commit_log two_entries other_machine).spl_handle j)
    × ((commit_log two_entries new_machine).last_committed_idx
        ≡ (commit_log two_entries other_machine).last_committed_idx)
unfolding map_db_laws
replicas_agree_example =
    replicas_agree list_buffer_laws map_db_laws map_db_laws two_entries new_machine other_machine
      two_entries-IsEntry two_entries-AllSucceed other-AllSucceed (λ j. refl) refl
