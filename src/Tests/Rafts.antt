-- ===== src/Tests/Rafts.antt =====
-- A Raft group of one server, which commits what it is given at once: it satisfies the documented
-- laws.
use distributed_replicated_c.Prelude.{
  ℕ, ◌+◌, ℤ, pos, negsuc, ◌≡◌, refl, true, false, none, some, List, [], ◌∷◌, String,
}
use distributed_replicated_c.Result.{Result, ok, throws}
use distributed_replicated_c.Nuraft.Raft.{RaftResult, RaftApi, RaftLaws}
use distributed_replicated_c.StateMachine.{StateMachine, commit}
use distributed_replicated_c.Tests.Buffers.{list_buffers}
use distributed_replicated_c.Tests.Databases.{map_db}

abbrev pub Machine : Type 0
Machine = StateMachine map_db (Unit {0})

abbrev rejected : RaftResult (List ℕ)
rejected = record {
  accepted = false;
  has_result = false;
  result_code = negsuc 0;
  result = none;
  result_str = "";
}

abbrev answered : Result (List ℕ) × Machine → RaftResult (List ℕ) × Machine
answered (ok reply, sm) = (
  record {
    accepted = true;
    has_result = true;
    result_code = pos 0;
    result = some reply;
    result_str = "OK";
  },
  sm,
)
answered (throws e, sm) = (rejected, sm)

abbrev append : List (List ℕ) → Machine → RaftResult (List ℕ) × Machine
append [] sm = (rejected, sm)
append (payload ∷ rest) sm =
    answered (commit list_buffers map_db (sm.last_committed_idx + 1) payload sm)

abbrev pub single_raft : RaftApi list_buffers map_db (Unit {0})
single_raft = record {
  Server = Machine;
  SrvConfig = ℤ × String;
  srv_config = λ id dc endpoint aux learner. (id, aux);
  get_id = λ c. c.0;
  get_aux = λ c. c.1;
  append_entries = append;
  add_srv = λ c sm. (rejected, sm);
  get_leader = λ sm. pos 1;
  get_srv_config = λ id sm. none;
  get_srv_config_all = λ sm. (pos 1, "localhost:25001") ∷ [];
  shutdown = λ t sm. sm;
  state_machine = λ sm. sm;
  with_database = λ db sm. record sm { spl_handle = db };
  LeadsAlone = λ sm. Unit {0};
}

answered_ok :
    (c : Result (List ℕ) × Machine)
    → (answered c).0.result_code ≡ pos 0
    → (reply : List ℕ) × (c ≡ (ok reply, (answered c).1))
      × ((answered c).0.accepted ≡ true)
      × ((answered c).0.has_result ≡ true)
      × ((answered c).0.result ≡ some reply)
answered_ok (ok reply, sm) h = (reply, refl, refl, refl, refl)
answered_ok (throws e, sm) h = cc

pub single_raft_laws : RaftLaws single_raft
single_raft_laws = record {
  append_entries_ok = λ payload sm alone h.
      (let (reply, run, acc, has, res) =
          answered_ok (commit list_buffers map_db (sm.last_committed_idx + 1) payload sm) h in
        (sm.last_committed_idx + 1, reply, run, acc, has, res));
  state_machine-with_database = λ db sm. refl;
}
