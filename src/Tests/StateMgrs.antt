-- ===== src/Tests/StateMgrs.antt =====
-- The state manager at a concrete input.
use distributed_replicated_c.Prelude.{ℕ, ℤ, List, [], ◌∷◌, length, none, some}
use distributed_replicated_c.InmemStateMgr.{ConfigApi}
use distributed_replicated_c.Tests.Buffers.{list_buffers}

-- A configuration is its list of server ids, a state is its term.
abbrev pub list_configs : ConfigApi list_buffers
list_configs = record {
  SrvConfig = ℤ;
  ClusterConfig = List ℕ;
  SrvState = ℕ;
  srv_config = λ id dc endpoint aux learner. id;
  empty_config = [];
  push_server = λ srv config. length config ∷ config;
  serialize_config = λ config. config;
  deserialize_config = some;
  serialize_state = λ state. state ∷ [];
  deserialize_state = λ buf. elim buf [ [] ↦ none | state ∷ rest ↦ some state ];
}
