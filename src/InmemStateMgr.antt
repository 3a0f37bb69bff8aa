-- ===== src/InmemStateMgr.antt =====
-- src/server/in_memory_state_mgr.hxx: what Raft saves of a server, kept in memory.
pub mod Saved
use distributed_replicated_c.Prelude.{ℕ, ℤ, pos, ◌≡◌, Bool, false, Option, none, some, String}
use distributed_replicated_c.Result.{Result, ok, overflow_error, or_throw, ◌>>=◌}
use distributed_replicated_c.Nuraft.Buffer.{BufferApi}
use distributed_replicated_c.Nuraft.LogEntry.{EntryApi}
use distributed_replicated_c.InmemLogStore.{InmemLogStore, new_log_store}

-- nuraft::srv_config, cluster_config and srv_state. `none` is the exception thrown on a malformed
-- buffer.
pub record ConfigApi (b : BufferApi) : Type 1 where
  pub SrvConfig : Type 0
  pub ClusterConfig : Type 0
  pub SrvState : Type 0
  -- srv_config(id, dc_id, endpoint, aux, learner)
  pub srv_config : ℤ → ℤ → String → String → Bool → SrvConfig
  pub empty_config : ClusterConfig
  -- get_servers().push_back(srv)
  pub push_server : SrvConfig → ClusterConfig → ClusterConfig
  pub serialize_config : ClusterConfig → b.Buffer
  pub deserialize_config : b.Buffer → Option ClusterConfig
  pub serialize_state : SrvState → b.Buffer
  pub deserialize_state : b.Buffer → Option SrvState

pub record ConfigLaws {b : BufferApi} (api : ConfigApi b) : Type 0 where
  pub deserialize-serialize_config :
      (c : api.ClusterConfig) → api.deserialize_config (api.serialize_config c) ≡ some c
  pub deserialize-serialize_state :
      (st : api.SrvState) → api.deserialize_state (api.serialize_state st) ≡ some st

-- `saved_state` is a null pointer until a state is saved.
pub record InmemStateMgr {b : BufferApi} (a : EntryApi b) (api : ConfigApi b) : Type 0 where
  pub my_id : ℤ
  pub my_endpoint : String
  pub cur_log_store : InmemLogStore a.LogEntry
  pub my_srv_config : api.SrvConfig
  pub saved_config : api.ClusterConfig
  pub saved_state : Option api.SrvState

module _ {b : BufferApi} (a : EntryApi b) (api : ConfigApi b) where
  -- The constructor: the configuration holds the server itself and no other.
  unfoldable pub new_state_mgr : ℤ → String → String → InmemStateMgr a api
  new_state_mgr srv_id raft_endpoint client_endpoint =
      let my_srv_config = api.srv_config srv_id (pos 0) raft_endpoint client_endpoint false in
      record {
        my_id = srv_id;
        my_endpoint = raft_endpoint;
        cur_log_store = new_log_store a;
        my_srv_config = my_srv_config;
        saved_config = api.push_server my_srv_config api.empty_config;
        saved_state = none;
      }

module _ {b : BufferApi} {a : EntryApi b} {api : ConfigApi b} where
  abbrev pub load_config : InmemStateMgr a api → api.ClusterConfig
  load_config m = m.saved_config

  unfoldable pub save_config :
      api.ClusterConfig → InmemStateMgr a api → Result (InmemStateMgr a api)
  save_config config m =
      or_throw overflow_error (api.deserialize_config (api.serialize_config config)) >>= λ saved.
      ok (record m { saved_config = saved })

  unfoldable pub save_state : api.SrvState → InmemStateMgr a api → Result (InmemStateMgr a api)
  save_state state m =
      or_throw overflow_error (api.deserialize_state (api.serialize_state state)) >>= λ saved.
      ok (record m { saved_state = some saved })

  abbrev pub read_state : InmemStateMgr a api → Option api.SrvState
  read_state m = m.saved_state

  abbrev pub load_log_store : InmemStateMgr a api → InmemLogStore a.LogEntry
  load_log_store m = m.cur_log_store

  abbrev pub server_id : InmemStateMgr a api → ℤ
  server_id m = m.my_id

  abbrev pub get_srv_config : InmemStateMgr a api → api.SrvConfig
  get_srv_config m = m.my_srv_config
