-- ===== src/InmemStateMgr/Saved.antt =====
-- What the state manager loads after saves.
use distributed_replicated_c.Prelude.{◌≡◌, refl, some}
use distributed_replicated_c.Result.{ok, ◌>>=◌}
use distributed_replicated_c.Nuraft.Buffer.{BufferApi}
use distributed_replicated_c.Nuraft.LogEntry.{EntryApi}
use distributed_replicated_c.InmemStateMgr.{
  ConfigApi, ConfigLaws, InmemStateMgr, load_config, save_config, save_state, read_state,
  load_log_store, server_id, get_srv_config,
}

-- Saving a configuration and then a server state does not throw: both are what is loaded afterwards,
-- and the log store, the id and the server's own configuration stay.
pub load-save :
    {b : BufferApi} {a : EntryApi b} {api : ConfigApi b} (laws : ConfigLaws api)
    (m : InmemStateMgr a api) (config : api.ClusterConfig) (state : api.SrvState)
    → (m' : InmemStateMgr a api) × ((save_config config m >>= save_state state) ≡ ok m')
      × (load_config m' ≡ config)
      × (read_state m' ≡ some state)
      × (load_log_store m' ≡ load_log_store m)
      × (server_id m' ≡ server_id m)
      × (get_srv_config m' ≡ get_srv_config m)
unfolding save_config save_state
load-save laws m config state = (
  record m { saved_config = config; saved_state = some state },
  rw (laws.deserialize-serialize_config config, save_state, laws.deserialize-serialize_state state)
      refl,
  refl,
  refl,
  refl,
  refl,
  refl,
)
