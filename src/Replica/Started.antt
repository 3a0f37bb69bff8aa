-- ===== src/Replica/Started.antt =====
-- What holds of a replica whose construction succeeded.
use distributed_replicated_c.Prelude.{
  ◌≡◌, ◌≢◌, refl, sym, ap, ◌∙◌, pos, eq_ℤ, eq_ℤ_iff, true, false, Bool-cases, inl, inr, Option,
  none, some,
}
use distributed_replicated_c.Result.{
  Result, ok, throws, invalid_argument, Exception, ◌>>=◌, >>=-eq-ok, Start, ready, exits,
}
use distributed_replicated_c.Nuraft.Buffer.{BufferApi}
use distributed_replicated_c.Nuraft.Raft.{RaftApi}
use distributed_replicated_c.Splinter.{SplinterApi}
use distributed_replicated_c.StateMachine.{StateMachine, new_state_machine}
use distributed_replicated_c.InmemStateMgr.{InmemStateMgr, new_state_mgr, load_config, server_id}
use distributed_replicated_c.Endpoint.{endpoint_of}
use distributed_replicated_c.Replica.{Replica}
use distributed_replicated_c.Replica.Launch.{
  ReplicaConfig, RaftParams, LaunchApi, wait_ready, initialize, launched, new_replica,
  is_not_positive, raft_params_of, logger_of, state_mgr_of,
}
use distributed_replicated_c.Replica.Waits.{wait_ready-ready}

module _ {b : BufferApi} {s : SplinterApi} {Snapshot : Type 0} {raft : RaftApi b s Snapshot}
    (launch : LaunchApi raft) where
  initialize-ready :
      (config : ReplicaConfig s) (params : RaftParams) (logger : launch.Logger)
      (smgr : InmemStateMgr launch.entries launch.configs) (sm : StateMachine s Snapshot)
      {srv' : raft.Server}
      → initialize launch config params logger smgr sm ≡ ready srv'
      → (launch.is_initialized srv' ≡ true)
        × ((srv : raft.Server) × (launch.init sm smgr logger config.raft_port
                config.asio_thread_pool_size
                (raft_params_of config params)
              ≡ some srv))
  unfolding initialize
  initialize-ready config params logger smgr sm {srv'} h =
      by_server
        (launch.init sm smgr logger config.raft_port config.asio_thread_pool_size
          (raft_params_of config params))
        refl h
    where
      by_server :
          (o : Option raft.Server)
          → launch.init sm smgr logger config.raft_port config.asio_thread_pool_size
              (raft_params_of config params)
            ≡ o
          → ◌≡◌ {A = Start raft.Server}
              (elim o [
                | none ↦ exits
                | some srv ↦
                    wait_ready launch config.initialization_delay_ms config.initialization_retries
                      srv
              ])
              (ready srv')
          → (launch.is_initialized srv' ≡ true)
            × ((srv : raft.Server) × (launch.init sm smgr logger config.raft_port
                    config.asio_thread_pool_size
                    (raft_params_of config params)
                  ≡ some srv))
      by_server none e k = cc
      by_server (some srv) e k = (wait_ready-ready launch _ _ srv k, (srv, e))

  launched-ready :
      (config : ReplicaConfig s) (st : Start raft.Server) {r : Replica raft}
      → launched launch config st ≡ ready r
      → (st ≡ ready r.raft_instance)
        × (r.server_id ≡ config.server_id)
        × (r.return_method ≡ config.return_method)
  unfolding launched
  launched-ready config exits h = cc
  launched-ready config (ready srv) {r} h =
      let e : record {
        server_id = config.server_id;
        return_method = config.return_method;
        raft_instance = srv;
      }
          ≡ r =
        cc in
      (
        ap (λ (t : Replica raft). ready t.raft_instance) e,
        ap (λ (t : Replica raft). t.server_id) (sym e),
        ap (λ (t : Replica raft). t.return_method) (sym e),
      )

  abbrev start_of : ReplicaConfig s → RaftParams → StateMachine s Snapshot → Start raft.Server
  start_of config params sm =
      initialize launch config params (logger_of launch config) (state_mgr_of launch config) sm

  without_id :
      (config : ReplicaConfig s) (params : RaftParams)
      → eq_ℤ config.server_id (pos 0) ≡ true
      → new_replica launch config params ≡ throws (invalid_argument "server_id must be set")
  unfolding new_replica
  without_id config params h = rw h refl

  with_id :
      (config : ReplicaConfig s) (params : RaftParams)
      → eq_ℤ config.server_id (pos 0) ≡ false
      → new_replica launch config params ≡ (
          new_state_machine s config.splinterdb_cfg (is_not_positive config.snapshot_frequency)
          >>= λ sm. ok (launched launch config (start_of config params sm)))
  unfolding new_replica
  with_id config params h = rw h refl

  -- What Raft was launched with.
  pub record IsLaunched (config : ReplicaConfig s) (params : RaftParams) : Type 0 where
    pub sm : StateMachine s Snapshot
    pub created :
        new_state_machine s config.splinterdb_cfg (is_not_positive config.snapshot_frequency)
        ≡ ok sm
    pub smgr : InmemStateMgr launch.entries launch.configs
    pub id : server_id smgr ≡ config.server_id
    pub alone :
        load_config smgr
        ≡ launch.configs.push_server
            (launch.configs.srv_config config.server_id
              (pos 0)
              (endpoint_of config.addr config.raft_port)
              (endpoint_of config.addr config.client_port)
              false)
            launch.configs.empty_config
    pub srv : raft.Server
    pub launches :
        launch.init sm smgr
          (logger_of launch config)
          config.raft_port
          config.asio_thread_pool_size
          (raft_params_of config params)
        ≡ some srv

  IsLaunched-init :
      (config : ReplicaConfig s) (params : RaftParams) (sm : StateMachine s Snapshot)
      (srv : raft.Server)
      → new_state_machine s config.splinterdb_cfg (is_not_positive config.snapshot_frequency)
        ≡ ok sm
      → launch.init sm
          (state_mgr_of launch config)
          (logger_of launch config)
          config.raft_port
          config.asio_thread_pool_size
          (raft_params_of config params)
        ≡ some srv
      → IsLaunched config params
  unfolding state_mgr_of new_state_mgr
  IsLaunched-init config params sm srv made init = record {
    sm = sm;
    created = made;
    smgr = state_mgr_of launch config;
    id = refl;
    alone = refl;
    srv = srv;
    launches = init;
  }

  -- A replica whose construction neither throws nor ends the process has a server id other than 0,
  -- which is the one configured, the configured return method, and a Raft server that is initialized.
  -- Raft was launched with a new state machine on the configured database, and with a state manager
  -- that knows the server's id and, as the only server of the cluster, its two endpoints, on the
  -- configured port.
  pub new_replica-ready :
      (config : ReplicaConfig s) (params : RaftParams) (r : Replica raft)
      → new_replica launch config params ≡ ok (ready r)
      → (r.server_id ≢ pos 0)
        × (r.server_id ≡ config.server_id)
        × (r.return_method ≡ config.return_method)
        × (launch.is_initialized r.raft_instance ≡ true)
        × IsLaunched config params
  new_replica-ready config params r h = elim (Bool-cases (eq_ℤ config.server_id (pos 0))) [
    | inl zero_id ↦ absurd (refused (sym (without_id config params zero_id) ∙ h))
    | inr set_id ↦
        let (sm, made, e) =
          >>=-eq-ok _ (λ sm. ok (launched launch config (start_of config params sm)))
            (sym (with_id config params set_id) ∙ h) in
        let e' : launched launch config (start_of config params sm) ≡ ready r = cc in
        let (st, id, mode) = launched-ready config _ e' in
        let (up, launched_srv) = initialize-ready config params _ _ sm st in
        (
          (λ p. nonzero set_id (sym id ∙ p)),
          id,
          mode,
          up,
          IsLaunched-init config params sm launched_srv.0 made launched_srv.1,
        )
  ]
    where
      refused :
          {e : Exception} → ◌≡◌ {A = Result (Start (Replica raft))} (throws e) (ok (ready r)) → ⊥
      refused k = cc

      nonzero : eq_ℤ config.server_id (pos 0) ≡ false → config.server_id ≡ pos 0 → ⊥
      nonzero f p =
          let t = (eq_ℤ_iff config.server_id (pos 0)).1 p in let c : false ≡ true = sym f ∙ t in cc
