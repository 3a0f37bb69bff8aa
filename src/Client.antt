-- ===== src/Client.antt =====
-- include/client/client.h and src/client/client.cpp: a client of the replicated store, after its
-- construction.
pub mod Connect
pub mod Replies
pub mod Rotation
pub mod Constructed
pub mod Connections
pub mod Applied
pub mod Reads
pub mod Decoded
pub mod Fine
pub mod Casts
pub mod Calls
pub mod Answers
pub mod Settled
use distributed_replicated_c.Prelude.{
  ℕ, zero, suc, ◌*◌, ◌%◌, ℤ, pos, negsuc, eq_ℤ, Bool, true, false, not, ◌||◌, if◌then◌else◌, Option,
  none, some, List, [], ◌∷◌, String, u64_mod,
}
use distributed_replicated_c.Result.{
  Result, ok, throws, runtime_error, bad_cast, out_of_range, undefined, or_throw,
}
use distributed_replicated_c.Exec.{Exec, pure, raise, lift, ◌>>=◌, ◌>>◌}
use distributed_replicated_c.Types.{
  ReadResult, MutationResult, get_nuraft_return_code, was_accepted,
}
use distributed_replicated_c.ReadPolicy.{RoundRobinReadPolicy, next_server}
use distributed_replicated_c.Server.{
  ClientRpc, ping, get_srv_id, get_leader_id, get_all_servers, splinterdb_dumpcache,
  splinterdb_clearcache, get_srv_endpoint, splinterdb_get, splinterdb_put, splinterdb_update,
  splinterdb_delete, Reply, text_reply, error_reply, id_reply, flag_reply, servers_reply,
  read_reply, mutation_reply,
}

-- rpc::client of rpclib, which is not part of the repository. `World` is what the servers and the
-- clock are in; a call may throw and may leave them changed.
pub record RpcApi : Type 1 where
  pub Connection : Type 0
  pub World : Type 0
  pub call : Connection → ClientRpc → Exec World Reply
  pub sleep_ms : ℕ → World → World

-- The members that do not change after the construction: clients_, by increasing id, and num_retries_.
pub record Client (rpc : RpcApi) : Type 0 where
  pub clients : List (ℤ × rpc.Connection)
  pub num_retries : ℕ

-- The members that change, and the world around the client.
pub record ClientState (rpc : RpcApi) : Type 0 where
  pub read_policy : RoundRobinReadPolicy
  pub leader_id : ℤ
  pub world : rpc.World

-- as<T>(): the value of a reply of the type T.
abbrev pub as_mutation : Reply → Result MutationResult
as_mutation (mutation_reply result) = ok result
as_mutation _ = throws bad_cast

abbrev pub as_read : Reply → Result ReadResult
as_read (read_reply result) = ok result
as_read _ = throws bad_cast

abbrev pub as_id : Reply → Result ℤ
as_id (id_reply id) = ok id
as_id _ = throws bad_cast

abbrev pub as_flag : Reply → Result Bool
as_flag (flag_reply flag) = ok flag
as_flag _ = throws bad_cast

abbrev pub as_servers : Reply → Result (List (ℤ × String))
as_servers (servers_reply servers) = ok servers
as_servers _ = throws bad_cast

-- The macros at the head of client.cpp.
abbrev pub no_live_leader : ℤ
no_live_leader = negsuc 0

abbrev pub not_leader : ℤ
not_leader = negsuc 2

abbrev pub request_cancelled : ℤ
request_cancelled = negsuc 0

abbrev pub weird_case : ℤ
weird_case = pos 999

-- clients_.find(id)
unfoldable pub find_client {ℓ} : {A : Type ℓ} → ℤ → List (ℤ × A) → Option A
find_client id [] = none
find_client id ((srv_id, c) ∷ rest) = if eq_ℤ srv_id id then some c else find_client id rest

module _ (rpc : RpcApi) where
  open rpc use {Connection, World}

  unfoldable pub call_as :
      {A : Type 0} → (Reply → Result A) → Connection → ClientRpc → World → Result A × World
  call_as decode c op w = elim (rpc.call c op w).0 [
    | ok reply ↦ (decode reply, (rpc.call c op w).1)
    | throws e ↦ (throws e, (rpc.call c op w).1)
  ]

  -- sleep_for(delay_ms) and delay_ms *= 2. The state is the delay and the world.
  unfoldable pub pause : ℕ × World → ℕ × World
  pause (delay_ms, w) = ((delay_ms * 2) % u64_mod, rpc.sleep_ms delay_ms w)

  -- A round of the loop over `i` in get_leader_id, with the answer and what the rounds after it give.
  unfoldable pub leader_round :
      Result ℤ → ℕ × World → Result ℤ × (ℕ × World) → Result ℤ × (ℕ × World)
  leader_round (throws e) s rest = (throws e, s)
  leader_round (ok leader_id) s rest =
      if not (eq_ℤ leader_id no_live_leader) then (ok leader_id, s) else rest

  -- The loop over `i`, with the number of rounds left.
  unfoldable pub ask_leader : Connection → ℕ → Exec (ℕ × World) ℤ
  unfolding leader_round call_as pause
  ask_leader c zero s = (throws (runtime_error "no live leader"), s)
  ask_leader c (suc rounds) (delay_ms, w) =
      let (answer, w') = call_as as_id c get_leader_id w in
      leader_round answer (delay_ms, w') (ask_leader c rounds (pause (delay_ms, w')))

  -- The catch block goes on with the next server.
  unfoldable pub or_next : Result ℤ × (ℕ × World) → Result ℤ × (ℕ × World) → Result ℤ × (ℕ × World)
  or_next (ok leader_id, s) rest = (ok leader_id, s)
  or_next (throws e, s) rest = rest

  unfoldable pub first_leader : List (ℤ × Connection) → ℕ → Exec (ℕ × World) ℤ
  unfolding ask_leader or_next pause
  first_leader [] num_retries s = (throws (runtime_error "failed to connect to any server"), s)
  first_leader ((srv_id, c) ∷ rest) num_retries s =
      let asked = ask_leader c num_retries s in
      or_next asked (first_leader rest num_retries (pause asked.1))

  unfoldable pub find_leader_id : Client rpc → Exec World ℤ
  unfolding first_leader
  find_leader_id cl w =
      let (found, (delay_ms, w')) = first_leader cl.clients cl.num_retries (100, w) in (found, w')

  module _ (cl : Client rpc) where
    -- A computation that changes the world only.
    abbrev pub with_world : {A : Type 0} → Exec World A → Exec (ClientState rpc) A
    with_world m s = ((m s.world).0, record s { world = (m s.world).1 })

    unfoldable pub get_leader_handle : Exec (ClientState rpc) Connection
    get_leader_handle s = (or_throw out_of_range (find_client s.leader_id cl.clients), s)

    unfoldable pub set_leader : ℤ → Exec (ClientState rpc) (Unit {0})
    set_leader id s = (ok tt, record s { leader_id = id })

    unfoldable pub sleep : ℕ → Exec (ClientState rpc) (Unit {0})
    sleep ms s = (ok tt, record s { world = rpc.sleep_ms ms s.world })

    unfoldable pub try_handle_leader_change : ℤ → Exec (ClientState rpc) Bool
    unfolding set_leader find_leader_id
    try_handle_leader_change raft_rc =
        if eq_ℤ raft_rc not_leader || eq_ℤ raft_rc request_cancelled
        then (do id ← with_world (find_leader_id cl); u ← set_leader id; pure true)
        else pure false

    -- The last branch of the loop of put, update and del.
    unfoldable pub before_retry : MutationResult → Exec (ClientState rpc) (Unit {0})
    unfolding try_handle_leader_change sleep
    before_retry result = do
      changed ← try_handle_leader_change (get_nuraft_return_code result)
      if changed then sleep 100 else pure tt

    -- A round of the loop, with the result of the call and the rounds after it.
    unfoldable pub mutation_round :
        MutationResult
        → Exec (ClientState rpc) MutationResult
        → Exec (ClientState rpc) MutationResult
    unfolding before_retry
    mutation_round result rest =
        if was_accepted result
        then pure result
        else if eq_ℤ (get_nuraft_return_code result) weird_case
        then pure (record result { raft_rc = pos 0 })
        else (do u ← before_retry result; rest)

    -- The loop over `i`, with the number of rounds left and the result so far.
    unfoldable pub mutation_loop :
        ClientRpc → ℕ → MutationResult → Exec (ClientState rpc) MutationResult
    unfolding get_leader_handle mutation_round
    mutation_loop op zero result = pure result
    mutation_loop op (suc rounds) result = do
      leader ← get_leader_handle
      answer ← with_world (call_as as_mutation leader op)
      mutation_round answer (mutation_loop op rounds answer)

    abbrev no_result : MutationResult
    no_result = record { spl_rc = pos 0; raft_rc = pos 0; msg = "" }

    unfoldable pub put : List ℕ → List ℕ → Exec (ClientState rpc) MutationResult
    unfolding mutation_loop
    put key value = mutation_loop (splinterdb_put key value) cl.num_retries no_result

    unfoldable pub update : List ℕ → List ℕ → Exec (ClientState rpc) MutationResult
    unfolding mutation_loop
    update key value = mutation_loop (splinterdb_update key value) cl.num_retries no_result

    unfoldable pub del : List ℕ → Exec (ClientState rpc) MutationResult
    unfolding mutation_loop
    del key = mutation_loop (splinterdb_delete key) cl.num_retries no_result

    unfoldable pub read_server : Exec (ClientState rpc) ℤ
    read_server s = elim (next_server s.read_policy) [
      | throws e ↦ (throws e, s)
      | ok step ↦ (ok step.0, record s { read_policy = step.1 })
    ]

    -- The end of the map is dereferenced when the server is unknown.
    unfoldable pub get : List ℕ → Exec (ClientState rpc) ReadResult
    unfolding read_server
    get key = do
      id ← read_server
      c ← lift (or_throw undefined (find_client id cl.clients))
      with_world (call_as as_read c (splinterdb_get key))

  -- The first server that answers.
  unfoldable pub first_servers : List (ℤ × Connection) → Exec World (List (ℤ × String))
  unfolding call_as
  first_servers [] w = (throws (runtime_error "failed to connect to any server"), w)
  first_servers ((srv_id, c) ∷ rest) w =
      let (answer, w') = call_as as_servers c get_all_servers w in
      let others = first_servers rest w' in
      elim answer [ ok servers ↦ (ok servers, w') | throws e ↦ others ]

  abbrev pub all_servers : Client rpc → Exec World (List (ℤ × String))
  all_servers cl = first_servers cl.clients

  -- A call that throws ends the loop; `false` only prints a warning.
  unfoldable pub trigger_all : ClientRpc → List (ℤ × Connection) → Exec World (Unit {0})
  unfolding call_as
  trigger_all op [] = pure tt
  trigger_all op ((id, c) ∷ rest) = do result ← call_as as_flag c op; trigger_all op rest

  unfoldable pub trigger_cache_dumps : Client rpc → Exec World (Unit {0})
  trigger_cache_dumps cl = trigger_all splinterdb_dumpcache cl.clients

  unfoldable pub trigger_cache_clear : Client rpc → Exec World (Unit {0})
  trigger_cache_clear cl = trigger_all splinterdb_clearcache cl.clients
