-- ===== src/Client/Connect.antt =====
-- The constructor of src/client/client.cpp: the client asks one server for the others and connects to
-- each of them.
use text.Mathlib.Text.{◌==◌ as ◌==ˢ◌}
use distributed_replicated_c.Prelude.{
  ℕ, ◌-◌, ◌^◌, ℤ, pos, negsuc, eq_ℤ, Bool, true, false, ltb, if◌then◌else◌, List, [], ◌∷◌, map,
  String,
}
use distributed_replicated_c.Result.{
  Result, ok, throws, bad_cast, runtime_error, Start, ready, exits,
}
use distributed_replicated_c.Exec.{Exec, pure, raise, ◌>>=◌}
use distributed_replicated_c.Endpoint.{parse_endpoint}
use distributed_replicated_c.Server.{ping, get_leader_id, get_all_servers, Reply, text_reply}
use distributed_replicated_c.ReadPolicy.{RoundRobinReadPolicy, round_robin_read_policy}
use distributed_replicated_c.Client.{RpcApi, Client, ClientState, as_servers, as_id, call_as}

abbrev pub as_text : Reply → Result String
as_text (text_reply text) = ok text
as_text _ = throws bad_cast

-- static_cast<int64_t>
abbrev pub to_int64 : ℕ → ℤ
to_int64 n = if ltb n (2 ^ 63) then pos n else negsuc (2 ^ 64 - 1 - n)

abbrev pub lt_ℤ : ℤ → ℤ → Bool
lt_ℤ (pos m) (pos n) = ltb m n
lt_ℤ (pos m) (negsuc n) = false
lt_ℤ (negsuc m) (pos n) = true
lt_ℤ (negsuc m) (negsuc n) = ltb n m

-- std::map::emplace, which leaves a key that is there alone.
unfoldable pub emplace {ℓ} : {A : Type ℓ} → ℤ → A → List (ℤ × A) → List (ℤ × A)
emplace id c [] = (id, c) ∷ []
emplace id c ((j, d) ∷ rest) =
    let behind = emplace id c rest in
    if lt_ℤ id j
    then (id, c) ∷ (j, d) ∷ rest
    else if eq_ℤ j id
    then (j, d) ∷ rest
    else (j, d) ∷ behind

-- What of rpc::client the constructor uses: `connect` is the constructor rpc::client(host, port).
pub record ConnectApi (rpc : RpcApi) : Type 0 where
  pub connect : String → ℕ → Exec rpc.World rpc.Connection
  pub set_timeout : ℤ → rpc.Connection → rpc.World → rpc.World

-- The members after the construction.
pub record Connected (rpc : RpcApi) : Type 0 where
  pub client : Client rpc
  pub read_policy : RoundRobinReadPolicy
  pub leader_id : ℤ

-- The client is used in the world that its construction left.
abbrev pub start_state : {rpc : RpcApi} → Connected rpc → rpc.World → ClientState rpc
start_state made w = record {
  read_policy = made.read_policy;
  leader_id = made.leader_id;
  world = w;
}

module _ {rpc : RpcApi} (api : ConnectApi rpc) where
  open rpc use {Connection, World}

  -- The body of the first try block.
  unfoldable pub ask_seed : Connection → Exec World (List (ℤ × String) × ℤ)
  ask_seed cl = do
    answer ← call_as rpc as_text cl ping
    u ←
        if answer ==ˢ "pong"
        then pure tt
        else raise (runtime_error "server returned unexpected response")
    srvs ← call_as rpc as_servers cl get_all_servers
    leader_id ← call_as rpc as_id cl get_leader_id
    pure (srvs, leader_id)

  -- The second try block; the catch block goes on with the next server.
  unfoldable pub connect_to :
      ℤ → String × ℕ → List (ℤ × Connection) → World → List (ℤ × Connection) × World
  connect_to srv_id (host, port) clients w =
      let (connected, w') = api.connect host port w in
      elim connected [ ok c ↦ (emplace srv_id c clients, w') | throws e ↦ (clients, w') ]

  unfoldable pub connect_all :
      List (ℤ × String) → List (ℤ × Connection) → Exec World (List (ℤ × Connection))
  connect_all [] clients w = (ok clients, w)
  connect_all ((srv_id, endpoint) ∷ srvs) clients w = elim (parse_endpoint endpoint) [
    | throws e ↦ (throws e, w)
    | ok address ↦
        let (clients', w') = connect_to srv_id address clients w in connect_all srvs clients' w'
  ]

  unfoldable pub set_timeouts : ℤ → List (ℤ × Connection) → World → World
  set_timeouts timeout [] w = w
  set_timeouts timeout ((srv_id, c) ∷ rest) w =
      set_timeouts timeout rest (api.set_timeout timeout c w)

  -- The end of the constructor, from the loop over `srvs` on.
  unfoldable pub connect_servers :
      ℕ → ℕ → List (ℤ × String) × ℤ → Exec World (Start (Connected rpc))
  connect_servers timeout_ms num_retries (srvs, leader_id) = do
    clients ← connect_all srvs []
    λ w. (
      ok (
          ready (record {
            client = record { clients = clients; num_retries = num_retries };
            read_policy = round_robin_read_policy (map (λ entry. entry.0) clients);
            leader_id = leader_id;
          })),
      set_timeouts (to_int64 timeout_ms) clients w,
    )

  -- The catch block of the first try block exits.
  unfoldable pub or_exit :
      ℕ → ℕ → Result (List (ℤ × String) × ℤ) → Exec World (Start (Connected rpc))
  or_exit timeout_ms num_retries (ok answers) = connect_servers timeout_ms num_retries answers
  or_exit timeout_ms num_retries (throws e) = pure exits

  -- The constructor.
  unfoldable pub new_client : String → ℕ → ℕ → ℕ → Exec World (Start (Connected rpc))
  new_client host port timeout_ms num_retries = do
    cl ← api.connect host port
    λ w. let (asked, w') = ask_seed cl w in or_exit timeout_ms num_retries asked w'
