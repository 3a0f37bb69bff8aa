-- ===== src/Client/Connections.antt =====
-- What the constructor of src/client/client.cpp leaves: its connections.
use mathlib.Core.List.{Memᴰ}
use distributed_replicated_c.Prelude.{
  ℕ, ◌≡◌, ◌≢◌, refl, ap, subst, ℤ, eq_ℤ, Bool, true, false, if◌then◌else◌, List, [], ◌∷◌, All,
  String,
}
use distributed_replicated_c.Result.{ok-injective, Exception, Result, ok, throws, ready}
use distributed_replicated_c.Endpoint.{parse_endpoint}
use distributed_replicated_c.Client.{RpcApi}
use distributed_replicated_c.Client.Connect.{
  ConnectApi, Connected, lt_ℤ, emplace, ask_seed, connect_to, connect_all, new_client,
}
use distributed_replicated_c.Client.Constructed.{new_client-IsMade}

module _ {rpc : RpcApi} (api : ConnectApi rpc) where
  open rpc use {Connection, World}

  throws_not_ok :
      {e : Exception} {x : List (ℤ × Connection)}
      → ◌≢◌ {A = Result (List (ℤ × Connection))} (throws e) (ok x)
  throws_not_ok h = cc

  -- An entry of `clients` for one of the servers that the seed listed: the connection was made to the
  -- host and the port of its endpoint.
  pub record IsConnected (srvs : List (ℤ × String)) (id : ℤ) (c : Connection) : Type 0 where
    pub endpoint : String
    pub in_list : Memᴰ (id, endpoint) srvs
    pub host : String
    pub port : ℕ
    pub parsed : parse_endpoint endpoint ≡ ok (host, port)
    pub before : World
    pub after : World
    pub connects : api.connect host port before ≡ (ok c, after)

  module _ (P : ℤ × Connection → Type 0) where
    emplace-All :
        (id : ℤ) (c : Connection) (clients : List (ℤ × Connection))
        → P (id, c)
        → All P clients
        → All P (emplace id c clients)
    unfolding emplace
    emplace-All id c [] p ps = (p, tt)
    emplace-All id c ((j, d) ∷ rest) p (q, ps) =
        by_order (emplace-All id c rest p ps) (lt_ℤ id j) (eq_ℤ j id)
      where
        by_order :
            All P (emplace id c rest)
            → (less same : Bool)
            → All P (
                if less
                then (id, c) ∷ (j, d) ∷ rest
                else if same
                then (j, d) ∷ rest
                else (j, d) ∷ emplace id c rest)
        by_order r true same = (p, (q, ps))
        by_order r false true = (q, ps)
        by_order r false false = (q, r)

    connect_to-All :
        (id : ℤ) (address : String × ℕ) (clients : List (ℤ × Connection)) (w : World)
        → ((c : Connection) (w' : World)
            → api.connect address.0 address.1 w ≡ (ok c, w')
            → P (id, c))
        → All P clients
        → All P (connect_to api id address clients w).0
    unfolding connect_to
    connect_to-All id (host, port) clients w good ps = by_result (api.connect host port w) refl
      where
        by_result :
            (r : Result Connection × World)
            → api.connect host port w ≡ r
            → All P
                (let t : List (ℤ × Connection) × World = elim r.0 [
                  | ok c ↦ (emplace id c clients, r.1)
                  | throws e ↦ (clients, r.1)
                ] in
                  t).0
        by_result (ok c, w') e = emplace-All id c clients (good c w' e) ps
        by_result (throws x, w') e = ps

    connect_all-All :
        (srvs : List (ℤ × String)) (clients out : List (ℤ × Connection)) (w w' : World)
        → ((id : ℤ) (endpoint host : String) (port : ℕ) (c : Connection) (v v' : World)
            → Memᴰ (id, endpoint) srvs
            → parse_endpoint endpoint ≡ ok (host, port)
            → api.connect host port v ≡ (ok c, v')
            → P (id, c))
        → All P clients
        → connect_all api srvs clients w ≡ (ok out, w')
        → All P out
    unfolding connect_all
    connect_all-All [] clients out w w' good ps h =
        subst (All P) (ok-injective (ap (λ t. t.0) h)) ps
    connect_all-All ((id, endpoint) ∷ srvs) clients out w w' good ps h =
        by_address (parse_endpoint endpoint) refl
          (λ clients' v qs k.
            connect_all-All srvs clients' out v w'
              (λ i e host port c v v' m. good i e host port c v v' (Memᴰ.tail m)) qs k)
          h
      where
        by_address :
            (r : Result (String × ℕ))
            → parse_endpoint endpoint ≡ r
            → ((clients' : List (ℤ × Connection)) (v : World)
                → All P clients'
                → connect_all api srvs clients' v ≡ (ok out, w')
                → All P out)
            → ◌≡◌ {A = Result (List (ℤ × Connection)) × World}
                (elim r [
                  | throws e ↦ (throws e, w)
                  | ok address ↦
                      let (clients', v) = connect_to api id address clients w in
                      connect_all api srvs clients' v
                ])
                (ok out, w')
            → All P out
        by_address (ok address) e next k =
            next (connect_to api id address clients w).0 (connect_to api id address clients w).1
              (connect_to-All id address clients w
                (λ c v' connects.
                  good id endpoint address.0 address.1 c w v' (Memᴰ.head refl) e connects)
                ps)
              k
        by_address (throws x) e next k = absurd (throws_not_ok (ap (λ t. t.0) k))

  -- A constructed client connected first to the server at the given host and port, and asked this one
  -- for the servers and the leader. Every server that it knows is one of those that this server listed,
  -- and the connection to it was made to the host and the port of the endpoint that was given for it.
  pub new_client-IsConnected :
      (host : String) (port timeout_ms num_retries : ℕ) (w w' : World) (made : Connected rpc)
      → new_client api host port timeout_ms num_retries w ≡ (ok (ready made), w')
      → (seed : Connection) × (v : World) × (v' : World) × (srvs : List (ℤ × String)) × (api.connect
            host port w
          ≡ (ok seed, v))
        × (ask_seed api seed v ≡ (ok (srvs, made.leader_id), v'))
        × All (λ entry. IsConnected srvs entry.0 entry.1) made.client.clients
  new_client-IsConnected host port timeout_ms num_retries w w' made h =
      let m = new_client-IsMade api host port timeout_ms num_retries w w' made h in
      (
        m.seed,
        m.asked_in,
        m.asked_out,
        m.srvs,
        m.reached,
        m.asked,
        connect_all-All (λ entry. IsConnected m.srvs entry.0 entry.1) m.srvs [] made.client.clients
            m.asked_out m.connected_out
            (λ id endpoint host port c v v' listed parsed connects. record {
              endpoint = endpoint;
              in_list = listed;
              host = host;
              port = port;
              parsed = parsed;
              before = v;
              after = v';
              connects = connects;
            })
            tt m.connected,
      )
