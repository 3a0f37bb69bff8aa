-- ===== src/Client/Constructed.antt =====
-- What the constructor of src/client/client.cpp leaves: the queue of its read policy.
use distributed_replicated_c.Prelude.{
  ℕ, ◌≡◌, ◌≢◌, refl, sym, ap, ◌∙◌, subst, ℤ, List, [], append-nil, String,
}
use distributed_replicated_c.Result.{Result, ok, throws, Start, ready, exits}
use distributed_replicated_c.Exec.{>>=-eq-ok}
use distributed_replicated_c.ReadPolicy.{round_robin_read_policy}
use distributed_replicated_c.ReadPolicy.Rounds.{next_servers-round}
use distributed_replicated_c.Client.{RpcApi, ClientState}
use distributed_replicated_c.Client.Rotation.{
  ids_of, Reach, ReadsFrom, Reach-IsRotation, get-ReadsFrom,
}
use distributed_replicated_c.Client.Connect.{
  ConnectApi, Connected, start_state, ask_seed, connect_all, connect_servers, or_exit, new_client,
}

module _ {rpc : RpcApi} (api : ConnectApi rpc) where
  open rpc use {Connection, World}

  -- The constructor came to its end: it asked the server at the given host and port, and the servers
  -- are those that the loop connected to.
  pub record IsMade (host : String) (port : ℕ) (w : World) (made : Connected rpc) : Type 0 where
    pub srvs : List (ℤ × String)
    pub seed : Connection
    pub asked_in : World
    pub reached : api.connect host port w ≡ (ok seed, asked_in)
    pub asked_out : World
    pub asked : ask_seed api seed asked_in ≡ (ok (srvs, made.leader_id), asked_out)
    pub connected_out : World
    pub connected : connect_all api srvs [] asked_out ≡ (ok made.client.clients, connected_out)
    pub policy : made.read_policy ≡ round_robin_read_policy (ids_of made.client)

  ready-injective :
      {x y : Connected rpc}
      → ◌≡◌ {A = Result (Start (Connected rpc))} (ok (ready x)) (ok (ready y))
      → x ≡ y
  ready-injective h = cc

  exits_not_ready :
      {x : Connected rpc} → ◌≢◌ {A = Result (Start (Connected rpc))} (ok exits) (ok (ready x))
  exits_not_ready h = cc

  pub new_client-IsMade :
      (host : String) (port timeout_ms num_retries : ℕ) (w w' : World) (made : Connected rpc)
      → new_client api host port timeout_ms num_retries w ≡ (ok (ready made), w')
      → IsMade host port w made
  unfolding new_client or_exit connect_servers
  new_client-IsMade host port timeout_ms num_retries w w' made h =
      let (cl, w1, e1, k1) = >>=-eq-ok (api.connect host port) _ w h in
      by_answers cl w1 (ask_seed api cl w1).0 e1 refl k1
    where
      by_answers :
          (cl : Connection) (w1 : World) (asked : Result (List (ℤ × String) × ℤ))
          → api.connect host port w ≡ (ok cl, w1)
          → (ask_seed api cl w1).0 ≡ asked
          → or_exit api timeout_ms num_retries asked (ask_seed api cl w1).1 ≡ (ok (ready made), w')
          → IsMade host port w made
      by_answers cl w1 (throws e) r a k = absurd (exits_not_ready (ap (λ t. t.0) k))
      by_answers cl w1 (ok (srvs, leader_id)) r a k =
          let (clients, w2, e2, k2) =
            >>=-eq-ok (connect_all api srvs []) _ (ask_seed api cl w1).1 k in
          subst (λ m. IsMade host port w m) (ready-injective (ap (λ t. t.0) k2))
            (record {
              srvs = srvs;
              seed = cl;
              asked_in = w1;
              reached = r;
              asked_out = (ask_seed api cl w1).1;
              asked = ap (λ t. (t, (ask_seed api cl w1).1)) a;
              connected_out = w2;
              connected = e2;
              policy = refl;
            })

  -- From its construction on, whatever methods were called, a client without servers has no defined
  -- read, and any other client reads from the server at the front of its queue, which it knows, and
  -- moves it to the back.
  pub reads-ReadsFrom :
      (host : String) (port timeout_ms num_retries : ℕ) (w w' : World) (made : Connected rpc)
      (s : ClientState rpc) (key : List ℕ)
      → new_client api host port timeout_ms num_retries w ≡ (ok (ready made), w')
      → Reach made.client (start_state made w') s
      → ReadsFrom made.client key s
  reads-ReadsFrom host port timeout_ms num_retries w w' made s key h path =
      let m = new_client-IsMade host port timeout_ms num_retries w w' made h in
      get-ReadsFrom made.client key s (
        Reach-IsRotation made.client path (record {
          passed = [];
          left = ids_of made.client;
          all = refl;
          queue =
              m.policy
              ∙ (next_servers-round (ids_of made.client)).1
              ∙ sym (append-nil (ids_of made.client));
        }))
