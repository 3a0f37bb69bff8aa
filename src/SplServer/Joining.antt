-- ===== src/SplServer/Joining.antt =====
-- How a server joins the cluster of its seed.
use text.Mathlib.Text.{◌==◌ as ◌==ˢ◌}
use distributed_replicated_c.Prelude.{
  ℕ, ◌≡◌, ◌≢◌, refl, sym, ap, ◌∙◌, ℤ, pos, eq_ℤ, eq_ℤ_iff, Bool, true, false, Bool-cases, inl, inr,
  if◌then◌else◌, String,
}
use distributed_replicated_c.Result.{Result, ok, Start, ready, exits}
use distributed_replicated_c.Exec.{pure, lift, >>=-eq-ok}
use distributed_replicated_c.Endpoint.{parse_endpoint, endpoint_of}
use distributed_replicated_c.Nuraft.Buffer.{BufferApi}
use distributed_replicated_c.Nuraft.Raft.{RaftApi}
use distributed_replicated_c.Splinter.{SplinterApi}
use distributed_replicated_c.Replica.Launch.{ReplicaConfig, LaunchApi, is_not_positive}
use distributed_replicated_c.SplServer.Flags.{ServerFlags}
use distributed_replicated_c.Server.Lifecycle.{RpcServerApi, Server, new_server}
use distributed_replicated_c.SplServer.{
  to_u16, MachineApi, JoinApi, config_of, try_join_cluster, serve, started, main,
}

-- The server was accepted by the server at the address that the seed names.
pub record HasJoined {b : BufferApi} {s : SplinterApi} {Snapshot : Type 0}
    {raft : RaftApi b s Snapshot} {net : RpcServerApi raft} (join_api : JoinApi net) (seed : String)
    (cfg : ReplicaConfig s) : Type 0 where
  pub host : String
  pub port : ℕ
  pub parsed : parse_endpoint seed ≡ ok (host, port)
  pub connection : join_api.Connection
  pub before : net.World
  pub connects : (join_api.connect host port before).0 ≡ ok connection
  pub asked : net.World
  pub msg : String
  pub accepted :
      (join_api.join connection cfg.server_id
        (endpoint_of cfg.addr cfg.raft_port)
        (endpoint_of cfg.addr cfg.client_port)
        asked).0
      ≡ ok (pos 0, msg)

module _ {b : BufferApi} {s : SplinterApi} {Snapshot : Type 0} {raft : RaftApi b s Snapshot}
    {net : RpcServerApi raft} (join_api : JoinApi net) where
  open net use {World}

  exits_not_ready : {A : Type 0} {x : A} → ◌≢◌ {A = Result (Start A)} (ok exits) (ok (ready x))
  exits_not_ready h = cc

  zero_joined :
      (rc : ℤ) (t : Bool) (u : Unit {0})
      → eq_ℤ rc (pos 0) ≡ t
      → ◌≡◌ {A = Result (Start (Unit {0}))} (ok (if t then ready tt else exits)) (ok (ready u))
      → rc ≡ pos 0
  zero_joined rc true u e h = (eq_ℤ_iff rc (pos 0)).0 e
  zero_joined rc false u e h = absurd (exits_not_ready h)

  try_join_cluster-HasJoined :
      (seed : String) (cfg : ReplicaConfig s) (u : Unit {0}) (w w' : World)
      → try_join_cluster join_api seed cfg w ≡ (ok (ready u), w')
      → HasJoined join_api seed cfg
  unfolding try_join_cluster
  try_join_cluster-HasJoined seed cfg u w w' h =
      let (address, w1, e1, k1) = >>=-eq-ok (lift (parse_endpoint seed)) _ w h in
      let (cl, w2, e2, k2) = >>=-eq-ok (join_api.connect address.0 address.1) _ w1 k1 in
      let (answer, w3, e3, k3) =
        >>=-eq-ok
          (join_api.join cl cfg.server_id (endpoint_of cfg.addr cfg.raft_port)
            (endpoint_of cfg.addr cfg.client_port))
          _ w2 k2 in
      record {
        host = address.0;
        port = address.1;
        parsed = ap (λ t. t.0) e1;
        connection = cl;
        before = w1;
        connects = ap (λ t. t.0) e2;
        asked = w2;
        msg = answer.1;
        accepted =
            ap (λ t. t.0) e3
            ∙ ap (λ c. ok (c, answer.1))
                (zero_joined answer.0 (eq_ℤ answer.0 (pos 0)) u refl (ap (λ t. t.0) k3));
      }

  serve-joined :
      (nthreads : ℤ) (srv : Server net) (joined : Start (Unit {0})) (rc : ℤ) (w w' : World)
      → serve join_api nthreads srv joined w ≡ (ok (ready rc), w')
      → joined ≡ ready tt
  unfolding serve
  serve-joined nthreads srv (ready u) rc w w' h = refl
  serve-joined nthreads srv exits rc w w' h = absurd (exits_not_ready (ap (λ t. t.0) h))

  started-HasJoined :
      (flags : ServerFlags) (cfg : ReplicaConfig s) (start : Start (Server net)) (rc : ℤ)
      (w w' : World)
      → started join_api flags cfg start w ≡ (ok (ready rc), w')
      → (flags.seed ==ˢ "") ≡ false
      → ((srv : Server net) × (start ≡ ready srv)) × HasJoined join_api flags.seed cfg
  unfolding started
  started-HasJoined flags cfg exits rc w w' h seeded = absurd (exits_not_ready (ap (λ t. t.0) h))
  started-HasJoined flags cfg (ready srv) rc w w' h seeded =
      let (joined, w1, e1, k1) =
        >>=-eq-ok
          (if flags.seed ==ˢ "" then pure (ready tt) else try_join_cluster join_api flags.seed cfg)
          (serve join_api flags.nthreads srv) w h in
      let went = serve-joined flags.nthreads srv joined rc w1 w' k1 in
      let run : try_join_cluster join_api flags.seed cfg w ≡ (ok joined, w1) =
        sym (rw seeded refl) ∙ e1 in
      (
        (srv, refl),
        try_join_cluster-HasJoined flags.seed cfg tt w w1 (run ∙ ap (λ j. (ok j, w1)) went),
      )

  one_not_zero : ◌≢◌ {A = Result (Start ℤ)} (ok (ready (pos 1))) (ok (ready (pos 0)))
  one_not_zero h = cc

  -- When main returns 0 on a command line with a seed, the server id of the command line is above 0,
  -- a server was constructed with the configuration and the ports of the command line, and the server
  -- that the seed names took it into its cluster, under that id and the two endpoints of the
  -- configuration.
  pub main-HasJoined :
      (machine : MachineApi s) (launch : LaunchApi raft) (flags : ServerFlags) (w w' : World)
      → main join_api machine launch flags w ≡ (ok (ready (pos 0)), w')
      → (flags.seed ==ˢ "") ≡ false
      → (is_not_positive flags.serverid ≡ false)
        × ((srv : Server net) × (w1 : World) × (new_server net launch machine.raft_defaults
                (to_u16 flags.clientport)
                (to_u16 flags.joinport)
                (config_of machine flags)
                w
              ≡ (ok (ready srv), w1)))
        × HasJoined join_api flags.seed (config_of machine flags)
  unfolding main
  main-HasJoined machine launch flags w w' h seeded =
      elim (Bool-cases (is_not_positive flags.serverid)) [
        | inl e ↦
            let refused : main join_api machine launch flags w ≡ (ok (ready (pos 1)), w) =
              rw e refl in
            absurd (one_not_zero (ap (λ t. t.0) (sym refused ∙ h)))
        | inr e ↦
            let cfg = config_of machine flags in
            let (start, w1, e1, k1) =
              >>=-eq-ok
                (new_server net launch machine.raft_defaults (to_u16 flags.clientport)
                  (to_u16 flags.joinport) cfg)
                (started join_api flags cfg) w (sym (rw e refl) ∙ h) in
            let (made, joined) = started-HasJoined flags cfg start (pos 0) w1 w' k1 seeded in
            (e, (made.0, w1, e1 ∙ ap (λ x. (ok x, w1)) made.1), joined)
      ]
