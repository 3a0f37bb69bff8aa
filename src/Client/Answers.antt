-- ===== src/Client/Answers.antt =====
-- Where the result of a mutation comes from.
use distributed_replicated_c.Prelude.{
  ℕ, zero, suc, ◌<◌, ◌≡◌, ◌≢◌, refl, sym, ap, ◌∙◌, ℤ, pos, eq_ℤ, eq_ℤ_iff, true, false, Bool-cases,
  ◌⊎◌, inl, inr, some, arith,
}
use distributed_replicated_c.Result.{Result, ok, ok-injective, or_throw-eq-ok, out_of_range}
use distributed_replicated_c.Exec.{Exec, pure, ◌>>=◌, >>=-eq-ok}
use distributed_replicated_c.Types.{MutationResult, was_accepted}
use distributed_replicated_c.Server.{
  ClientRpc, splinterdb_put, splinterdb_update, splinterdb_delete, mutation_reply,
}
use distributed_replicated_c.Operation.Request.{Request}
use distributed_replicated_c.Client.{
  RpcApi, Client, ClientState, as_mutation, weird_case, find_client, call_as, with_world,
  get_leader_handle, mutation_round, mutation_loop, before_retry, put, update, del,
}
use distributed_replicated_c.Client.Replies.{as_mutation-eq-ok, call_as-reply}

abbrev pub rpc_of : Request → ClientRpc
rpc_of (Request.put key value) = splinterdb_put key value
rpc_of (Request.update key value) = splinterdb_update key value
rpc_of (Request.delete key) = splinterdb_delete key

module _ {rpc : RpcApi} (cl : Client rpc) where
  -- The last call of the mutation `op`, on a connection of the client, left the world `after`; its
  -- reply has the codes and the message of the result, but that a Raft code of 999 became 0.
  pub record IsAnswered (op : ClientRpc) (result : MutationResult) (after : rpc.World)
      : Type 0 where
    pub server : ℤ
    pub connection : rpc.Connection
    pub known : find_client server cl.clients ≡ some connection
    pub before : rpc.World
    pub reply : MutationResult
    pub asked : rpc.call connection op before ≡ (ok (mutation_reply reply), after)
    pub spl_rc : result.spl_rc ≡ reply.spl_rc
    pub msg : result.msg ≡ reply.msg
    pub raft_rc : (reply.raft_rc ≡ pos 0) ⊎ (reply.raft_rc ≡ weird_case)

  handle_known :
      (s s1 : ClientState rpc) (c : rpc.Connection)
      → get_leader_handle rpc cl s ≡ (ok c, s1)
      → (find_client s.leader_id cl.clients ≡ some c) × (s1 ≡ s)
  unfolding get_leader_handle
  handle_known s s1 c h = (
    or_throw-eq-ok out_of_range (find_client s.leader_id cl.clients) c (ap (λ t. t.0) h),
    sym (ap (λ t. t.1) h),
  )

  not_accepted : (result : MutationResult) → was_accepted result ≡ false → result.raft_rc ≢ pos 0
  unfolding was_accepted
  not_accepted result h e = ground (arith, (eq_ℤ_iff result.raft_rc (pos 0)).1 e)

  module _ (answer : MutationResult) (rest : Exec (ClientState rpc) MutationResult) where
    round_accepted : was_accepted answer ≡ true → mutation_round rpc cl answer rest ≡ pure answer
    unfolding mutation_round
    round_accepted h = rw h refl

    round_weird :
        was_accepted answer ≡ false
        → eq_ℤ answer.raft_rc weird_case ≡ true
        → mutation_round rpc cl answer rest ≡ pure (record answer { raft_rc = pos 0 })
    unfolding mutation_round
    round_weird h k = rw (h, k) refl

    round_retry :
        was_accepted answer ≡ false
        → eq_ℤ answer.raft_rc weird_case ≡ false
        → mutation_round rpc cl answer rest ≡ (before_retry rpc cl answer >>= λ u. rest)
    unfolding mutation_round
    round_retry h k = rw (h, k) refl

  round-IsAnswered :
      (op : ClientRpc) (server : ℤ) (c : rpc.Connection) (w : rpc.World)
      (answer result : MutationResult) (rest : Exec (ClientState rpc) MutationResult)
      (s2 s' : ClientState rpc)
      → find_client server cl.clients ≡ some c
      → rpc.call c op w ≡ (ok (mutation_reply answer), s2.world)
      → result.raft_rc ≡ pos 0
      → ((s3 : ClientState rpc)
          → rest s3 ≡ (ok result, s')
          → answer.raft_rc ≢ pos 0
          → IsAnswered op result s'.world)
      → mutation_round rpc cl answer rest s2 ≡ (ok result, s')
      → IsAnswered op result s'.world
  round-IsAnswered op server c w answer result rest s2 s' known asked code retry k =
      let last_call : (r : MutationResult)
          → ◌≡◌ {A = Result MutationResult × ClientState rpc} (ok r, s2) (ok result, s')
          → (r ≡ result) × (s2.world ≡ s'.world) =
        λ r q. (ok-injective (ap (λ t. t.0) q), ap (λ t. t.1.world) q) in
      let at = λ (m : Exec (ClientState rpc) MutationResult). m s2 in
      elim (Bool-cases (was_accepted answer)) [
        | inl accepted ↦
            let (r, t) = last_call answer (sym (ap at (round_accepted answer _ accepted)) ∙ k) in
            record {
              server = server;
              connection = c;
              known = known;
              before = w;
              reply = answer;
              asked = asked ∙ ap (λ x. (ok (mutation_reply answer), x)) t;
              spl_rc = ap (λ (x : MutationResult). x.spl_rc) (sym r);
              msg = ap (λ (x : MutationResult). x.msg) (sym r);
              raft_rc = inl (ap (λ (x : MutationResult). x.raft_rc) r ∙ code);
            }
        | inr refused ↦ elim (Bool-cases (eq_ℤ answer.raft_rc weird_case)) [
          | inl weird ↦
              let (r, t) =
                last_call (record answer { raft_rc = pos 0 })
                  (sym (ap at (round_weird answer _ refused weird)) ∙ k) in
              record {
                server = server;
                connection = c;
                known = known;
                before = w;
                reply = answer;
                asked = asked ∙ ap (λ x. (ok (mutation_reply answer), x)) t;
                spl_rc = ap (λ (x : MutationResult). x.spl_rc) (sym r);
                msg = ap (λ (x : MutationResult). x.msg) (sym r);
                raft_rc = inr ((eq_ℤ_iff answer.raft_rc weird_case).0 weird);
              }
          | inr other ↦
              let (u, s3, e3, k3) =
                >>=-eq-ok (before_retry rpc cl answer) (λ u. rest) s2
                  (sym (ap at (round_retry answer _ refused other)) ∙ k) in
              retry s3 k3 (not_accepted answer refused)
        ]
      ]

  -- A loop whose result has the Raft code 0 ended with a call that was answered so.
  mutation_loop-IsAnswered :
      (op : ClientRpc) (rounds : ℕ) (last result : MutationResult) (s s' : ClientState rpc)
      → mutation_loop rpc cl op rounds last s ≡ (ok result, s')
      → result.raft_rc ≡ pos 0
      → (rounds ≡ 0 → last.raft_rc ≢ pos 0)
      → IsAnswered op result s'.world
  unfolding mutation_loop
  mutation_loop-IsAnswered op zero last result s s' run code bad =
      let e : last ≡ result = ok-injective (ap (λ t. t.0) run) in
      absurd (bad refl (ap (λ (t : MutationResult). t.raft_rc) e ∙ code))
  mutation_loop-IsAnswered op (suc rounds) last result s s' run code bad =
      let (leader, s1, e1, k1) = >>=-eq-ok (get_leader_handle rpc cl) _ s run in
      let (answer, s2, e2, k2) =
        >>=-eq-ok (with_world rpc cl (call_as rpc as_mutation leader op)) _ s1 k1 in
      let (known, same) = handle_known s s1 leader e1 in
      let asked =
        call_as-reply rpc as_mutation mutation_reply as_mutation-eq-ok leader op s1.world s2.world
          answer (ap (λ t. (t.0, t.1.world)) e2) in
      round-IsAnswered op s.leader_id leader s1.world answer result
        (mutation_loop rpc cl op rounds answer) s2 s' known asked code
        (λ s3 k bad_answer.
          mutation_loop-IsAnswered op rounds answer result s3 s' k code (λ z. bad_answer))
        k2

  -- The three mutations, and the RPC of each.
  abbrev pub mutate : Request → Exec (ClientState rpc) MutationResult
  mutate (Request.put key value) = put rpc cl key value
  mutate (Request.update key value) = update rpc cl key value
  mutate (Request.delete key) = del rpc cl key

  pub mutate_lem :
      (req : Request)
      → (start : MutationResult) × (mutate req
          ≡ mutation_loop rpc cl (rpc_of req) cl.num_retries start)
  unfolding put update del
  mutate_lem (Request.put key value) = (_, refl)
  mutate_lem (Request.update key value) = (_, refl)
  mutate_lem (Request.delete key) = (_, refl)

  -- When a client that makes at least one attempt returns the Raft code 0 for a mutation, the last
  -- call that it made was that mutation, on a server that it knows, and the server replied with the
  -- same code of SplinterDB and the same message, and with the Raft code 0 or the code 999.
  pub mutate-IsAnswered :
      (req : Request) (result : MutationResult) (s s' : ClientState rpc)
      → 0 < cl.num_retries
      → mutate req s ≡ (ok result, s')
      → result.raft_rc ≡ pos 0
      → IsAnswered (rpc_of req) result s'.world
  mutate-IsAnswered req result s s' some_retry run code =
      let (start, e) = mutate_lem req in
      mutation_loop-IsAnswered (rpc_of req) cl.num_retries start result s s'
        (sym (ap (λ (m : Exec (ClientState rpc) MutationResult). m s) e) ∙ run) code
        (λ z. absurd (omega arith))
