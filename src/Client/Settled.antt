-- ===== src/Client/Settled.antt =====
-- A mutation that the servers refuse for a while: the rounds of the loop of put, update and del.
use distributed_replicated_c.Prelude.{
  ℕ, zero, suc, ◌<◌, ◌≡◌, refl, sym, ap, ◌∙◌, ℤ, pos, negsuc, eq_ℤ, Bool, true, false, ◌||◌,
  if◌then◌else◌, some, arith,
}
use distributed_replicated_c.Result.{Result, ok, throws, or_throw, out_of_range}
use distributed_replicated_c.Exec.{Exec, pure, ◌>>=◌, >>=-ok}
use distributed_replicated_c.Types.{MutationResult, was_accepted}
use distributed_replicated_c.Server.{ClientRpc, Reply, mutation_reply}
use distributed_replicated_c.Operation.Request.{Request}
use distributed_replicated_c.Client.{
  RpcApi, Client, ClientState, as_mutation, not_leader, request_cancelled, weird_case, find_client,
  call_as, with_world, get_leader_handle, set_leader, sleep, find_leader_id,
  try_handle_leader_change, before_retry, mutation_round, mutation_loop,
}
use distributed_replicated_c.Client.Answers.{mutate, rpc_of, mutate_lem}

-- The codes on which the client looks for the leader.
abbrev pub has_moved : MutationResult → Bool
has_moved answer = eq_ℤ answer.raft_rc not_leader || eq_ℤ answer.raft_rc request_cancelled

not_accepted :
    (code : ℤ)
    → eq_ℤ code not_leader || eq_ℤ code request_cancelled ≡ true
    → (eq_ℤ code (pos 0) ≡ false) × (eq_ℤ code weird_case ≡ false)
not_accepted (pos n) h = cc
not_accepted (negsuc n) h = (refl, refl)

has_moved-code :
    (answer : MutationResult)
    → has_moved answer ≡ true
    → (was_accepted answer ≡ false) × (eq_ℤ answer.raft_rc weird_case ≡ false)
unfolding was_accepted
has_moved-code answer h = not_accepted answer.raft_rc h

module _ {rpc : RpcApi} (cl : Client rpc) where
  -- The server that the client takes for the leader replies to the mutation.
  pub record Replies (op : ClientRpc) (s : ClientState rpc) (answer : MutationResult)
      (w : rpc.World) : Type 0 where
    pub connection : rpc.Connection
    pub known : find_client s.leader_id cl.clients ≡ some connection
    pub asked : rpc.call connection op s.world ≡ (ok (mutation_reply answer), w)

  -- The servers refuse a mutation a number of times, and then accept it.
  pub data Settles (op : ClientRpc) (result : MutationResult) (s' : ClientState rpc)
      : ℕ → ClientState rpc → Type 0 where
    accepts :
        {s : ClientState rpc}
        → Replies op s result s'.world
        → was_accepted result ≡ true
        → s' ≡ record s { world = s'.world }
        → Settles op result s' 0 s
    -- Another server leads, or an election is going on: the client finds the leader.
    moves :
        {n : ℕ} {s : ClientState rpc} (answer : MutationResult) (w v : rpc.World) (id : ℤ)
        → Replies op s answer w
        → has_moved answer ≡ true
        → find_leader_id rpc cl w ≡ (ok id, v)
        → Settles op result s' n (record s { leader_id = id; world = rpc.sleep_ms 100 v })
        → Settles op result s' (suc n) s
    -- Any other refusal: the client asks the same server again.
    refuses :
        {n : ℕ} {s : ClientState rpc} (answer : MutationResult) (w : rpc.World)
        → Replies op s answer w
        → was_accepted answer ≡ false
        → eq_ℤ answer.raft_rc weird_case ≡ false
        → has_moved answer ≡ false
        → Settles op result s' n (record s { world = w })
        → Settles op result s' (suc n) s

  -- One round on a reply.
  round_lem :
      (op : ClientRpc) (rounds : ℕ) (start answer : MutationResult) (s : ClientState rpc)
      (w : rpc.World)
      → Replies op s answer w
      → mutation_loop rpc cl op (suc rounds) start s
        ≡ mutation_round rpc cl answer
            (mutation_loop rpc cl op rounds answer)
            (record s { world = w })
  unfolding mutation_loop get_leader_handle call_as
  round_lem op rounds start answer s w r =
      >>=-ok (get_leader_handle rpc cl)
        (λ leader. do
          a ← with_world rpc cl (call_as rpc as_mutation leader op)
          mutation_round rpc cl a (mutation_loop rpc cl op rounds a))
        s (ap (λ o. (or_throw out_of_range o, s)) r.known)
      ∙ >>=-ok (with_world rpc cl (call_as rpc as_mutation r.connection op))
          (λ a. mutation_round rpc cl a (mutation_loop rpc cl op rounds a)) s (ap after r.asked)
    where
      after : Result Reply × rpc.World → Result MutationResult × ClientState rpc
      after t =
          let u : Result MutationResult × rpc.World = elim t.0 [
            | ok reply ↦ (as_mutation reply, t.1)
            | throws e ↦ (throws e, t.1)
          ] in
          (u.0, record s { world = u.1 })

  retry_lem :
      (answer : MutationResult) (rest : Exec (ClientState rpc) MutationResult) (s : ClientState rpc)
      → was_accepted answer ≡ false
      → eq_ℤ answer.raft_rc weird_case ≡ false
      → mutation_round rpc cl answer rest s ≡ (do u ← before_retry rpc cl answer; rest) s
  unfolding mutation_round
  retry_lem answer rest s refused known = rw (refused, known) refl

  before_moves :
      (answer : MutationResult) (s : ClientState rpc) (id : ℤ) (v : rpc.World)
      → has_moved answer ≡ true
      → find_leader_id rpc cl s.world ≡ (ok id, v)
      → before_retry rpc cl answer s
        ≡ (ok tt, record s { leader_id = id; world = rpc.sleep_ms 100 v })
  unfolding before_retry try_handle_leader_change set_leader sleep
  before_moves answer s id v moved found =
      >>=-ok (try_handle_leader_change rpc cl answer.raft_rc)
        (λ changed. if changed then sleep rpc cl 100 else pure tt) s
        (ap
            (λ flag.
              (if flag
                  then (do
                    i ← with_world rpc cl (find_leader_id rpc cl)
                    u ← set_leader rpc cl i
                    pure true)
                  else pure false)
                s)
            moved
          ∙ >>=-ok (with_world rpc cl (find_leader_id rpc cl))
              (λ i. do u ← set_leader rpc cl i; pure true) s
              (ap (λ (t : Result ℤ × rpc.World). (t.0, record s { world = t.1 })) found))

  before_refuses :
      (answer : MutationResult) (s : ClientState rpc)
      → has_moved answer ≡ false
      → before_retry rpc cl answer s ≡ (ok tt, s)
  unfolding before_retry try_handle_leader_change
  before_refuses answer s still = rw still refl

  accept_lem :
      (answer : MutationResult) (rest : Exec (ClientState rpc) MutationResult) (s : ClientState rpc)
      → was_accepted answer ≡ true
      → mutation_round rpc cl answer rest s ≡ (ok answer, s)
  unfolding mutation_round
  accept_lem answer rest s accepted = rw accepted refl

  loop-Settles :
      (op : ClientRpc) (result : MutationResult) (s' : ClientState rpc) (n rounds : ℕ)
      (start : MutationResult) (s : ClientState rpc)
      → n < rounds
      → Settles op result s' n s
      → mutation_loop rpc cl op rounds start s ≡ (ok result, s')
  loop-Settles op result s' n zero start s lt h = absurd (omega (arith, lt))
  loop-Settles op result s' n (suc rounds) start s lt (accepts r accepted same) =
      round_lem op rounds start result s s'.world r
      ∙ accept_lem result (mutation_loop rpc cl op rounds result) (record s { world = s'.world })
          accepted
      ∙ ap (λ t. (ok result, t)) (sym same)
  loop-Settles op result s' n (suc rounds) start s lt (moves answer w v id r moved found h) =
      let (refused, known) = has_moved-code answer moved in
      let rest = mutation_loop rpc cl op rounds answer in
      round_lem op rounds start answer s w r
      ∙ retry_lem answer rest (record s { world = w }) refused known
      ∙ >>=-ok (before_retry rpc cl answer) (λ u. rest) (record s { world = w })
          (before_moves answer (record s { world = w }) id v moved found)
      ∙ loop-Settles op result s' _ rounds answer
          (record s { leader_id = id; world = rpc.sleep_ms 100 v }) (omega (arith, lt)) h
  loop-Settles op result s' n (suc rounds) start s lt (refuses answer w r refused known still h) =
      let rest = mutation_loop rpc cl op rounds answer in
      round_lem op rounds start answer s w r
      ∙ retry_lem answer rest (record s { world = w }) refused known
      ∙ >>=-ok (before_retry rpc cl answer) (λ u. rest) (record s { world = w })
          (before_refuses answer (record s { world = w }) still)
      ∙ loop-Settles op result s' _ rounds answer (record s { world = w }) (omega (arith, lt)) h

  -- A put, an update or a del that the servers refuse fewer times than the client makes attempts, and
  -- then accept, returns the accepted result: after a refusal because another server leads, or because
  -- an election is going on, with the leader that the client found, and after any other refusal but
  -- one with the code 999 with the server that it asked before.
  pub mutate-Settles :
      (req : Request) (result : MutationResult) (n : ℕ) (s s' : ClientState rpc)
      → n < cl.num_retries
      → Settles (rpc_of req) result s' n s
      → mutate cl req s ≡ (ok result, s')
  mutate-Settles req result n s s' lt h =
      let (start, e) = mutate_lem cl req in
      ap (λ (m : Exec (ClientState rpc) MutationResult). m s) e
      ∙ loop-Settles (rpc_of req) result s' n cl.num_retries start s lt h
