-- ===== src/Client/Calls.antt =====
-- How many calls a mutation of a client makes.
use distributed_replicated_c.Prelude.{
  ℕ, zero, suc, ◌+◌, ◌*◌, ◌≤◌, ◌≡◌, refl, sym, ◌∙◌, subst, ℤ, pos, eq_ℤ, Bool, true, false, not,
  List, [], ◌∷◌, length, arith, if◌then◌else◌, ◌||◌,
}
use distributed_replicated_c.Result.{Result, ok, throws}
use distributed_replicated_c.Exec.{Exec, pure, continue, ◌>>=◌}
use distributed_replicated_c.Types.{MutationResult, was_accepted}
use distributed_replicated_c.Server.{ClientRpc, Reply, get_leader_id}
use distributed_replicated_c.Operation.Request.{Request}
use distributed_replicated_c.Client.{
  RpcApi, Client, ClientState, as_mutation, as_id, call_as, pause, leader_round, ask_leader,
  or_next, first_leader, find_leader_id, with_world, get_leader_handle, set_leader, sleep,
  try_handle_leader_change, no_live_leader, not_leader, request_cancelled, weird_case,
  mutation_round, mutation_loop, before_retry,
}
use distributed_replicated_c.Client.Answers.{mutate, rpc_of, mutate_lem}

-- A count that each call raises by the weight of its RPC, and that sleeping leaves alone.
pub record CallCount (rpc : RpcApi) (weight : ClientRpc → ℕ) : Type 0 where
  pub calls : rpc.World → ℕ
  pub calls-call :
      (c : rpc.Connection) (op : ClientRpc) (w : rpc.World)
      → calls (rpc.call c op w).1 ≡ calls w + weight op
  pub calls-sleep_ms : (ms : ℕ) (w : rpc.World) → calls (rpc.sleep_ms ms w) ≡ calls w

module _ {rpc : RpcApi} {weight : ClientRpc → ℕ} (count : CallCount rpc weight) where
  open count use {calls}

  calls-call_as :
      {A : Type 0} (decode : Reply → Result A) (c : rpc.Connection) (op : ClientRpc) (w : rpc.World)
      → calls (call_as rpc decode c op w).1 ≡ calls w + weight op
  unfolding call_as
  calls-call_as {A} decode c op w = by_result (rpc.call c op w).0 ∙ count.calls-call c op w
    where
      by_result :
          (r : Result Reply)
          → calls (
              (let t : Result A × rpc.World = elim r [
                | ok reply ↦ (decode reply, (rpc.call c op w).1)
                | throws e ↦ (throws e, (rpc.call c op w).1)
              ] in
                t).1)
            ≡ calls (rpc.call c op w).1
      by_result (ok reply) = refl
      by_result (throws e) = refl

  leader_round-calls :
      (answer : Result ℤ) (s : ℕ × rpc.World) (rest : Result ℤ × (ℕ × rpc.World)) (bound : ℕ)
      → calls s.1 ≤ bound
      → calls rest.1.1 ≤ bound
      → calls (leader_round rpc answer s rest).1.1 ≤ bound
  unfolding leader_round
  leader_round-calls (throws e) s rest bound h k = h
  leader_round-calls (ok id) s rest bound h k = by_test (not (eq_ℤ id no_live_leader))
    where
      by_test : (b : Bool) → calls (if b then (ok id, s) else rest).1.1 ≤ bound
      by_test true = h
      by_test false = k

  ask_leader-calls :
      (c : rpc.Connection) (rounds : ℕ) (s : ℕ × rpc.World)
      → calls (ask_leader rpc c rounds s).1.1 ≤ calls s.1 + rounds * weight get_leader_id
  unfolding ask_leader pause
  ask_leader-calls c zero s = omega arith
  ask_leader-calls c (suc rounds) (delay_ms, w) =
      let (answer, w') = call_as rpc as_id c get_leader_id w in
      let one = calls-call_as as_id c get_leader_id w in
      leader_round-calls answer (delay_ms, w') _ (calls w + suc rounds * weight get_leader_id)
        (omega (arith, one))
        (omega (
          arith,
          one,
          ask_leader-calls c rounds (pause rpc (delay_ms, w')),
          count.calls-sleep_ms delay_ms w',
        ))

  or_next-calls :
      (asked rest : Result ℤ × (ℕ × rpc.World)) (bound : ℕ)
      → calls asked.1.1 ≤ bound
      → calls rest.1.1 ≤ bound
      → calls (or_next rpc asked rest).1.1 ≤ bound
  unfolding or_next
  or_next-calls (ok id, s) rest bound h k = h
  or_next-calls (throws e, s) rest bound h k = k

  calls-pause : (s : ℕ × rpc.World) → calls (pause rpc s).1 ≡ calls s.1
  unfolding pause
  calls-pause (delay_ms, w) = count.calls-sleep_ms delay_ms w

  first_leader-calls :
      (clients : List (ℤ × rpc.Connection)) (n : ℕ) (s : ℕ × rpc.World)
      → calls (first_leader rpc clients n s).1.1
        ≤ calls s.1 + length clients * (n * weight get_leader_id)
  unfolding first_leader
  first_leader-calls [] n s = omega arith
  first_leader-calls ((srv_id, c) ∷ rest) n s =
      let asked = ask_leader rpc c n s in
      or_next-calls asked _ _ (omega (arith, ask_leader-calls c n s)) (
        omega (
          arith,
          ask_leader-calls c n s,
          calls-pause asked.1,
          first_leader-calls rest n (pause rpc asked.1),
        ))

  -- A computation whose calls weigh at most `n`, from any state.
  abbrev MakesAtMost : {A : Type 0} → ℕ → Exec (ClientState rpc) A → Type 0
  MakesAtMost n m = (s : ClientState rpc) → calls (m s).1.world ≤ calls s.world + n

  >>=-MakesAtMost :
      {A B : Type 0} (j k : ℕ) (m : Exec (ClientState rpc) A) (f : A → Exec (ClientState rpc) B)
      → MakesAtMost j m
      → ((a : A) → MakesAtMost k (f a))
      → MakesAtMost (j + k) (m >>= f)
  >>=-MakesAtMost {A} {B} j k m f h g s = by_result (m s).0 (m s).1 (h s)
    where
      by_result :
          (r : Result A) (t : ClientState rpc)
          → calls t.world ≤ calls s.world + j
          → calls (continue r f t).1.world ≤ calls s.world + (j + k)
      by_result (ok a) t p = omega (arith, p, g a t)
      by_result (throws e) t p = omega (arith, p)

  if-MakesAtMost :
      {A : Type 0} (n : ℕ) (b : Bool) (m m' : Exec (ClientState rpc) A)
      → MakesAtMost n m
      → MakesAtMost n m'
      → MakesAtMost n (if b then m else m')
  if-MakesAtMost n true m m' h k = h
  if-MakesAtMost n false m m' h k = k

  module _ (cl : Client rpc) where
    -- The weight of the calls that finding a new leader may need.
    abbrev search_calls : ℕ
    search_calls = length cl.clients * (cl.num_retries * weight get_leader_id)

    try_handle_leader_change-calls :
        (raft_rc : ℤ) → MakesAtMost search_calls (try_handle_leader_change rpc cl raft_rc)
    unfolding try_handle_leader_change set_leader find_leader_id
    try_handle_leader_change-calls raft_rc =
        if-MakesAtMost search_calls (eq_ℤ raft_rc not_leader || eq_ℤ raft_rc request_cancelled)
          (with_world rpc cl (find_leader_id rpc cl) >>= λ id.
            (set_leader rpc cl id >>= λ u. pure true))
          (pure false)
          (λ s. omega (
            arith,
            >>=-MakesAtMost search_calls 0 (with_world rpc cl (find_leader_id rpc cl))
                (λ id. (set_leader rpc cl id >>= λ u. pure true))
                (λ t. first_leader-calls cl.clients cl.num_retries (100, t.world))
                (λ id t. omega arith) s,
          ))
          (λ s. omega arith)

    before_retry-calls :
        (result : MutationResult) → MakesAtMost search_calls (before_retry rpc cl result)
    unfolding before_retry sleep
    before_retry-calls result s =
        let bound =
          >>=-MakesAtMost search_calls 0 (try_handle_leader_change rpc cl result.raft_rc)
            (λ changed. if changed then sleep rpc cl 100 else pure tt)
            (try_handle_leader_change-calls result.raft_rc)
            (λ changed.
              if-MakesAtMost 0 changed (sleep rpc cl 100) (pure tt)
                (λ t. omega (arith, count.calls-sleep_ms 100 t.world)) (λ t. omega arith))
            s in
        omega (arith, bound)

    mutation_round-calls :
        (n : ℕ) (result : MutationResult) (rest : Exec (ClientState rpc) MutationResult)
        → MakesAtMost n rest
        → MakesAtMost (search_calls + n) (mutation_round rpc cl result rest)
    unfolding mutation_round
    mutation_round-calls n result rest h =
        if-MakesAtMost (search_calls + n) (was_accepted result) (pure result) _ (λ s. omega arith)
          (if-MakesAtMost (search_calls + n) (eq_ℤ result.raft_rc weird_case)
            (pure (record result { raft_rc = pos 0 })) _ (λ s. omega arith)
            (>>=-MakesAtMost search_calls n (before_retry rpc cl result) (λ u. rest)
              (before_retry-calls result) (λ u. h)))

    mutation_loop-calls :
        (op : ClientRpc) (rounds : ℕ) (last : MutationResult)
        → MakesAtMost (rounds * (weight op + search_calls)) (mutation_loop rpc cl op rounds last)
    unfolding mutation_loop get_leader_handle
    mutation_loop-calls op zero last s = omega arith
    mutation_loop-calls op (suc rounds) last s =
        let tail = rounds * (weight op + search_calls) in
        let go_on = λ (answer : MutationResult).
          mutation_round rpc cl answer (mutation_loop rpc cl op rounds answer) in
        let ask =
          λ (leader : rpc.Connection). with_world rpc cl (call_as rpc as_mutation leader op) in
        let bound =
          >>=-MakesAtMost 0 (weight op + (search_calls + tail)) (get_leader_handle rpc cl)
            (λ leader. ask leader >>= go_on) (λ t. omega arith)
            (λ leader.
              >>=-MakesAtMost (weight op) (search_calls + tail) (ask leader) go_on
                (λ t. omega (arith, calls-call_as as_mutation leader op t.world))
                (λ answer.
                  mutation_round-calls tail answer (mutation_loop rpc cl op rounds answer)
                    (mutation_loop-calls op rounds answer)))
            s in
        omega (arith, bound)

    -- Whatever weights the RPCs are given, the calls of a put, an update or a del weigh at most as much as
    -- `num_retries` calls of its own RPC and, for each of them, `num_retries` calls of get_leader_id to
    -- each server that the client knows. So it makes at most `num_retries` calls of its own, and
    -- no calls but these two kinds.
    pub mutate-calls :
        (req : Request) (s : ClientState rpc)
        → calls (mutate cl req s).1.world
          ≤ calls s.world
            + cl.num_retries
              * (weight (rpc_of req) + length cl.clients * (cl.num_retries * weight get_leader_id))
    mutate-calls req s =
        let (start, e) = mutate_lem cl req in
        subst
          (λ (m : Exec (ClientState rpc) MutationResult).
            calls (m s).1.world
            ≤ calls s.world + cl.num_retries * (weight (rpc_of req) + search_calls))
          (sym e) (mutation_loop-calls (rpc_of req) cl.num_retries start s)
