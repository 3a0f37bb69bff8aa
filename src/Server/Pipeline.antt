-- ===== src/Server/Pipeline.antt =====
-- From an RPC to the database: what a mutation does on the server that handles it, and what a read
-- returns after it.
use distributed_replicated_c.Prelude.{
  ℤ, pos, ◌≡◌, refl, sym, ap, ◌∙◌, [], ◌∷◌, some, true, eq_ℤ, eq_ℤ_iff, arith,
}
use distributed_replicated_c.Result.{Result, ok, >>=-eq-ok}
use distributed_replicated_c.Exec.{Exec}
use distributed_replicated_c.Nuraft.Buffer.{BufferApi, BufferLaws}
use distributed_replicated_c.Nuraft.Raft.{RaftApi, RaftLaws, RaftResult, blocking}
use distributed_replicated_c.Splinter.{SplinterApi, SplinterLaws}
use distributed_replicated_c.Operation.{Operation, serialize}
use distributed_replicated_c.Operation.Request.{Request, put, update, delete, operation_of, Fits}
use distributed_replicated_c.StateMachine.{StateMachine, register_commit_thread}
use distributed_replicated_c.StateMachine.Commit.{execute, commit-serialize}
use distributed_replicated_c.Types.{MutationResult, is_success}
use distributed_replicated_c.StateMachine.Refinement.{IsPlain}
use distributed_replicated_c.Replica.{Replica, database, append_log}
use distributed_replicated_c.Server.{
  handle_put, handle_delete, handle_update, append_operation, extract_result, spl_code,
}

-- The request that each mutation RPC is turned into: an update becomes a put.
abbrev pub handled_as : Request → Request
handled_as (put key value) = put key value
handled_as (update key value) = put key value
handled_as (delete key) = delete key

pub handled_as-IsPlain : (req : Request) → IsPlain (handled_as req)
handled_as-IsPlain (put key value) = tt
handled_as-IsPlain (update key value) = tt
handled_as-IsPlain (delete key) = tt

module _ {b : BufferApi} {s : SplinterApi} {Snapshot : Type 0} (raft : RaftApi b s Snapshot) where
  -- The handler of each mutation RPC.
  abbrev pub handle_mutation : Request → Exec (Replica raft) MutationResult
  handle_mutation (put key value) = handle_put raft key value
  handle_mutation (update key value) = handle_update raft key value
  handle_mutation (delete key) = handle_delete raft key

  pub handle_mutation_lem :
      (req : Request) → handle_mutation req ≡ append_operation raft (operation_of (handled_as req))
  unfolding handle_put handle_update handle_delete
  handle_mutation_lem (put key value) = refl
  handle_mutation_lem (update key value) = refl
  handle_mutation_lem (delete key) = refl

pub is_success-codes :
    (res : MutationResult) → is_success res ≡ true → (res.spl_rc ≡ pos 0) × (res.raft_rc ≡ pos 0)
unfolding is_success
is_success-codes res h = (
  let e : eq_ℤ res.spl_rc (pos 0) ≡ true = ground arith in (eq_ℤ_iff res.spl_rc (pos 0)).0 e,
  let e : eq_ℤ res.raft_rc (pos 0) ≡ true = ground arith in (eq_ℤ_iff res.raft_rc (pos 0)).0 e,
)

module _ {b : BufferApi} (laws : BufferLaws b) {s : SplinterApi} (db_laws : SplinterLaws s)
    {Snapshot : Type 0} {raft : RaftApi b s Snapshot} (raft_laws : RaftLaws raft) where
  extract_reply :
      (result : RaftResult b.Buffer) (reply : b.Buffer) (rc : ℤ) (c : b.Cursor)
      → result.accepted ≡ true
      → result.has_result ≡ true
      → result.result ≡ some reply
      → b.get_i32 (b.start reply) ≡ some (rc, c)
      → extract_result b result
        ≡ ok (record { spl_rc = rc; raft_rc = result.result_code; msg = result.result_str })
  unfolding extract_result
  extract_reply result reply rc c e1 e2 e3 e4 = rw (e1, e2, e3, e4) refl

  pub extract-code :
      (result : RaftResult b.Buffer) {res : MutationResult}
      → extract_result b result ≡ ok res
      → result.result_code ≡ res.raft_rc
  unfolding extract_result
  extract-code result {res} h =
      let (rc, _, e) =
        >>=-eq-ok (spl_code b result)
          (λ spl_rc.
            ok (record { spl_rc = spl_rc; raft_rc = result.result_code; msg = result.result_str }))
          h in
      cc

  -- In blocking mode a mutation whose payload was made appends that payload, and its outcome is what
  -- `extract_result` makes of Raft's.
  pub append_operation_lem :
      (op : Operation) (r : Replica raft) (payload : b.Buffer)
      → r.return_method ≡ blocking
      → serialize b op ≡ ok payload
      → append_operation raft op r ≡ (
        extract_result b (raft.append_entries (payload ∷ []) r.raft_instance).0,
        record r { raft_instance = (raft.append_entries (payload ∷ []) r.raft_instance).1 },
      )
  unfolding append_operation append_log
  append_operation_lem op r payload mode e = rw (e, mode) refl

  module _ (req : Request) (r : Replica raft) (payload : b.Buffer)
      (mode : r.return_method ≡ blocking) (fits : Fits (handled_as req))
      (made : serialize b (operation_of (handled_as req)) ≡ ok payload) where
    abbrev pub outcome : RaftResult b.Buffer
    outcome = (raft.append_entries (payload ∷ []) r.raft_instance).0

    abbrev pub after : Replica raft
    after = record r { raft_instance = (raft.append_entries (payload ∷ []) r.raft_instance).1 }

    -- The one call of SplinterDB that is made.
    abbrev executed : ℤ × s.Db
    executed =
        execute s (handled_as req)
          (register_commit_thread s (raft.state_machine r.raft_instance)).spl_handle

    -- A mutation RPC in blocking mode, on a leader that commits no other entry during the call, whose
    -- payload Raft accepts with the code OK returns to the client the return code that SplinterDB gave
    -- for the request, and leaves the database as that call did.
    pub mutation_applies :
        raft.LeadsAlone r.raft_instance
        → outcome.result_code ≡ pos 0
        → (handle_mutation raft req r ≡ (
          ok (record { spl_rc = executed.0; raft_rc = pos 0; msg = outcome.result_str }),
          after,
        ))
          × (database raft after ≡ executed.1)
    mutation_applies alone code =
        let (idx, reply, run, acc, has, res) =
          raft_laws.append_entries_ok payload r.raft_instance alone code in
        let (buf, run', (c, int)) =
          commit-serialize laws db_laws (handled_as req) idx payload
            (raft.state_machine r.raft_instance) fits made in
        let both = sym run ∙ run' in
        let replies : ok reply ≡ ok buf =
          ap (λ (t : Result b.Buffer × StateMachine s Snapshot). t.0) both in
        let same : reply ≡ buf = cc in
        let int' : b.get_i32 (b.start reply) ≡ some (executed.0, c) =
          ap (λ t. b.get_i32 (b.start t)) same ∙ int in
        (
          ap (λ (h : Exec (Replica raft) MutationResult). h r) (handle_mutation_lem raft req)
              ∙ append_operation_lem (operation_of (handled_as req)) r payload mode made
              ∙ ap (λ (t : Result MutationResult). (t, after))
                  (extract_reply outcome reply executed.0 c acc has res int'
                    ∙ ap
                        (λ (rc : ℤ).
                          ok (record {
                            spl_rc = executed.0;
                            raft_rc = rc;
                            msg = outcome.result_str;
                          }))
                        code),
          ap (λ (t : Result b.Buffer × StateMachine s Snapshot). t.1.spl_handle) both,
        )
