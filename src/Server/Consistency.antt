-- ===== src/Server/Consistency.antt =====
-- What a client relies on: after a mutation that counts as a success, reads on the same server see it.
use distributed_replicated_c.Prelude.{
  ℕ, pos, ◌≡◌, ◌≢◌, refl, sym, ap, ◌∙◌, List, [], none, some, true, eq_ℤ-false, ◌⊎◌, inl, inr,
}
use distributed_replicated_c.Replica.Read.{read_found, read_missing}
use distributed_replicated_c.Result.{Result, ok}
use distributed_replicated_c.Exec.{Exec}
use distributed_replicated_c.Nuraft.Buffer.{BufferApi, BufferLaws}
use distributed_replicated_c.Nuraft.Raft.{RaftApi, RaftLaws, blocking}
use distributed_replicated_c.Splinter.{SplinterApi, SplinterLaws}
use distributed_replicated_c.Operation.Request.{
  Request, put, update, delete, operation_of, Fits, operation_of-IsWellFormed,
}
use distributed_replicated_c.StateMachine.{register_commit_thread}
use distributed_replicated_c.StateMachine.Commit.{contents-register}
use distributed_replicated_c.Types.{MutationResult, is_success}
use distributed_replicated_c.StateMachine.Refinement.{
  Contents, apply_request, apply_request_cong, execute-contents, put_self, put_ne, delete_self,
}
use distributed_replicated_c.Operation.Codec.{deserialize-serialize}
use distributed_replicated_c.Replica.{Replica, database}
use distributed_replicated_c.Server.{
  handle_put, handle_delete, handle_update, extract_result, handle_get,
}
use distributed_replicated_c.Operation.{serialize}
use distributed_replicated_c.Server.Pipeline.{
  handled_as, handled_as-IsPlain, handle_mutation, handle_mutation_lem, append_operation_lem,
  extract-code, mutation_applies, is_success-codes, outcome, after,
}

-- The contents of the database of a replica.
abbrev pub data_of :
    {b : BufferApi} {s : SplinterApi} (db_laws : SplinterLaws s) {Snapshot : Type 0}
    (raft : RaftApi b s Snapshot)
    → Replica raft
    → Contents
data_of db_laws raft r = db_laws.contents (database raft r)

module _ {b : BufferApi} (laws : BufferLaws b) {s : SplinterApi} (db_laws : SplinterLaws s)
    {Snapshot : Type 0} {raft : RaftApi b s Snapshot} (raft_laws : RaftLaws raft) where
  -- A success of a mutation RPC in blocking mode comes from the code OK of Raft for its payload.
  pub success-code :
      (req : Request) (r r' : Replica raft) (res : MutationResult) (payload : b.Buffer)
      (mode : r.return_method ≡ blocking) (fits : Fits (handled_as req))
      (made : serialize b (operation_of (handled_as req)) ≡ ok payload)
      → handle_mutation raft req r ≡ (ok res, r')
      → is_success res ≡ true
      → (outcome laws db_laws raft_laws req r payload mode fits made).result_code ≡ pos 0
  success-code req r r' res payload mode fits made run success =
      let run_op =
        append_operation_lem laws db_laws raft_laws (operation_of (handled_as req)) r payload mode
          made in
      let handled =
        ap (λ (h : Exec (Replica raft) MutationResult). h r) (handle_mutation_lem raft req) in
      let extracted : extract_result b (outcome laws db_laws raft_laws req r payload mode fits made)
          ≡ ok res =
        ap (λ (t : Result MutationResult × Replica raft). t.0) (sym run_op ∙ sym handled ∙ run) in
      extract-code laws db_laws raft_laws
        (outcome laws db_laws raft_laws req r payload mode fits made) extracted
      ∙ (is_success-codes res success).1

  -- When a mutation RPC, on a server in blocking mode that leads and commits no other entry during the
  -- call, returns a result that `is_success` accepts, the server's data is changed at every key exactly
  -- as the specification of the request says, where an update is a put.
  pub success_applies :
      (req : Request) (r r' : Replica raft) (res : MutationResult)
      → r.return_method ≡ blocking
      → raft.LeadsAlone r.raft_instance
      → Fits (handled_as req)
      → handle_mutation raft req r ≡ (ok res, r')
      → is_success res ≡ true
      → (j : List ℕ)
      → data_of db_laws raft r' j ≡ apply_request (handled_as req) (data_of db_laws raft r) j
  success_applies req r r' res mode alone fits run success j =
      let (payload, made, _) =
        deserialize-serialize laws (operation_of (handled_as req))
          (operation_of-IsWellFormed (handled_as req) fits) in
      let (spl, rft) = is_success-codes res success in
      let code = success-code req r r' res payload mode fits made run success in
      let (out, db) =
        mutation_applies laws db_laws raft_laws req r payload mode fits made alone code in
      let both = sym out ∙ run in
      let same : r' ≡ after laws db_laws raft_laws req r payload mode fits made =
        ap (λ (t : Result MutationResult × Replica raft). t.1) (sym both) in
      let rc = executed-code both in
      let sm = raft.state_machine r.raft_instance in
      ap (λ (t : Replica raft). db_laws.contents (database raft t) j) same
      ∙ ap (λ t. db_laws.contents t j) db
      ∙ execute-contents db_laws (handled_as req) (register_commit_thread s sm).spl_handle
          (handled_as-IsPlain req) (rc ∙ spl) j
      ∙ apply_request_cong (handled_as req) _ _ (contents-register laws db_laws sm) j
    where
      executed-code :
          {x y : MutationResult} {q q' : Replica raft}
          → ◌≡◌ {A = Result MutationResult × Replica raft} (ok x, q) (ok y, q')
          → x.spl_rc ≡ y.spl_rc
      executed-code {x} {y} e =
          let f : ok x ≡ ok y = ap (λ (t : Result MutationResult × Replica raft). t.0) e in
          let g : x ≡ y = cc in ap (λ (t : MutationResult). t.spl_rc) g

  after_put :
      (key value : List ℕ) (r r' : Replica raft) (res : MutationResult)
      → r.return_method ≡ blocking
      → raft.LeadsAlone r.raft_instance
      → Fits (put key value)
      → (handle_put raft key value r ≡ (ok res, r'))
        ⊎ (handle_update raft key value r ≡ (ok res, r'))
      → is_success res ≡ true
      → (j : List ℕ)
      → data_of db_laws raft r' j ≡ apply_request (put key value) (data_of db_laws raft r) j
  after_put key value r r' res mode alone fits run success j = elim run [
    | inl p ↦ success_applies (put key value) r r' res mode alone fits p success j
    | inr u ↦ success_applies (update key value) r r' res mode alone fits u success j
  ]

  pub handle_get_found :
      (key value : List ℕ) (r : Replica raft)
      → data_of db_laws raft r key ≡ some value
      → handle_get raft key r ≡ record { value = value; spl_rc = pos 0 }
  unfolding handle_get
  handle_get_found key value r h = rw (read_found db_laws raft key value r h) refl

  pub handle_get_missing :
      (key : List ℕ) (r : Replica raft)
      → data_of db_laws raft r key ≡ none
      → ((handle_get raft key r).value ≡ []) × ((handle_get raft key r).spl_rc ≢ pos 0)
  unfolding handle_get
  handle_get_missing key r h =
      let (p, q) = read_missing db_laws raft key r h in
      let miss = eq_ℤ-false _ (pos 0) q in (rw miss refl, rw miss q)

  -- After a put or an update RPC that the client counts as a success, on a leader in blocking mode
  -- that commits no other entry during the call, a
  -- get of the key on the same server returns the value with the code 0.
  pub put_then_get :
      (key value : List ℕ) (r r' : Replica raft) (res : MutationResult)
      → r.return_method ≡ blocking
      → raft.LeadsAlone r.raft_instance
      → Fits (put key value)
      → (handle_put raft key value r ≡ (ok res, r'))
        ⊎ (handle_update raft key value r ≡ (ok res, r'))
      → is_success res ≡ true
      → handle_get raft key r' ≡ record { value = value; spl_rc = pos 0 }
  put_then_get key value r r' res mode alone fits run success = handle_get_found key value r' (
      after_put key value r r' res mode alone fits run success key
      ∙ put_self key value (data_of db_laws raft r))

  -- After a put or an update RPC that the client counts as a success, on a leader in blocking mode
  -- that commits no other entry during the call, a
  -- get of any other key on the same server returns the value that was stored under it before.
  pub put_then_get_other :
      (key value j v : List ℕ) (r r' : Replica raft) (res : MutationResult)
      → r.return_method ≡ blocking
      → raft.LeadsAlone r.raft_instance
      → Fits (put key value)
      → (handle_put raft key value r ≡ (ok res, r'))
        ⊎ (handle_update raft key value r ≡ (ok res, r'))
      → is_success res ≡ true
      → key ≢ j
      → data_of db_laws raft r j ≡ some v
      → handle_get raft j r' ≡ record { value = v; spl_rc = pos 0 }
  put_then_get_other key value j v r r' res mode alone fits run success ne old =
      handle_get_found j v r' (
        after_put key value r r' res mode alone fits run success j
        ∙ put_ne key value j (data_of db_laws raft r) ne
        ∙ old)

  -- After a delete RPC that the client counts as a success, on a leader in blocking mode
  -- that commits no other entry during the call, a get of
  -- the key on the same server returns no value and a code other than 0.
  pub delete_then_get :
      (key : List ℕ) (r r' : Replica raft) (res : MutationResult)
      → r.return_method ≡ blocking
      → raft.LeadsAlone r.raft_instance
      → Fits (delete key)
      → handle_delete raft key r ≡ (ok res, r')
      → is_success res ≡ true
      → ((handle_get raft key r').value ≡ []) × ((handle_get raft key r').spl_rc ≢ pos 0)
  delete_then_get key r r' res mode alone fits run success = handle_get_missing key r' (
      success_applies (delete key) r r' res mode alone fits run success key
      ∙ delete_self key (data_of db_laws raft r))
