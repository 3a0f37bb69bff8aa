-- ===== src/Server/Followers.antt =====
-- The server that answers the clients, and the replicas that commit the entries of its log.
use distributed_replicated_c.Prelude.{ℕ, ◌≡◌, refl, sym, ap, ◌∙◌, subst, List, [], ◌∷◌, true, All}
use distributed_replicated_c.Result.{Result, ok}
use distributed_replicated_c.Nuraft.Buffer.{BufferApi, BufferLaws}
use distributed_replicated_c.Nuraft.Raft.{RaftApi, RaftLaws, blocking}
use distributed_replicated_c.Splinter.{SplinterApi, SplinterLaws}
use distributed_replicated_c.Operation.Request.{Request, Fits}
use distributed_replicated_c.StateMachine.{StateMachine}
use distributed_replicated_c.Types.{MutationResult, is_success}
use distributed_replicated_c.StateMachine.Refinement.{
  Entry, IsEntry, AllSucceed, commit_log, replay, replay_cong, apply_request, commit_log-refines,
}
use distributed_replicated_c.Replica.{Replica}
use distributed_replicated_c.Server.Consistency.{data_of, success_applies}
use distributed_replicated_c.Server.Pipeline.{handled_as, handle_mutation}
use distributed_replicated_c.Server.Settings.{handle_mutation-Keeps}

module _ {b : BufferApi} {s : SplinterApi} {Snapshot : Type 0} (raft : RaftApi b s Snapshot) where
  -- A leader, which commits nothing else, answers one mutation RPC after the other, each with a
  -- success, and the entries of the
  -- log are those of the requests, in their order.
  pub data Served : List (Entry b) → Replica raft → Replica raft → Type 0 where
    nothing : {r : Replica raft} → Served [] r r
    served :
        {e : Entry b} {log : List (Entry b)} {r r' r'' : Replica raft} (req : Request)
        (res : MutationResult)
        → e.request ≡ handled_as req
        → raft.LeadsAlone r.raft_instance
        → handle_mutation raft req r ≡ (ok res, r')
        → is_success res ≡ true
        → Served log r' r''
        → Served (e ∷ log) r r''

module _ {b : BufferApi} (laws : BufferLaws b) {s : SplinterApi} (db_laws : SplinterLaws s)
    {Snapshot : Type 0} {raft : RaftApi b s Snapshot} (raft_laws : RaftLaws raft) where
  Served-replay :
      {log : List (Entry b)} {r r' : Replica raft}
      → Served raft log r r'
      → r.return_method ≡ blocking
      → All IsEntry log
      → (j : List ℕ) → data_of db_laws raft r' j ≡ replay log (data_of db_laws raft r) j
  Served-replay nothing mode entries j = refl
  Served-replay (served {e} {log} {r} {r'} req res same alone run success rest) mode entries j =
      let kept : r'.return_method ≡ blocking =
        ap (λ (t : Result MutationResult × Replica raft). t.1.return_method) (sym run)
        ∙ handle_mutation-Keeps raft req r
        ∙ mode in
      let fits : Fits (handled_as req) = subst Fits same entries.0.fits in
      Served-replay rest kept entries.1 j
      ∙ replay_cong log (data_of db_laws raft r') (apply_request e.request (data_of db_laws raft r))
          (λ k.
            success_applies laws db_laws raft_laws req r r' res mode alone fits run success k
            ∙ ap (λ (q : Request). apply_request q (data_of db_laws raft r) k) (sym same))
          j

  -- A leader in blocking mode, which commits nothing else, answers a sequence of mutation RPCs, each with a success. A replica,
  -- possibly on another kind of database, starts with the same data as that server and commits the
  -- entries of these requests in their order, each of which its SplinterDB accepts. Then it holds the
  -- same value under every key as the server does after its answers.
  pub Served-followed :
      {t : SplinterApi} (t_laws : SplinterLaws t) (log : List (Entry b)) (r r' : Replica raft)
      (y : StateMachine t Snapshot)
      → Served raft log r r'
      → r.return_method ≡ blocking
      → All IsEntry log
      → AllSucceed log y
      → ((j : List ℕ) → data_of db_laws raft r j ≡ t_laws.contents y.spl_handle j)
      → (j : List ℕ) → data_of db_laws raft r' j ≡ t_laws.contents (commit_log log y).spl_handle j
  Served-followed t_laws log r r' y run mode entries succeed same j =
      Served-replay run mode entries j
      ∙ replay_cong log _ _ same j
      ∙ sym ((commit_log-refines laws t_laws log y entries succeed).0 j)
