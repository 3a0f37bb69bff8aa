-- ===== src/Replica/Settings.antt =====
-- The return method of a replica is settled when it starts.
use distributed_replicated_c.Prelude.{◌≡◌, refl, ◌∙◌}
use distributed_replicated_c.Result.{Result, ok, throws}
use distributed_replicated_c.Exec.{Exec, continue, lift, ◌>>=◌}
use distributed_replicated_c.Nuraft.Buffer.{BufferApi}
use distributed_replicated_c.Nuraft.Raft.{
  RaftApi, RaftResult, ReturnMethod, blocking, async_handler,
}
use distributed_replicated_c.Splinter.{SplinterApi}
use distributed_replicated_c.Operation.{Operation, serialize}
use distributed_replicated_c.Replica.{Replica, append_entries, by_return_method, append_log}

module _ {b : BufferApi} {s : SplinterApi} {Snapshot : Type 0} {raft : RaftApi b s Snapshot} where
  abbrev pub Keeps : {A : Type 0} → Exec (Replica raft) A → Type 0
  Keeps m = (r : Replica raft) → (m r).1.return_method ≡ r.return_method

  pub Keeps->>= :
      {A B : Type 0} (m : Exec (Replica raft) A) (f : A → Exec (Replica raft) B)
      → Keeps m
      → ((a : A) → Keeps (f a))
      → Keeps (m >>= f)
  Keeps->>= {A} {B} m f k l r = by_result (m r).0 ∙ k r
    where
      by_result : (x : Result A) → (continue x f (m r).1).1.return_method ≡ (m r).1.return_method
      by_result (ok a) = l a (m r).1
      by_result (throws e) = refl

  by_return_method-Keeps :
      (mode : ReturnMethod) (ret : RaftResult b.Buffer) → Keeps (by_return_method raft mode ret)
  unfolding by_return_method
  by_return_method-Keeps blocking ret r = refl
  by_return_method-Keeps async_handler ret r = refl

  append_entries-Keeps : (new_log : b.Buffer) → Keeps (append_entries raft new_log)
  unfolding append_entries
  append_entries-Keeps new_log r = refl

  pub append_log-Keeps : (op : Operation) → Keeps (append_log raft op)
  unfolding append_log
  append_log-Keeps op r =
      Keeps->>= (lift (serialize b op))
        (λ new_log. append_entries raft new_log >>= by_return_method raft r.return_method)
        (λ r'. refl)
        (λ new_log.
          Keeps->>= (append_entries raft new_log) (by_return_method raft r.return_method)
            (append_entries-Keeps new_log) (by_return_method-Keeps r.return_method))
        r
