-- ===== src/Cluster/Preserved.antt =====
-- Nothing that happens to a server makes it hold anything but the entries that it has committed.
use distributed_replicated_c.Prelude.{
  ℕ, suc, ◌≡◌, refl, sym, ap, ◌∙◌, subst, List, [], ◌∷◌, ◌++◌, length, get_elem?, some, Bool, true,
  false, not, ◌||◌, ℤ, pos, eq_ℤ, eq_ℤ_iff, All, All-append, All-split, All-map, get_elem?-snoc,
  All-get_elem?,
}
use distributed_replicated_c.Result.{Result, ok}
use distributed_replicated_c.Nuraft.Buffer.{BufferApi, BufferLaws}
use distributed_replicated_c.Nuraft.Raft.{RaftApi, RaftLaws}
use distributed_replicated_c.Splinter.{SplinterApi, SplinterLaws}
use distributed_replicated_c.Operation.Request.{Request, Fits}
use distributed_replicated_c.StateMachine.{StateMachine, commit_config}
use distributed_replicated_c.StateMachine.Refinement.{
  Contents, Entry, IsEntry, apply_request, commit-refines,
}
use distributed_replicated_c.Types.{MutationResult, is_success}
use distributed_replicated_c.Replica.{Replica, database, register_thread, dump_cache, clear_cache}
use distributed_replicated_c.Server.Consistency.{data_of, success_applies}
use distributed_replicated_c.Server.Pipeline.{handled_as, handle_mutation}
use distributed_replicated_c.Server.Settings.{handle_mutation-Keeps}
use distributed_replicated_c.Cluster.{
  Node, Cluster, machine_of, Turns, Commits, committed, refusal, Event, answers, appends, follows,
  configures, registers, dumps, clears, idles, Step, happens, joins, Reach, begins, later,
}
use distributed_replicated_c.Cluster.Invariant.{
  Holds, IsConsistent, Holds-append, IsNew-Holds, Event-grows, Holds-suc, Holds-same,
}

not-false : {t : Bool} → not t ≡ false → t ≡ true
not-false {t = true} h = refl
not-false {t = false} h = cc

or_false : {x y : Bool} → (x || y) ≡ false → (x ≡ false) × (y ≡ false)
or_false {x = true} h = cc
or_false {x = false} h = (refl, h)

module _ {b : BufferApi} (laws : BufferLaws b) {s : SplinterApi} (db_laws : SplinterLaws s)
    {Snapshot : Type 0} {raft : RaftApi b s Snapshot} (raft_laws : RaftLaws raft) where
  open db_laws use {contents}

  Turns-data :
      (sm : StateMachine s Snapshot) (r r' : Replica raft)
      → Turns raft sm r r'
      → (j : List ℕ) → data_of db_laws raft r' j ≡ contents sm.spl_handle j
  Turns-data sm r r' t j = ap (λ (m : StateMachine s Snapshot). contents m.spl_handle j) t.machine

  set_database-data :
      (db : s.Db) (r : Replica raft) (j : List ℕ)
      → contents (raft.state_machine (raft.with_database db r.raft_instance)).spl_handle j
        ≡ contents db j
  set_database-data db r j =
      ap (λ (m : StateMachine s Snapshot). contents m.spl_handle j)
        (raft_laws.state_machine-with_database db r.raft_instance)

  register_thread-data :
      (r : Replica raft) (j : List ℕ)
      → data_of db_laws raft (register_thread raft r) j ≡ data_of db_laws raft r j
  unfolding register_thread
  register_thread-data r j =
      set_database-data (s.register_thread (database raft r)) r j
      ∙ db_laws.contents-register_thread (database raft r) j

  clear_cache-data :
      (r : Replica raft) (j : List ℕ)
      → data_of db_laws raft (clear_cache raft r) j ≡ data_of db_laws raft r j
  unfolding clear_cache
  clear_cache-data r j =
      set_database-data (s.clear_cache (database raft r)) r j
      ∙ db_laws.contents-clear_cache (database raft r) j

  register_thread-return_method :
      (r : Replica raft) → (register_thread raft r).return_method ≡ r.return_method
  unfolding register_thread
  register_thread-return_method r = refl

  dump_cache-data :
      (r : Replica raft) (j : List ℕ)
      → data_of db_laws raft (dump_cache raft r) j ≡ data_of db_laws raft r j
  unfolding dump_cache
  dump_cache-data r j =
      set_database-data (s.print_cache (database raft r)) r j
      ∙ db_laws.contents-print_cache (database raft r) j

  dump_cache-return_method :
      (r : Replica raft) → (dump_cache raft r).return_method ≡ r.return_method
  unfolding dump_cache
  dump_cache-return_method r = refl

  clear_cache-return_method :
      (r : Replica raft) → (clear_cache raft r).return_method ≡ r.return_method
  unfolding clear_cache
  clear_cache-return_method r = refl

  commit_config-data :
      (idx : ℕ) (sm : StateMachine s Snapshot) (j : List ℕ)
      → contents (commit_config s idx sm).spl_handle j ≡ contents sm.spl_handle j
  unfolding commit_config
  commit_config-data idx sm j = refl

  Commits-data :
      (e : Entry b) (r r' : Replica raft)
      → IsEntry e
      → Commits raft e r r'
      → refusal raft e r ≡ false
      → (j : List ℕ)
      → data_of db_laws raft r' j ≡ apply_request e.request (data_of db_laws raft r) j
  Commits-data e r r' entry c accepted j =
      Turns-data _ r r' c j
      ∙ (commit-refines laws db_laws e (machine_of raft r) entry (code accepted)).0 j
    where
      code : {rc : ℤ} → not (eq_ℤ rc (pos 0)) ≡ false → rc ≡ pos 0
      code {rc} h = (eq_ℤ_iff rc (pos 0)).0 (not-false h)

  module _ (initial : Contents) where
    Commits-Holds :
        (log : List (Entry b)) (node : Node raft) (e : Entry b) (r' : Replica raft)
        → get_elem? log node.applied ≡ some e
        → IsEntry e
        → Commits raft e node.replica r'
        → Holds raft db_laws initial log node
        → Holds raft db_laws initial log (committed raft e node r')
    Commits-Holds log node e r' at entry c h =
        Holds-suc raft db_laws initial log node e r' (node.refused || refusal raft e node.replica)
          at
          (λ intact.
            let (before, accepted) = or_false intact in
            (before, Commits-data e node.replica r' entry c accepted))
          h (c.settings ∙ h.mode)

    answers-Holds :
        (log : List (Entry b)) (node : Node raft) (e : Entry b) (req : Request)
        (res : MutationResult) (r' : Replica raft)
        → get_elem? log node.applied ≡ some e
        → IsEntry e
        → e.request ≡ handled_as req
        → raft.LeadsAlone node.replica.raft_instance
        → handle_mutation raft req node.replica ≡ (ok res, r')
        → is_success res ≡ true
        → Holds raft db_laws initial log node
        → Holds raft db_laws initial log
            (record { replica = r'; applied = suc node.applied; refused = node.refused })
    answers-Holds log node e req res r' at entry same alone run success h =
        let r = node.replica in
        Holds-suc raft db_laws initial log node e r' node.refused at
          (λ intact. (
            intact,
            λ j.
                success_applies laws db_laws raft_laws req r r' res h.mode alone
                  (subst Fits same entry.fits) run success j
                ∙ ap (λ (q : Request). apply_request q (data_of db_laws raft r) j) (sym same),
          ))
          h
          (ap (λ (t : Result MutationResult × Replica raft). t.1.return_method) (sym run)
            ∙ handle_mutation-Keeps raft req r
            ∙ h.mode)

    at_end :
        (log : List (Entry b)) (n : ℕ) (e : Entry b)
        → n ≡ length log
        → get_elem? (log ++ e ∷ []) n ≡ some e
    at_end log n e at = ap (get_elem? (log ++ e ∷ [])) at ∙ get_elem?-snoc log e

    -- What happens to a server that holds what it has committed leaves it so, and the log well formed.
    pub Event-Holds :
        {log log' : List (Entry b)} {node node' : Node raft}
        → Event raft log node log' node'
        → All IsEntry log
        → Holds raft db_laws initial log node
        → All IsEntry log' × Holds raft db_laws initial log' node'
    Event-Holds {log} {node = node} (answers e req res {r'} at entry same alone run success) es h =
        (
          All-append IsEntry log (e ∷ []) es (entry, tt),
          answers-Holds (log ++ e ∷ []) node e req res r' (at_end log node.applied e at) entry same
              alone run success (Holds-append raft db_laws initial log (e ∷ []) node h),
        )
    Event-Holds {log} {node = node} (appends e {r'} at entry c) es h = (
      All-append IsEntry log (e ∷ []) es (entry, tt),
      Commits-Holds (log ++ e ∷ []) node e r' (at_end log node.applied e at) entry c
          (Holds-append raft db_laws initial log (e ∷ []) node h),
    )
    Event-Holds {log} {node = node} (follows e {r'} at c) es h =
        (es, Commits-Holds log node e r' at (All-get_elem? IsEntry log node.applied e at es) c h)
    Event-Holds {log} {node = node} (configures idx {r'} t) es h = (
      es,
      Holds-same raft db_laws initial log node r'
          (λ j.
            Turns-data _ node.replica r' t j
            ∙ commit_config-data idx (machine_of raft node.replica) j)
          t.settings h,
    )
    Event-Holds {log} {node = node} registers es h = (
      es,
      Holds-same raft db_laws initial log node (register_thread raft node.replica)
          (register_thread-data node.replica) (register_thread-return_method node.replica) h,
    )
    Event-Holds {log} {node = node} dumps es h = (
      es,
      Holds-same raft db_laws initial log node (dump_cache raft node.replica)
          (dump_cache-data node.replica) (dump_cache-return_method node.replica) h,
    )
    Event-Holds {log} {node = node} clears es h = (
      es,
      Holds-same raft db_laws initial log node (clear_cache raft node.replica)
          (clear_cache-data node.replica) (clear_cache-return_method node.replica) h,
    )
    Event-Holds {log} {node = node} (idles {r'} t) es h = (
      es,
      Holds-same raft db_laws initial log node r' (Turns-data _ node.replica r' t) t.settings h,
    )

    Holds-All :
        (log log' : List (Entry b)) (nodes : List (Node raft))
        → ((rest : List (Entry b)) × (log' ≡ log ++ rest))
        → All (Holds raft db_laws initial log) nodes
        → All (Holds raft db_laws initial log') nodes
    Holds-All log log' nodes (rest, e) = All-map nodes (λ node h.
        subst (λ l. Holds raft db_laws initial l node) (sym e)
          (Holds-append raft db_laws initial log rest node h))

    Step-IsConsistent :
        {c d : Cluster raft}
        → Step raft db_laws initial c d
        → IsConsistent raft db_laws initial c
        → IsConsistent raft db_laws initial d
    Step-IsConsistent {c} (happens before behind {node} {node'} {log} at event) inv =
        let P = Holds raft db_laws initial c.log in
        let (fs, ns) = All-split P before (node ∷ behind) (subst (All P) at inv.nodes) in
        let (rest, e, _) = Event-grows raft db_laws initial event in
        let (es, h) = Event-Holds event inv.entries ns.0 in
        record {
          entries = es;
          nodes =
              All-append (Holds raft db_laws initial log) before (node' ∷ behind)
                (Holds-All c.log log before (rest, e) fs)
                (h, Holds-All c.log log behind (rest, e) ns.1);
        }
    Step-IsConsistent {c} (joins node new) inv = record {
      entries = inv.entries;
      nodes = (IsNew-Holds raft db_laws initial c.log node new, inv.nodes);
    }

    -- At any time every server of a cluster whose SplinterDB has refused none of the entries that this
    -- server has committed holds exactly the data that these entries, a front part of the log, leave
    -- when they are replayed in their order; and the log consists of serialized puts and deletes.
    pub Reach-IsConsistent :
        {c : Cluster raft} → Reach raft db_laws initial c → IsConsistent raft db_laws initial c
    Reach-IsConsistent (begins nodes new) = record {
      entries = tt;
      nodes = All-map nodes (IsNew-Holds raft db_laws initial []) new;
    }
    Reach-IsConsistent (later path step) = Step-IsConsistent step (Reach-IsConsistent path)
