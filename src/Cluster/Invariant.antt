-- ===== src/Cluster/Invariant.antt =====
-- What a server of a cluster holds: the data of the entries that it has committed, a front part of
-- the log.
use distributed_replicated_c.Prelude.{
  ℕ, suc, ◌≤◌, ◌≡◌, refl, sym, ap, ◌∙◌, List, [], ◌∷◌, ◌++◌, append-nil, length, take, get_elem?,
  some, Bool, false, All, length-append, take-append_le, take-snoc, arith,
}
use distributed_replicated_c.Nuraft.Buffer.{BufferApi}
use distributed_replicated_c.Nuraft.Raft.{RaftApi, blocking}
use distributed_replicated_c.Splinter.{SplinterApi, SplinterLaws}
use distributed_replicated_c.StateMachine.Refinement.{
  Contents, Entry, IsEntry, apply_request, apply_request_cong, replay,
}
use distributed_replicated_c.Replica.{Replica}
use distributed_replicated_c.Server.Consistency.{data_of}
use distributed_replicated_c.Cluster.{
  Node, Cluster, Event, answers, appends, follows, configures, registers, dumps, clears, idles,
  IsNew,
}

replay-snoc :
    {b : BufferApi} (log : List (Entry b)) (e : Entry b) (m : Contents)
    → replay (log ++ e ∷ []) m ≡ apply_request e.request (replay log m)
replay-snoc [] e m = refl
replay-snoc (d ∷ log) e m = replay-snoc log e (apply_request d.request m)

module _ {b : BufferApi} {s : SplinterApi} {Snapshot : Type 0} (raft : RaftApi b s Snapshot)
    (db_laws : SplinterLaws s) (initial : Contents) where
  -- What a server in blocking mode holds, if its SplinterDB has refused nothing: the entries that it
  -- has committed, replayed in their order.
  pub record Holds (log : List (Entry b)) (node : Node raft) : Type 0 where
    pub within : node.applied ≤ length log
    pub contents :
        node.refused ≡ false
        → (j : List ℕ)
        → data_of db_laws raft node.replica j ≡ replay (take node.applied log) initial j
    pub mode : node.replica.return_method ≡ blocking

  pub record IsConsistent (c : Cluster raft) : Type 0 where
    pub entries : All IsEntry c.log
    pub nodes : All (Holds c.log) c.nodes

  pub Holds-append :
      (log rest : List (Entry b)) (node : Node raft) → Holds log node → Holds (log ++ rest) node
  Holds-append log rest node h = record {
    within = omega (arith, h.within, length-append log rest);
    contents = λ intact j.
        (h.contents intact j
          ∙ ap (λ l. replay l initial j) (sym (take-append_le node.applied log rest h.within)));
    mode = h.mode;
  }

  pub IsNew-Holds :
      (log : List (Entry b)) (node : Node raft) → IsNew raft db_laws initial node → Holds log node
  IsNew-Holds log node n = record {
    within = omega (arith, n.nothing);
    contents = λ intact j. n.contents j ∙ ap (λ k. replay (take k log) initial j) (sym n.nothing);
    mode = n.mode;
  }

  pub Event-grows :
      {log log' : List (Entry b)} {node node' : Node raft}
      → Event raft log node log' node'
      → (rest : List (Entry b)) × (log' ≡ log ++ rest) × (node.applied ≤ node'.applied)
  Event-grows (answers e req res at entry same alone run success) = (e ∷ [], refl, omega arith)
  Event-grows (appends e at entry c) = (e ∷ [], refl, omega arith)
  Event-grows {log} (follows e at c) = ([], sym (append-nil log), omega arith)
  Event-grows {log} (configures idx t) = ([], sym (append-nil log), omega arith)
  Event-grows {log} registers = ([], sym (append-nil log), omega arith)
  Event-grows {log} dumps = ([], sym (append-nil log), omega arith)
  Event-grows {log} clears = ([], sym (append-nil log), omega arith)
  Event-grows {log} (idles t) = ([], sym (append-nil log), omega arith)

  -- One more entry on a server.
  pub Holds-suc :
      (log : List (Entry b)) (node : Node raft) (e : Entry b) (r' : Replica raft) (refused : Bool)
      → get_elem? log node.applied ≡ some e
      → (refused ≡ false
          → (node.refused ≡ false)
            × ((j : List ℕ)
                → data_of db_laws raft r' j
                  ≡ apply_request e.request (data_of db_laws raft node.replica) j))
      → Holds log node
      → r'.return_method ≡ blocking
      → Holds log (record { replica = r'; applied = suc node.applied; refused = refused })
  Holds-suc log node e r' refused at step h mode =
      let (lt, taken) = take-snoc node.applied log e at in
      record {
        within = omega (arith, lt);
        contents = λ intact j.
            (let (before, change) = step intact in
              change j
              ∙ apply_request_cong e.request _ _ (h.contents before) j
              ∙ ap (λ m. m j) (sym (replay-snoc (take node.applied log) e initial))
              ∙ ap (λ l. replay l initial j) (sym taken));
        mode = mode;
      }

  -- A server whose data and settings stay.
  pub Holds-same :
      (log : List (Entry b)) (node : Node raft) (r' : Replica raft)
      → ((j : List ℕ) → data_of db_laws raft r' j ≡ data_of db_laws raft node.replica j)
      → r'.return_method ≡ node.replica.return_method
      → Holds log node
      → Holds log (record node { replica = r' })
  Holds-same log node r' same settings h = record {
    within = h.within;
    contents = λ intact j. same j ∙ h.contents intact j;
    mode = settings ∙ h.mode;
  }
