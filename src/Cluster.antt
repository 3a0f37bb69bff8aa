-- ===== src/Cluster.antt =====
-- The servers of a cluster: src/server/server.cpp on every machine, each with the replica of
-- src/server/replica.cpp behind it, and the log that Raft makes all of them commit.
pub mod Invariant
pub mod Preserved
pub mod Reads
pub mod Durable
pub mod Monotone
pub mod Clients
pub mod Sessions
use distributed_replicated_c.Prelude.{
  ℕ, suc, ◌≡◌, pos, List, [], ◌∷◌, ◌++◌, length, get_elem?, some, Bool, true, false, not, ◌||◌,
  eq_ℤ, All,
}
use distributed_replicated_c.Result.{ok}
use distributed_replicated_c.Nuraft.Buffer.{BufferApi}
use distributed_replicated_c.Nuraft.Raft.{RaftApi, blocking}
use distributed_replicated_c.Splinter.{SplinterApi, SplinterLaws}
use distributed_replicated_c.Operation.Request.{Request}
use distributed_replicated_c.StateMachine.{
  StateMachine, register_commit_thread, commit, commit_config,
}
use distributed_replicated_c.StateMachine.Commit.{execute}
use distributed_replicated_c.StateMachine.Refinement.{Contents, Entry, IsEntry}
use distributed_replicated_c.Types.{MutationResult, is_success}
use distributed_replicated_c.Replica.{Replica, register_thread, dump_cache, clear_cache}
use distributed_replicated_c.Server.Consistency.{data_of}
use distributed_replicated_c.Server.Pipeline.{handled_as, handle_mutation}

module _ {b : BufferApi} {s : SplinterApi} {Snapshot : Type 0} (raft : RaftApi b s Snapshot) where
  -- A server, with the number of entries of the log that its state machine has committed, and whether
  -- its SplinterDB has refused one of them. Such an entry counts as committed all the same.
  pub record Node : Type 0 where
    pub replica : Replica raft
    pub applied : ℕ
    pub refused : Bool

  -- The entries that are committed anywhere, in their order, and the servers.
  pub record Cluster : Type 0 where
    pub log : List (Entry b)
    pub nodes : List Node

  abbrev pub machine_of : Replica raft → StateMachine s Snapshot
  machine_of r = raft.state_machine r.raft_instance

  -- The state machine of one replica becomes `sm`, and its settings stay.
  pub record Turns (sm : StateMachine s Snapshot) (r r' : Replica raft) : Type 0 where
    pub machine : machine_of r' ≡ sm
    pub settings : r'.return_method ≡ r.return_method

  -- Whether SplinterDB refuses an entry that the state machine of the replica commits.
  abbrev pub refusal : Entry b → Replica raft → Bool
  refusal e r =
      not
        (eq_ℤ (execute s e.request (register_commit_thread s (machine_of r)).spl_handle).0 (pos 0))

  -- The state machine of one replica commits an entry.
  abbrev pub Commits : Entry b → Replica raft → Replica raft → Type 0
  Commits e r r' = Turns (commit b s e.index e.payload (machine_of r)).1 r r'

  -- The server after it.
  abbrev pub committed : Entry b → Node → Replica raft → Node
  committed e node r' = record {
    replica = r';
    applied = suc node.applied;
    refused = node.refused || refusal e node.replica;
  }

  -- What can happen to one server, with the log before and after it. Only a server appends to the log
  -- that has committed all of it. An answer of a server that forwards the request, or that commits
  -- other entries during the call, is several events: the commits, each on its server, and `idles`.
  pub data Event (log : List (Entry b)) (node : Node) : List (Entry b) → Node → Type 0 where
    -- A leader answers a mutation RPC with a success, and commits no other entry during the call.
    answers :
        (e : Entry b) (req : Request) (res : MutationResult) {r' : Replica raft}
        → node.applied ≡ length log
        → IsEntry e
        → e.request ≡ handled_as req
        → raft.LeadsAlone node.replica.raft_instance
        → handle_mutation raft req node.replica ≡ (ok res, r')
        → is_success res ≡ true
        → Event log node
            (log ++ e ∷ [])
            (record { replica = r'; applied = suc node.applied; refused = node.refused })
    -- A new entry is committed, first on this server.
    appends :
        (e : Entry b) {r' : Replica raft}
        → node.applied ≡ length log
        → IsEntry e
        → Commits e node.replica r'
        → Event log node (log ++ e ∷ []) (committed e node r')
    -- A server commits the next entry of the log.
    follows :
        (e : Entry b) {r' : Replica raft}
        → get_elem? log node.applied ≡ some e
        → Commits e node.replica r'
        → Event log node log (committed e node r')
    -- Raft commits a change of the cluster's servers.
    configures :
        (idx : ℕ) {r' : Replica raft}
        → Turns (commit_config s idx (machine_of node.replica)) node.replica r'
        → Event log node log (record node { replica = r' })
    -- A worker thread of the server starts, and a client dumps or clears the cache.
    registers : Event log node log (record node { replica = register_thread raft node.replica })
    dumps : Event log node log (record node { replica = dump_cache raft node.replica })
    clears : Event log node log (record node { replica = clear_cache raft node.replica })
    -- Anything that leaves the state machine alone: an election, a lost message, a server that joins.
    idles :
        {r' : Replica raft}
        → Turns (machine_of node.replica) node.replica r'
        → Event log node log (record node { replica = r' })

  -- A server that has committed nothing, in blocking mode, on a database with the contents `initial`.
  pub record IsNew (db_laws : SplinterLaws s) (initial : Contents) (node : Node) : Type 0 where
    pub nothing : node.applied ≡ 0
    pub intact : node.refused ≡ false
    pub contents : (j : List ℕ) → data_of db_laws raft node.replica j ≡ initial j
    pub mode : node.replica.return_method ≡ blocking

  module _ (db_laws : SplinterLaws s) (initial : Contents) where
    pub data Step (c : Cluster) : Cluster → Type 0 where
      happens :
          (before behind : List Node) {node node' : Node} {log : List (Entry b)}
          → c.nodes ≡ before ++ node ∷ behind
          → Event c.log node log node'
          → Step c (record { log = log; nodes = before ++ node' ∷ behind })
      joins :
          (node : Node) → IsNew db_laws initial node → Step c (record c { nodes = node ∷ c.nodes })

    -- The clusters that new servers come to, step by step.
    pub data Reach : Cluster → Type 0 where
      begins :
          (nodes : List Node)
          → All (IsNew db_laws initial) nodes
          → Reach (record { log = []; nodes = nodes })
      later : {c d : Cluster} → Reach c → Step c d → Reach d
