-- ===== src/Nuraft/Raft.antt =====
-- nuraft::raft_server and what it hands out. The library is not part of the repository: its
-- operations are fields of a record, its documented behaviour another.
use distributed_replicated_c.Prelude.{
  ℕ, ℤ, pos, ◌≡◌, Bool, true, Option, some, List, [], ◌∷◌, String,
}
use distributed_replicated_c.Result.{ok}
use distributed_replicated_c.Nuraft.Buffer.{BufferApi}
use distributed_replicated_c.Splinter.{SplinterApi}
use distributed_replicated_c.StateMachine.{StateMachine, commit}

-- What the getters of a cmd_result give; a null pointer is `none`.
pub record RaftResult (Buffer : Type 0) : Type 0 where
  pub accepted : Bool
  pub has_result : Bool
  pub result_code : ℤ
  pub result : Option Buffer
  pub result_str : String

pub data ReturnMethod : Type 0 where
  blocking async_handler : ReturnMethod

-- `state_machine` is the machine that the server was launched with, as it stands; the program keeps
-- a pointer to it, and `with_database` is a change to the database behind that pointer.
pub record RaftApi (b : BufferApi) (s : SplinterApi) (Snapshot : Type 0) : Type 1 where
  pub Server : Type 0
  pub SrvConfig : Type 0
  -- srv_config(id, dc_id, endpoint, aux, learner)
  pub srv_config : ℤ → ℤ → String → String → Bool → SrvConfig
  pub get_id : SrvConfig → ℤ
  pub get_aux : SrvConfig → String
  pub append_entries : List b.Buffer → Server → RaftResult b.Buffer × Server
  pub add_srv : SrvConfig → Server → RaftResult b.Buffer × Server
  pub get_leader : Server → ℤ
  pub get_srv_config : ℤ → Server → Option SrvConfig
  pub get_srv_config_all : Server → List SrvConfig
  pub shutdown : ℕ → Server → Server
  pub state_machine : Server → StateMachine s Snapshot
  pub with_database : s.Db → Server → Server
  -- The server leads, and commits no entry but the appended one during its next `append_entries`. The
  -- program never asks this: theorems that depend on it have it as a hypothesis.
  pub LeadsAlone : Server → Type 0

-- In the blocking mode `append_entries` of a leader returns the code OK, which is 0, only after the
-- leader committed the entry, and hands out what its state machine returned. The law speaks of a
-- leader that commits no other entry during the call; a server that forwards the request to the leader
-- is not one.
pub record RaftLaws {b : BufferApi} {s : SplinterApi} {Snapshot : Type 0}
    (raft : RaftApi b s Snapshot) : Type 0 where
  pub append_entries_ok :
      (payload : b.Buffer) (srv : raft.Server)
      → raft.LeadsAlone srv
      → (raft.append_entries (payload ∷ []) srv).0.result_code ≡ pos 0
      → let (res, srv') = raft.append_entries (payload ∷ []) srv in
        (idx : ℕ) × (reply : b.Buffer) × (commit b s idx payload (raft.state_machine srv)
          ≡ (ok reply, raft.state_machine srv'))
        × (res.accepted ≡ true)
        × (res.has_result ≡ true)
        × (res.result ≡ some reply)
  pub state_machine-with_database :
      (db : s.Db) (srv : raft.Server)
      → raft.state_machine (raft.with_database db srv)
        ≡ (let sm = raft.state_machine srv in record sm { spl_handle = db })
