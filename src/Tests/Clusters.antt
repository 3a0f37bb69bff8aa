-- ===== src/Tests/Clusters.antt =====
-- A cluster of two servers at a concrete history.
use distributed_replicated_c.Prelude.{false, refl, pos, [], ◌∷◌, none}
use distributed_replicated_c.Nuraft.Raft.{blocking}
use distributed_replicated_c.StateMachine.{commit}
use distributed_replicated_c.StateMachine.Refinement.{Entry, IsEntry}
use distributed_replicated_c.Replica.{Replica}
use distributed_replicated_c.Cluster.{
  Node, Cluster, answers, follows, IsNew, Step, happens, Reach, begins, later,
}
use distributed_replicated_c.Cluster.Invariant.{IsConsistent}
use distributed_replicated_c.Cluster.Preserved.{Reach-IsConsistent}
use distributed_replicated_c.Tests.Buffers.{list_buffers, list_buffer_laws}
use distributed_replicated_c.Tests.Databases.{map_db, map_db_laws}
use distributed_replicated_c.Tests.Operations.{put_payload, serialize_put}
use distributed_replicated_c.Tests.Rafts.{single_raft, single_raft_laws}
use distributed_replicated_c.Tests.Machines.{put_request, put_request-Fits, other_machine}
use distributed_replicated_c.Tests.Servers.{
  server, put_server, accepted, put_run, accepted-is_success,
}

abbrev pub other_server : Replica single_raft
other_server = record { server_id = pos 2; return_method = blocking; raft_instance = other_machine }

abbrev pub first_node : Node single_raft
first_node = record { replica = server; applied = 0; refused = false }

abbrev pub second_node : Node single_raft
second_node = record { replica = other_server; applied = 0; refused = false }

abbrev pub put_entry : Entry list_buffers
put_entry = record { index = 1; request = put_request; payload = put_payload }

pub put_entry-IsEntry : IsEntry put_entry
put_entry-IsEntry = record { plain = tt; fits = put_request-Fits; made = serialize_put }

first_node-IsNew : IsNew single_raft map_db_laws (λ k. none) first_node
unfolding map_db_laws
first_node-IsNew = record { nothing = refl; intact = refl; contents = λ j. refl; mode = refl }

second_node-IsNew : IsNew single_raft map_db_laws (λ k. none) second_node
unfolding map_db_laws
second_node-IsNew = record { nothing = refl; intact = refl; contents = λ j. refl; mode = refl }

-- The first server has answered the put.
abbrev pub leader : Node single_raft
leader = record { replica = put_server; applied = 1; refused = false }

abbrev pub followed_server : Replica single_raft
followed_server = record other_server {
  raft_instance = (commit list_buffers map_db 1 put_payload other_machine).1;
}

-- The second server has committed its entry.
abbrev pub follower : Node single_raft
follower = record { replica = followed_server; applied = 1; refused = false }

abbrev pub answered : Cluster single_raft
answered = record { log = put_entry ∷ []; nodes = leader ∷ second_node ∷ [] }

abbrev pub followed : Cluster single_raft
followed = record { log = put_entry ∷ []; nodes = leader ∷ follower ∷ [] }

pub initial-Reach :
    Reach single_raft map_db_laws
      (λ k. none)
      (record { log = []; nodes = first_node ∷ second_node ∷ [] })
initial-Reach = begins (first_node ∷ second_node ∷ []) (first_node-IsNew, (second_node-IsNew, tt))

pub answered-Reach : Reach single_raft map_db_laws (λ k. none) answered
answered-Reach = later initial-Reach (
    happens [] (second_node ∷ []) refl (
      answers put_entry put_request accepted refl put_entry-IsEntry refl tt put_run
        accepted-is_success))

pub answered-followed : Step single_raft map_db_laws (λ k. none) answered followed
answered-followed =
    happens (leader ∷ []) [] refl
      (follows put_entry refl (record { machine = refl; settings = refl }))

pub followed-Reach : Reach single_raft map_db_laws (λ k. none) followed
followed-Reach = later answered-Reach answered-followed

Reach-IsConsistent_example : IsConsistent single_raft map_db_laws (λ k. none) followed
Reach-IsConsistent_example =
    Reach-IsConsistent list_buffer_laws map_db_laws single_raft_laws (λ k. none) followed-Reach
