-- ===== src/Tests/Sessions.antt =====
-- A client that reads from a cluster of two servers, at a concrete history.
use distributed_replicated_c.Prelude.{
  false, inr, ◌≤◌, ◌≡◌, refl, pos, [], ◌∷◌, none, ℕ, take, arith,
}
use distributed_replicated_c.Result.{ok}
use distributed_replicated_c.StateMachine.Refinement.{replay}
use distributed_replicated_c.Types.{ReadResult}
use distributed_replicated_c.Server.{handle, handle_get}
use distributed_replicated_c.Client.{ClientState, call_as, find_client, get, read_server}
use distributed_replicated_c.ReadPolicy.{next_server}
use distributed_replicated_c.Cluster.{Step, happens, answers}
use distributed_replicated_c.Cluster.Reads.{Answers}
use distributed_replicated_c.Cluster.Durable.{
  Acknowledges, Steps, stays, goes, acknowledged-Answers,
}
use distributed_replicated_c.Cluster.Monotone.{gets-advance}
use distributed_replicated_c.Cluster.Clients.{ServesCluster, client_get-Answers}
use distributed_replicated_c.Tests.Buffers.{list_buffer_laws}
use distributed_replicated_c.Tests.Databases.{map_db_laws}
use distributed_replicated_c.Tests.Rafts.{single_raft, single_raft_laws}
use distributed_replicated_c.Tests.Machines.{put_request}
use distributed_replicated_c.Tests.Servers.{put_server, accepted, put_run, accepted-is_success}
use distributed_replicated_c.Tests.Connections.{live_rpc, servers, client}
use distributed_replicated_c.Tests.Clusters.{
  first_node, second_node, leader, follower, put_entry, put_entry-IsEntry, answered, followed,
  followed_server, other_server, answered-Reach, initial-Reach, answered-followed, followed-Reach,
}

-- Behind the connection is the second server of the cluster.
abbrev cluster : ServesCluster single_raft live_rpc
cluster = record {
  servers = servers;
  cluster_of = λ w. record {
    log = put_entry ∷ [];
    nodes = leader ∷ record { replica = w.0; applied = 1; refused = false } ∷ [];
  };
  node_of = λ c w. record { replica = w.0; applied = 1; refused = false };
  before = λ c w. leader ∷ [];
  behind = λ c w. [];
  member = λ c w. refl;
  replica = λ c w. refl;
}

abbrev before : ClientState live_rpc
before = record { read_policy = pos 1 ∷ []; leader_id = pos 1; world = (followed_server, refl) }

abbrev stored : ReadResult
stored = record { value = 98 ∷ 99 ∷ []; spl_rc = pos 0 }

get_run :
    (st : ClientState live_rpc) × (get live_rpc client (97 ∷ []) before
      ≡ (ok (handle_get single_raft (97 ∷ []) followed_server), st))
unfolding get read_server next_server find_client call_as handle
get_run = (_, refl)

first_answer :
    Step single_raft map_db_laws
      (λ k. none)
      (record { log = []; nodes = first_node ∷ second_node ∷ [] })
      answered
first_answer = happens [] (second_node ∷ []) refl (
    answers put_entry put_request accepted refl put_entry-IsEntry refl tt put_run
      accepted-is_success)

acknowledged :
    Acknowledges single_raft map_db_laws
      (λ k. none)
      put_request
      (record { log = []; nodes = first_node ∷ second_node ∷ [] })
      answered
acknowledged = record {
  before = [];
  behind = second_node ∷ [];
  server = first_node;
  place = refl;
  res = accepted;
  replica = put_server;
  run = put_run;
  success = accepted-is_success;
  steps = goes stays first_answer;
  earlier = [];
  entry = put_entry;
  more = [];
  same = refl;
  log = refl;
}

steps : Steps single_raft map_db_laws (λ k. none) answered followed
steps = goes stays answered-followed

acknowledged-Answers_example : handle_get single_raft (97 ∷ []) followed_server ≡ stored
acknowledged-Answers_example =
    acknowledged-Answers list_buffer_laws map_db_laws single_raft_laws (λ k. none) put_request
      (leader ∷ []) [] follower initial-Reach acknowledged steps refl refl (omega arith)
      (inr refl, tt)

client_get-Answers_example :
    (n : ℕ) × (n ≤ 1)
    × Answers
        (replay (take n (put_entry ∷ [])) (λ k. none) (97 ∷ []))
        (handle_get single_raft (97 ∷ []) followed_server)
client_get-Answers_example =
    client_get-Answers list_buffer_laws map_db_laws single_raft_laws (λ k. none) cluster client
      (97 ∷ []) (handle_get single_raft (97 ∷ []) followed_server) before get_run.0 followed-Reach
      (λ id k known. refl) get_run.1

gets-advance_example :
    (0 ≤ 1)
    × (1 ≤ 1)
    × Answers none (handle_get single_raft (97 ∷ []) other_server)
    × Answers
        (replay (put_entry ∷ []) (λ k. none) (97 ∷ []))
        (handle_get single_raft (97 ∷ []) followed_server)
gets-advance_example =
    gets-advance list_buffer_laws map_db_laws single_raft_laws (λ k. none) (97 ∷ []) 1 1 second_node
      follower answered-Reach refl steps refl refl refl refl
