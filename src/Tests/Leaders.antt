-- ===== src/Tests/Leaders.antt =====
-- A client whose first server is not the leader any more.
use distributed_replicated_c.Prelude.{ℕ, ◌+◌, ◌≡◌, refl, pos, negsuc, [], ◌∷◌, arith}
use distributed_replicated_c.Result.{Result, ok, throws, undefined}
use distributed_replicated_c.Types.{MutationResult, was_accepted}
use distributed_replicated_c.Operation.Request.{put}
use distributed_replicated_c.Server.{
  ClientRpc, get_leader_id, splinterdb_put, Reply, id_reply, mutation_reply,
}
use distributed_replicated_c.Client.{
  RpcApi, Client, ClientState, call_as, find_client, find_leader_id, first_leader, ask_leader,
  leader_round, or_next,
}
use distributed_replicated_c.Client.Answers.{mutate}
use distributed_replicated_c.Client.Settled.{Replies, Settles, accepts, moves, mutate-Settles}
use distributed_replicated_c.Tests.Servers.{accepted}

abbrev pub refused : MutationResult
refused = record { spl_rc = pos 0; raft_rc = negsuc 2; msg = "not leader" }

pub data Peer : Type 0 where
  follower leader : Peer

abbrev pub two_servers : Peer → ClientRpc → Result Reply
two_servers follower (splinterdb_put key value) = ok (mutation_reply refused)
two_servers leader (splinterdb_put key value) = ok (mutation_reply accepted)
two_servers _ get_leader_id = ok (id_reply (pos 2))
two_servers _ _ = throws undefined

-- The world is the time: a call takes a millisecond.
abbrev pub moved_rpc : RpcApi
moved_rpc = record {
  Connection = Peer;
  World = ℕ;
  call = λ c op w. (two_servers c op, w + 1);
  sleep_ms = λ ms w. w + ms;
}

abbrev pub client : Client moved_rpc
client = record { clients = (pos 1, follower) ∷ (pos 2, leader) ∷ []; num_retries = 3 }

abbrev before : ClientState moved_rpc
before = record { read_policy = pos 1 ∷ pos 2 ∷ []; leader_id = pos 1; world = 0 }

-- A call to each server, one for the leader, and a pause of 100 ms.
abbrev pub after : ClientState moved_rpc
after = record before { leader_id = pos 2; world = 103 }

leader_found : find_leader_id moved_rpc client 1 ≡ (ok (pos 2), 2)
unfolding find_leader_id first_leader ask_leader leader_round or_next call_as
leader_found = refl

first_reply : Replies client (splinterdb_put (97 ∷ []) (98 ∷ [])) before refused 1
unfolding find_client
first_reply = record { connection = follower; known = refl; asked = refl }

second_reply :
    Replies client (splinterdb_put (97 ∷ []) (98 ∷ [])) (record after { world = 102 }) accepted 103
unfolding find_client
second_reply = record { connection = leader; known = refl; asked = refl }

put-Settles : Settles client (splinterdb_put (97 ∷ []) (98 ∷ [])) accepted after 1 before
unfolding was_accepted
put-Settles =
    moves refused 1 2 (pos 2) first_reply refl leader_found (accepts second_reply refl refl)

mutate-Settles_example : mutate client (put (97 ∷ []) (98 ∷ [])) before ≡ (ok accepted, after)
mutate-Settles_example =
    mutate-Settles client (put (97 ∷ []) (98 ∷ [])) accepted 1 before after (omega arith)
      put-Settles
