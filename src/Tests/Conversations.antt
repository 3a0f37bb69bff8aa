-- ===== src/Tests/Conversations.antt =====
-- A client that writes to a cluster of two servers, and one that reads from it.
use distributed_replicated_c.Prelude.{
  inr, drop, take, ◌≡◌, ◌≢◌, refl, sym, ap, ◌∙◌, subst, ◌⊎◌, pos, [], ◌∷◌, List, ℕ, none, length,
  ◌++◌, arith,
}
use distributed_replicated_c.Exec.{pure, continue}
use distributed_replicated_c.Result.{Result, ok, throws, ok-injective, undefined}
use distributed_replicated_c.StateMachine.Refinement.{Entry, bytes_discrete}
use distributed_replicated_c.Operation.{serialize}
use distributed_replicated_c.Operation.Request.{Request, put, update, delete, operation_of}
use distributed_replicated_c.Nuraft.Raft.{blocking}
use distributed_replicated_c.Types.{MutationResult, was_accepted}
use distributed_replicated_c.Replica.{Replica}
use distributed_replicated_c.Server.{
  ClientRpc, ping, get_srv_id, get_leader_id, get_all_servers, splinterdb_dumpcache,
  splinterdb_clearcache, get_srv_endpoint, splinterdb_get, splinterdb_put, splinterdb_update,
  splinterdb_delete, Reply, mutation_reply, read_reply, handle, handle_get,
}
use distributed_replicated_c.Server.Pipeline.{handled_as}
use distributed_replicated_c.Client.{
  RpcApi, Client, ClientState, as_mutation, call_as, find_client, get, read_server,
  get_leader_handle, mutation_round, mutation_loop,
}
use distributed_replicated_c.Client
use distributed_replicated_c.Client.Answers.{mutate, rpc_of}
use distributed_replicated_c.Client.Applied.{IsUnknown}
use distributed_replicated_c.ReadPolicy.{next_server}
use distributed_replicated_c.Cluster.{Node, Cluster, Reach, happens, answers}
use distributed_replicated_c.Cluster.Durable.{LeavesAlone, Steps, stays, goes}
use distributed_replicated_c.Cluster.Clients.{ServesCluster}
use distributed_replicated_c.Cluster.Sessions.{Replicates, mutate-get}
use distributed_replicated_c.Tests.Buffers.{list_buffers, list_buffer_laws}
use distributed_replicated_c.Tests.Databases.{map_db_laws}
use distributed_replicated_c.Tests.Rafts.{single_raft, single_raft_laws}
use distributed_replicated_c.Tests.Operations.{put_payload, serialize_put}
use distributed_replicated_c.Tests.Machines.{put_request, put_request-Fits}
use distributed_replicated_c.Tests.Servers.{
  server, put_server, accepted, put_run, accepted-is_success,
}
use distributed_replicated_c.Tests.Clusters.{
  first_node, second_node, leader, answered, initial-Reach, answered-Reach, put_entry,
  put_entry-IsEntry,
}

throws-ok : {A : Type 0} {x : A} → ◌≢◌ {A = Result A} (throws undefined) (ok x)
throws-ok = λ h. cc

-- Before and after the put of Tests/Servers.
data Moment : Type 0 where
  fresh written : Moment

abbrev put_rpc : ClientRpc
put_rpc = splinterdb_put (97 ∷ []) (98 ∷ 99 ∷ [])

put_key :
    {key key' value value' : List ℕ}
    → splinterdb_put key value ≡ splinterdb_put key' value'
    → key ≡ key'
put_key p = cc

put_value :
    {key key' value value' : List ℕ}
    → splinterdb_put key value ≡ splinterdb_put key' value'
    → value ≡ value'
put_value p = cc

is_put : (op : ClientRpc) → Dec (op ≡ put_rpc)
is_put (splinterdb_put key value) = elim (bytes_discrete key (97 ∷ [])) [
  | no n ↦ no (λ p. n (put_key p))
  | yes p ↦ elim (bytes_discrete value (98 ∷ 99 ∷ [])) [
    | no n ↦ no (λ q. n (put_value q))
    | yes q ↦ yes (cc)
  ]
]
is_put ping = no (λ p. cc)
is_put get_srv_id = no (λ p. cc)
is_put get_leader_id = no (λ p. cc)
is_put get_all_servers = no (λ p. cc)
is_put splinterdb_dumpcache = no (λ p. cc)
is_put splinterdb_clearcache = no (λ p. cc)
is_put (get_srv_endpoint id) = no (λ p. cc)
is_put (splinterdb_get key) = no (λ p. cc)
is_put (splinterdb_update key value) = no (λ p. cc)
is_put (splinterdb_delete key) = no (λ p. cc)

-- The answer to the put; no other call is answered before it.
abbrev answered_put : {op : ClientRpc} → Dec (op ≡ put_rpc) → Result Reply × Moment
answered_put (yes p) = (ok (mutation_reply accepted), written)
answered_put (no n) = (throws undefined, fresh)

abbrev answered_get : ClientRpc → Result Reply × Moment
answered_get (splinterdb_get key) =
    (ok (read_reply (handle_get single_raft key put_server)), written)
answered_get op = (throws undefined, written)

abbrev call : Unit {0} → ClientRpc → Moment → Result Reply × Moment
call c op fresh = answered_put (is_put op)
call c op written = answered_get op

abbrev short_rpc : RpcApi
short_rpc = record { Connection = Unit {0}; World = Moment; call = call; sleep_ms = λ ms w. w }

abbrev server_of : Unit {0} → Moment → Replica single_raft
server_of c fresh = server
server_of c written = put_server

abbrev cluster_of : Moment → Cluster single_raft
cluster_of fresh = record { log = []; nodes = first_node ∷ second_node ∷ [] }
cluster_of written = answered

abbrev node_of : Unit {0} → Moment → Node single_raft
node_of c fresh = first_node
node_of c written = leader

handle-put_rpc : handle single_raft put_rpc server ≡ (ok (mutation_reply accepted), put_server)
unfolding handle
handle-put_rpc =
    ap
      (λ (t : Result MutationResult × Replica single_raft).
        continue t.0 (λ x. pure (mutation_reply x)) t.1)
      put_run

put_handled :
    (op : ClientRpc) (w' : Moment) (reply : Reply) (d : Dec (op ≡ put_rpc))
    → answered_put d ≡ (ok reply, w')
    → handle single_raft op server ≡ (ok reply, server_of tt w')
put_handled op w' reply (no n) h = let p : throws undefined ≡ ok reply = ap (λ t. t.0) h in cc
put_handled op w' reply (yes p) h =
    ap (λ o. handle single_raft o server) p
    ∙ handle-put_rpc
    ∙ ap (λ (t : Result Reply × Moment). (t.0, server_of tt t.1)) h

get_handled :
    (op : ClientRpc) (w' : Moment) (reply : Reply)
    → answered_get op ≡ (ok reply, w')
    → handle single_raft op put_server ≡ (ok reply, server_of tt w')
unfolding handle
get_handled (splinterdb_get key) w' reply h =
    ap (λ (t : Result Reply × Moment). (t.0, server_of tt t.1)) h
get_handled ping w' reply h = cc
get_handled get_srv_id w' reply h = cc
get_handled get_leader_id w' reply h = cc
get_handled get_all_servers w' reply h = cc
get_handled splinterdb_dumpcache w' reply h = cc
get_handled splinterdb_clearcache w' reply h = cc
get_handled (get_srv_endpoint id) w' reply h = cc
get_handled (splinterdb_put key value) w' reply h = cc
get_handled (splinterdb_update key value) w' reply h = cc
get_handled (splinterdb_delete key) w' reply h = cc

call_handled :
    (c : Unit {0}) (op : ClientRpc) (w w' : Moment) (reply : Reply)
    → call c op w ≡ (ok reply, w')
    → handle single_raft op (server_of c w) ≡ (ok reply, server_of c w')
call_handled c op fresh w' reply h = put_handled op w' reply (is_put op) h
call_handled c op written w' reply h = get_handled op w' reply h

-- The log with a new entry.
abbrev new_log : List ℕ → Request → List (Entry list_buffers)
new_log payload req = record { index = 1; request = handled_as req; payload = payload } ∷ []

rpc_of-eq-put : (req : Request) → rpc_of req ≡ put_rpc → req ≡ put_request
rpc_of-eq-put (put key value) p = let k = put_key p in let v = put_value p in cc
rpc_of-eq-put (update key value) p = cc
rpc_of-eq-put (delete key) p = cc

first_answer : Steps single_raft map_db_laws (λ k. none) (cluster_of fresh) (cluster_of written)
first_answer = goes stays (
    happens [] (second_node ∷ []) refl (
      answers put_entry put_request accepted refl put_entry-IsEntry refl tt put_run
        accepted-is_success))

put_appended :
    (w' : Moment) (req : Request) (res : MutationResult) (payload : List ℕ)
    (d : Dec (rpc_of req ≡ put_rpc))
    → answered_put d ≡ (ok (mutation_reply res), w')
    → serialize list_buffers (operation_of (handled_as req)) ≡ ok payload
    → Steps single_raft map_db_laws (λ k. none) (cluster_of fresh) (cluster_of w')
      × ((cluster_of w').log ≡ new_log payload req)
put_appended w' req res payload (no n) h made =
    let p : throws undefined ≡ ok (mutation_reply res) = ap (λ t. t.0) h in cc
put_appended w' req res payload (yes p) h made =
    let same = sym (rpc_of-eq-put req p) in
    let end = ap (λ t. t.1) h in
    let bytes = ok-injective (
      sym serialize_put
      ∙ ap (λ r. serialize list_buffers (operation_of (handled_as r))) same
      ∙ made) in
    (
      subst (λ w. Steps single_raft map_db_laws (λ k. none) (cluster_of fresh) (cluster_of w)) end
          first_answer,
      sym (ap (λ w. (cluster_of w).log) end)
          ∙ ap (λ r. new_log put_payload r) same
          ∙ ap (λ l. new_log l req) bytes,
    )

server_of-mode : (c : Unit {0}) (w : Moment) → (server_of c w).return_method ≡ blocking
server_of-mode c fresh = refl
server_of-mode c written = refl

cluster_of-nodes :
    (c : Unit {0}) (w : Moment) → (cluster_of w).nodes ≡ node_of c w ∷ second_node ∷ []
cluster_of-nodes c fresh = refl
cluster_of-nodes c written = refl

node_of-replica : (c : Unit {0}) (w : Moment) → (node_of c w).replica ≡ server_of c w
node_of-replica c fresh = refl
node_of-replica c written = refl

cluster_of-Reach : (w : Moment) → Reach single_raft map_db_laws (λ k. none) (cluster_of w)
cluster_of-Reach fresh = initial-Reach
cluster_of-Reach written = answered-Reach

abbrev cluster : ServesCluster single_raft short_rpc
cluster = record {
  servers = record { server_of = server_of; call-handle = call_handled; mode = server_of-mode };
  cluster_of = cluster_of;
  node_of = node_of;
  before = λ c w. [];
  behind = λ c w. second_node ∷ [];
  member = cluster_of-nodes;
  replica = node_of-replica;
}

put_alone :
    (req : Request) (w' : Moment) (res : MutationResult)
    → ◌≢◌ {A = Result Reply × Moment} (answered_get (rpc_of req)) (ok (mutation_reply res), w')
put_alone (put key value) w' res = λ h. throws-ok (ap (λ t. t.0) h)
put_alone (update key value) w' res = λ h. throws-ok (ap (λ t. t.0) h)
put_alone (delete key) w' res = λ h. throws-ok (ap (λ t. t.0) h)

call_appended :
    (c : Unit {0}) (w w' : Moment) (req : Request) (res : MutationResult) (payload : List ℕ)
    → call c (rpc_of req) w ≡ (ok (mutation_reply res), w')
    → serialize list_buffers (operation_of (handled_as req)) ≡ ok payload
    → Steps single_raft map_db_laws (λ k. none) (cluster_of w) (cluster_of w')
      × ((cluster_of w').log ≡ (cluster_of w).log ++ new_log payload req)
call_appended c fresh w' req res payload asked made =
    put_appended w' req res payload (is_put (rpc_of req)) asked made
call_appended c written w' req res payload asked made = absurd (put_alone req w' res asked)

world : Replicates cluster map_db_laws (λ k. none)
world = record {
  reached = cluster_of-Reach;
  appended = λ c w w' req res payload asked made code.
      (let (steps, log) = call_appended c w w' req res payload asked made in
        (steps, [], [], 1, log));
}

-- Nothing else was committed since the put.
alone :
    (c : Unit {0}) (w : Moment) (reply : MutationResult)
    → call c put_rpc w ≡ (ok (mutation_reply reply), written)
    → LeavesAlone put_request (drop (length (cluster_of w).log) (take 1 (put_entry ∷ [])))
alone c fresh reply asked = (inr refl, tt)
alone c written reply asked = absurd (put_alone put_request written reply asked)

put_asked : (d : Dec (put_rpc ≡ put_rpc)) → answered_put d ≡ (ok (mutation_reply accepted), written)
put_asked (yes p) = refl
put_asked (no n) = absurd (n refl)

abbrev client : Client short_rpc
client = record { clients = (pos 1, tt) ∷ []; num_retries = 3 }

abbrev start : ClientState short_rpc
start = record { read_policy = pos 1 ∷ []; leader_id = pos 1; world = fresh }

abbrev end : ClientState short_rpc
end = record { read_policy = pos 1 ∷ []; leader_id = pos 1; world = written }

-- The first round of the loop, with what the call gives.
abbrev first_round : Result Reply × Moment → Result MutationResult × ClientState short_rpc
first_round t =
    let u : Result MutationResult × Moment = elim t.0 [
      | ok reply ↦ (as_mutation reply, t.1)
      | throws e ↦ (throws e, t.1)
    ] in
    continue u.0
      (λ answer.
        mutation_round short_rpc client answer (mutation_loop short_rpc client put_rpc 2 answer))
      (record start { world = u.1 })

mutate_run : mutate client put_request start ≡ (ok accepted, end)
unfolding Client.put mutation_loop get_leader_handle mutation_round was_accepted find_client call_as
mutate_run = ap first_round (put_asked (is_put put_rpc))

get_run :
    get short_rpc client (97 ∷ []) end ≡ (ok (handle_get single_raft (97 ∷ []) put_server), end)
unfolding get read_server next_server find_client call_as
get_run = refl

mutate-get_example :
    (handle_get single_raft (97 ∷ []) put_server ≡ record { value = 98 ∷ 99 ∷ []; spl_rc = pos 0 })
    ⊎ IsUnknown client put_request written
mutate-get_example =
    mutate-get list_buffer_laws map_db_laws single_raft_laws (λ k. none) cluster world client client
      put_request accepted (handle_get single_raft (97 ∷ []) put_server) start end end end
      put_request-Fits (omega arith) mutate_run accepted-is_success stays
      (λ id k known. (refl, omega arith)) (λ c w reply asked code id k known. alone c w reply asked)
      get_run
