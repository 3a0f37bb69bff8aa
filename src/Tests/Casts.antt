-- ===== src/Tests/Casts.antt =====
-- What a client makes of the replies of the server of Tests/Servers, at concrete inputs.
use distributed_replicated_c.Prelude.{◌≡◌, ◌≢◌, ap, pos, [], ◌∷◌}
use distributed_replicated_c.Result.{Result, ok, throws, undefined}
use distributed_replicated_c.Server.{
  ClientRpc, Reply, handle, ping, get_srv_id, get_leader_id, get_all_servers, splinterdb_dumpcache,
  splinterdb_clearcache, get_srv_endpoint, splinterdb_get, splinterdb_put, splinterdb_update,
  splinterdb_delete,
}
use distributed_replicated_c.Client.{RpcApi, Client, ClientState}
use distributed_replicated_c.Client
use distributed_replicated_c.Client.Applied.{Serves}
use distributed_replicated_c.Client.Connect.{ConnectApi}
use distributed_replicated_c.Tests.Rafts.{single_raft}
use distributed_replicated_c.Tests.Connections.{World, live_rpc, live}

-- The same server, which answers only what changes nothing.
abbrev answers_reads : ClientRpc → World → Result Reply × World
answers_reads ping w = live_rpc.call tt ping w
answers_reads get_leader_id w = live_rpc.call tt get_leader_id w
answers_reads get_all_servers w = live_rpc.call tt get_all_servers w
answers_reads (splinterdb_get key) w = live_rpc.call tt (splinterdb_get key) w
answers_reads _ w = (throws undefined, w)

abbrev read_rpc : RpcApi
read_rpc = record {
  Connection = Unit {0};
  World = World;
  call = λ c op w. answers_reads op w;
  sleep_ms = λ ms w. w;
}

undefined-ok : {A : Type 0} {x : A} → ◌≢◌ {A = Result A} (throws undefined) (ok x)
undefined-ok = λ h. cc

answers_reads-handle :
    (op : ClientRpc) (w w' : World) (reply : Reply)
    → answers_reads op w ≡ (ok reply, w')
    → handle single_raft op w.0 ≡ (ok reply, w'.0)
answers_reads-handle ping w w' reply h = ap (λ t. (t.0, t.1.0)) h
answers_reads-handle get_leader_id w w' reply h = ap (λ t. (t.0, t.1.0)) h
answers_reads-handle get_all_servers w w' reply h = ap (λ t. (t.0, t.1.0)) h
answers_reads-handle (splinterdb_get key) w w' reply h = ap (λ t. (t.0, t.1.0)) h
answers_reads-handle get_srv_id w w' reply h = elim (undefined-ok (ap (λ t. t.0) h)) [ ]
answers_reads-handle splinterdb_dumpcache w w' reply h = elim (undefined-ok (ap (λ t. t.0) h)) [ ]
answers_reads-handle splinterdb_clearcache w w' reply h = elim (undefined-ok (ap (λ t. t.0) h)) [ ]
answers_reads-handle (get_srv_endpoint id) w w' reply h = elim (undefined-ok (ap (λ t. t.0) h)) [ ]
answers_reads-handle (splinterdb_put key value) w w' reply h =
    elim (undefined-ok (ap (λ t. t.0) h)) [ ]
answers_reads-handle (splinterdb_update key value) w w' reply h =
    elim (undefined-ok (ap (λ t. t.0) h)) [ ]
answers_reads-handle (splinterdb_delete key) w w' reply h =
    elim (undefined-ok (ap (λ t. t.0) h)) [ ]

abbrev read_servers : Serves single_raft read_rpc
read_servers = record {
  server_of = λ c w. w.0;
  call-handle = λ c op w w' reply h. answers_reads-handle op w w' reply h;
  mode = λ c w. w.1;
}

abbrev read_connect : ConnectApi read_rpc
read_connect = record { connect = λ host port w. (ok tt, w); set_timeout = λ timeout c w. w }

abbrev reader : Client read_rpc
reader = record { clients = (pos 1, tt) ∷ []; num_retries = 3 }

abbrev start : ClientState read_rpc
start = record { read_policy = pos 1 ∷ []; leader_id = pos 1; world = live }
