-- ===== src/Client/Reads.antt =====
-- The one call that a get of the client makes.
use distributed_replicated_c.Prelude.{◌≡◌, sym, ap, ◌∙◌, ℕ, ℤ, some, List}
use distributed_replicated_c.Result.{Result, ok, throws, undefined, or_throw, or_throw-eq-ok}
use distributed_replicated_c.Exec.{lift, ◌>>=◌, >>=-eq-ok}
use distributed_replicated_c.Types.{ReadResult}
use distributed_replicated_c.ReadPolicy.{RoundRobinReadPolicy, next_server}
use distributed_replicated_c.Server.{read_reply, splinterdb_get}
use distributed_replicated_c.Client.{
  RpcApi, Client, ClientState, as_read, call_as, find_client, with_world, get, read_server,
}
use distributed_replicated_c.Client.Replies.{as_read-eq-ok, call_as-reply}

module _ {rpc : RpcApi} (cl : Client rpc) where
  open rpc use {Connection, World}

  read_server-world :
      (s s' : ClientState rpc) (id : ℤ) → read_server rpc cl s ≡ (ok id, s') → s'.world ≡ s.world
  unfolding read_server
  read_server-world s s' id h = by_turn (next_server s.read_policy) h
    where
      by_turn :
          (t : Result (ℤ × RoundRobinReadPolicy))
          → ◌≡◌ {A = Result ℤ × ClientState rpc}
              (elim t [
                | throws e ↦ (throws e, s)
                | ok step ↦ (ok step.0, record s { read_policy = step.1 })
              ])
              (ok id, s')
          → s'.world ≡ s.world
      by_turn (ok step) k = ap (λ t. t.1.world) (sym k)
      by_turn (throws e) k = ap (λ t. t.1.world) (sym k)

  -- A get that returns made one call, to a server that the client knows, in the world as it was, and
  -- returns what this server replied.
  pub get-call :
      (key : List ℕ) (result : ReadResult) (s s' : ClientState rpc)
      → get rpc cl key s ≡ (ok result, s')
      → (id : ℤ) × (c : Connection) × (find_client id cl.clients ≡ some c)
        × (rpc.call c (splinterdb_get key) s.world ≡ (ok (read_reply result), s'.world))
  unfolding get
  get-call key result s s' h =
      let (id, s1, read, h1) =
        >>=-eq-ok (read_server rpc cl)
          (λ id. do
            c ← lift (or_throw undefined (find_client id cl.clients))
            with_world rpc cl (call_as rpc as_read c (splinterdb_get key)))
          s h in
      let (c, s2, found, h2) =
        >>=-eq-ok (lift (or_throw undefined (find_client id cl.clients)))
          (λ c. with_world rpc cl (call_as rpc as_read c (splinterdb_get key))) s1 h1 in
      let known = or_throw-eq-ok undefined (find_client id cl.clients) c (ap (λ t. t.0) found) in
      let same = sym (ap (λ t. t.1.world) found) ∙ read_server-world s s1 id read in
      let called =
        call_as-reply rpc as_read read_reply as_read-eq-ok c (splinterdb_get key) s2.world s'.world
          result (ap (λ t. (t.0, t.1.world)) h2) in
      (id, c, known, ap (rpc.call c (splinterdb_get key)) (sym same) ∙ called)
