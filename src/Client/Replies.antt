-- ===== src/Client/Replies.antt =====
-- A call of client.cpp that returns a value, and the reply that the value was read from.
use distributed_replicated_c.Prelude.{◌≡◌, refl, ap, ◌∙◌}
use distributed_replicated_c.Result.{Result, ok, throws}
use distributed_replicated_c.Types.{ReadResult, MutationResult}
use distributed_replicated_c.Server.{
  ClientRpc, Reply, text_reply, error_reply, id_reply, flag_reply, servers_reply, read_reply,
  mutation_reply,
}
use distributed_replicated_c.Client.{RpcApi, as_read, as_mutation, call_as}

pub as_read-eq-ok :
    (reply : Reply) (result : ReadResult) → as_read reply ≡ ok result → reply ≡ read_reply result
as_read-eq-ok (read_reply r) result h = cc
as_read-eq-ok (text_reply t) result h = cc
as_read-eq-ok (error_reply t) result h = cc
as_read-eq-ok (id_reply i) result h = cc
as_read-eq-ok (flag_reply f) result h = cc
as_read-eq-ok (servers_reply l) result h = cc
as_read-eq-ok (mutation_reply m) result h = cc

pub as_mutation-eq-ok :
    (reply : Reply) (result : MutationResult)
    → as_mutation reply ≡ ok result
    → reply ≡ mutation_reply result
as_mutation-eq-ok (mutation_reply m) result h = cc
as_mutation-eq-ok (text_reply t) result h = cc
as_mutation-eq-ok (error_reply t) result h = cc
as_mutation-eq-ok (id_reply i) result h = cc
as_mutation-eq-ok (flag_reply f) result h = cc
as_mutation-eq-ok (servers_reply l) result h = cc
as_mutation-eq-ok (read_reply r) result h = cc

module _ (rpc : RpcApi) {A : Type 0} where
  -- A call whose reply is decoded to a value got a reply, and the world is the one it came with.
  pub call_as-eq-ok :
      (decode : Reply → Result A) (c : rpc.Connection) (op : ClientRpc) (w w' : rpc.World) (x : A)
      → call_as rpc decode c op w ≡ (ok x, w')
      → (reply : Reply) × (rpc.call c op w ≡ (ok reply, w')) × (decode reply ≡ ok x)
  unfolding call_as
  call_as-eq-ok decode c op w w' x h = by_reply (rpc.call c op w).0 (rpc.call c op w).1 refl h
    where
      by_reply :
          (t : Result Reply) (v : rpc.World)
          → rpc.call c op w ≡ (t, v)
          → ◌≡◌ {A = Result A × rpc.World}
              (elim t [ ok reply ↦ (decode reply, v) | throws e ↦ (throws e, v) ])
              (ok x, w')
          → (reply : Reply) × (rpc.call c op w ≡ (ok reply, w')) × (decode reply ≡ ok x)
      by_reply (ok reply) v e k =
          (reply, e ∙ ap (λ u. (ok reply, u)) (ap (λ t. t.1) k), ap (λ t. t.0) k)
      by_reply (throws y) v e k = let p : throws y ≡ ok x = ap (λ t. t.0) k in cc

  -- The same, where the values have replies of their own.
  pub call_as-reply :
      (decode : Reply → Result A) (encode : A → Reply)
      → ((reply : Reply) (x : A) → decode reply ≡ ok x → reply ≡ encode x)
      → (c : rpc.Connection) (op : ClientRpc) (w w' : rpc.World) (x : A)
      → call_as rpc decode c op w ≡ (ok x, w')
      → rpc.call c op w ≡ (ok (encode x), w')
  call_as-reply decode encode encoded c op w w' x h =
      let (reply, e, k) = call_as-eq-ok decode c op w w' x h in
      e ∙ ap (λ r. (ok r, w')) (encoded reply x k)
