-- ===== src/ReadPolicy/Rounds.antt =====
-- The order in which the read policy hands out the servers.
use distributed_replicated_c.Prelude.{
  ℕ, zero, suc, ◌≡◌, refl, ap, ◌∙◌, sym, ℤ, List, [], ◌∷◌, ◌++◌, append-nil, append_assoc, length,
}
use distributed_replicated_c.Result.{Result, ok, ◌>>=◌}
use distributed_replicated_c.ReadPolicy.{
  RoundRobinReadPolicy, push_all, round_robin_read_policy, next_server,
}

-- The servers of `n` calls one after the other, and the policy after them.
abbrev pub next_servers : ℕ → RoundRobinReadPolicy → Result (List ℤ × RoundRobinReadPolicy)
next_servers zero policy = ok ([], policy)
next_servers (suc n) policy = do
  step ← next_server policy
  rest ← next_servers n step.1
  ok (step.0 ∷ rest.0, rest.1)

push_all_lem : (ids queue : List ℤ) → push_all ids queue ≡ queue ++ ids
unfolding push_all
push_all_lem [] queue = sym (append-nil queue)
push_all_lem (id ∷ ids) queue =
    push_all_lem ids (queue ++ id ∷ []) ∙ append_assoc queue (id ∷ []) ids

-- The servers at the front are handed out in order and go to the back.
next_servers_front :
    (front back : List ℤ) → next_servers (length front) (front ++ back) ≡ ok (front, back ++ front)
unfolding next_server
next_servers_front [] back = rw (append-nil back) refl
next_servers_front (id ∷ front) back =
    rw (append_assoc front back (id ∷ [])) (
      rw (next_servers_front front (back ++ id ∷ [])) (rw (append_assoc back (id ∷ []) front) refl))

-- A policy made from a list of servers hands out each of them once, in the order of the list, in as
-- many calls as there are servers, and is then as it was made, so that the order repeats.
pub next_servers-round :
    (ids : List ℤ)
    → (next_servers (length ids) (round_robin_read_policy ids)
        ≡ ok (ids, round_robin_read_policy ids))
      × (round_robin_read_policy ids ≡ ids)
unfolding round_robin_read_policy
next_servers-round ids =
    let made = push_all_lem ids [] in
    (
      rw made (
          ap (λ t. next_servers (length ids) t) (sym (append-nil ids)) ∙ next_servers_front ids []),
      made,
    )
