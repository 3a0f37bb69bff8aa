-- ===== src/ReadPolicy.antt =====
-- include/client/read_policy.h: which server a client reads from.
pub mod Turns
pub mod Rounds
use distributed_replicated_c.Prelude.{ℤ, List, [], ◌∷◌, ◌++◌}
use distributed_replicated_c.Result.{Result, ok, throws, undefined}

-- The queue of a round_robin_read_policy, front first.
abbrev pub RoundRobinReadPolicy : Type 0
RoundRobinReadPolicy = List ℤ

push_all : List ℤ → RoundRobinReadPolicy → RoundRobinReadPolicy
push_all [] server_ids = server_ids
push_all (id ∷ ids) server_ids = push_all ids (server_ids ++ id ∷ [])

-- The constructor.
unfoldable pub round_robin_read_policy : List ℤ → RoundRobinReadPolicy
unfolding push_all
round_robin_read_policy ids = push_all ids []

-- The front of an empty queue is undefined.
unfoldable pub next_server : RoundRobinReadPolicy → Result (ℤ × RoundRobinReadPolicy)
next_server [] = throws undefined
next_server (id ∷ rest) = ok (id, rest ++ id ∷ [])
