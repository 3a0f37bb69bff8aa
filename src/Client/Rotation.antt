-- ===== src/Client/Rotation.antt =====
-- Which servers a client reads from, from its construction on.
use distributed_replicated_c.Prelude.{
  ℕ, zero, suc, ◌≡◌, refl, sym, ap, ◌∙◌, subst, ℤ, eq_ℤ, eq_ℤ_iff, Bool, true, false, Bool-cases,
  inl, inr, ◌||◌, if◌then◌else◌, some, List, [], ◌∷◌, ◌++◌, map,
}
use distributed_replicated_c.Result.{Result, ok, throws, undefined}
use distributed_replicated_c.Exec.{Exec, pure, continue, ◌>>=◌}
use distributed_replicated_c.Types.{MutationResult, was_accepted, get_nuraft_return_code}
use distributed_replicated_c.Operation.Request.{Request}
use distributed_replicated_c.Server.{ClientRpc, splinterdb_get}
use distributed_replicated_c.ReadPolicy.{next_server}
use distributed_replicated_c.ReadPolicy.Turns.{
  IsRotation, turn, listed, no_server_left, nil_not_middle,
}
use distributed_replicated_c.Client.{
  RpcApi, Client, ClientState, as_read, as_mutation, call_as, find_client, with_world, get,
  get_leader_handle, set_leader, sleep, try_handle_leader_change, before_retry, mutation_round,
  mutation_loop, find_leader_id, weird_case, not_leader, request_cancelled, read_server,
}
use distributed_replicated_c.Client.Answers.{mutate, rpc_of, mutate_lem}

abbrev pub ids_of : {rpc : RpcApi} → Client rpc → List ℤ
ids_of cl = map (λ entry. entry.0) cl.clients

find_listed :
    {A : Type 0} (clients : List (ℤ × A)) (before : List ℤ) (id : ℤ) (after : List ℤ)
    → map (λ entry. entry.0) clients ≡ before ++ id ∷ after
    → (c : A) × (find_client id clients ≡ some c)
unfolding find_client
find_listed [] before id after e = absurd (nil_not_middle id before after e)
find_listed ((j, d) ∷ clients) [] id after e =
    (d, rw ((eq_ℤ_iff j id).1 (let h : j ≡ id = cc in h)) refl)
find_listed ((j, d) ∷ clients) (x ∷ before) id after e =
    let tails : map (λ entry. entry.0) clients ≡ before ++ id ∷ after = cc in
    let (c, k) = find_listed clients before id after tails in
    elim (Bool-cases (eq_ℤ j id)) [ inl h ↦ (d, rw h refl) | inr h ↦ (c, rw h k) ]

module _ {rpc : RpcApi} (cl : Client rpc) where
  -- What the methods of a client can do to its state. all_servers, find_leader_id and the two methods
  -- on the caches leave all but the world alone.
  pub data Step : ClientState rpc → ClientState rpc → Type 0 where
    reads : (key : List ℕ) (s : ClientState rpc) → Step s (get rpc cl key s).1
    mutates : (req : Request) (s : ClientState rpc) → Step s (mutate cl req s).1
    asks : (w : rpc.World) (s : ClientState rpc) → Step s (record s { world = w })

  pub data Reach (s : ClientState rpc) : ClientState rpc → Type 0 where
    here : Reach s s
    then_step : {t u : ClientState rpc} → Reach s t → Step t u → Reach s u

  abbrev Keeps : {A : Type 0} → Exec (ClientState rpc) A → Type 0
  Keeps m = (s : ClientState rpc) → (m s).1.read_policy ≡ s.read_policy

  Keeps->>= :
      {A B : Type 0} (m : Exec (ClientState rpc) A) (f : A → Exec (ClientState rpc) B)
      → Keeps m
      → ((a : A) → Keeps (f a))
      → Keeps (m >>= f)
  Keeps->>= {A} {B} m f k l s = by_result (m s).0 ∙ k s
    where
      by_result : (r : Result A) → (continue r f (m s).1).1.read_policy ≡ (m s).1.read_policy
      by_result (ok a) = l a (m s).1
      by_result (throws e) = refl

  Keeps-if :
      {A : Type 0} (m n : Exec (ClientState rpc) A) (t : Bool)
      → Keeps m
      → Keeps n
      → Keeps (if t then m else n)
  Keeps-if m n true k l = k
  Keeps-if m n false k l = l

  try_handle_leader_change-Keeps : (rc : ℤ) → Keeps (try_handle_leader_change rpc cl rc)
  unfolding try_handle_leader_change set_leader
  try_handle_leader_change-Keeps rc =
      Keeps-if _ _ (eq_ℤ rc not_leader || eq_ℤ rc request_cancelled)
        (Keeps->>= (with_world rpc cl (find_leader_id rpc cl))
          (λ id. set_leader rpc cl id >>= λ u. pure true) (λ s. refl) (λ id s. refl))
        (λ s. refl)

  before_retry-Keeps : (result : MutationResult) → Keeps (before_retry rpc cl result)
  unfolding before_retry sleep
  before_retry-Keeps result =
      Keeps->>= (try_handle_leader_change rpc cl (get_nuraft_return_code result))
        (λ changed. if changed then sleep rpc cl 100 else pure tt)
        (try_handle_leader_change-Keeps (get_nuraft_return_code result))
        (λ changed. Keeps-if _ _ changed (λ s. refl) (λ s. refl))

  mutation_round-Keeps :
      (result : MutationResult) (rest : Exec (ClientState rpc) MutationResult)
      → Keeps rest
      → Keeps (mutation_round rpc cl result rest)
  unfolding mutation_round
  mutation_round-Keeps result rest k =
      Keeps-if _ _ (was_accepted result) (λ s. refl)
        (Keeps-if _ _ (eq_ℤ (get_nuraft_return_code result) weird_case) (λ s. refl)
          (Keeps->>= (before_retry rpc cl result) (λ u. rest) (before_retry-Keeps result) (λ u. k)))

  mutation_loop-Keeps :
      (op : ClientRpc) (rounds : ℕ) (result : MutationResult)
      → Keeps (mutation_loop rpc cl op rounds result)
  unfolding mutation_loop get_leader_handle
  mutation_loop-Keeps op zero result = λ s. refl
  mutation_loop-Keeps op (suc rounds) result =
      Keeps->>= (get_leader_handle rpc cl)
        (λ leader. with_world rpc cl (call_as rpc as_mutation leader op) >>= λ answer.
          mutation_round rpc cl answer (mutation_loop rpc cl op rounds answer))
        (λ s. refl)
        (λ leader.
          Keeps->>= (with_world rpc cl (call_as rpc as_mutation leader op))
            (λ answer. mutation_round rpc cl answer (mutation_loop rpc cl op rounds answer))
            (λ s. refl)
            (λ answer.
              mutation_round-Keeps answer (mutation_loop rpc cl op rounds answer)
                (mutation_loop-Keeps op rounds answer)))

  mutate-Keeps : (req : Request) → Keeps (mutate cl req)
  mutate-Keeps req s =
      let (start, e) = mutate_lem cl req in
      ap (λ (m : Exec (ClientState rpc) MutationResult). (m s).1.read_policy) e
      ∙ mutation_loop-Keeps (rpc_of req) cl.num_retries start s

  get_front :
      (key : List ℕ) (s : ClientState rpc) (id : ℤ) (rest : List ℤ) (c : rpc.Connection)
      → s.read_policy ≡ id ∷ rest
      → find_client id cl.clients ≡ some c
      → get rpc cl key s ≡ (
        (call_as rpc as_read c (splinterdb_get key) s.world).0,
        record {
          read_policy = rest ++ id ∷ [];
          leader_id = s.leader_id;
          world = (call_as rpc as_read c (splinterdb_get key) s.world).1;
        },
      )
  unfolding get read_server next_server
  get_front key s id rest c e k = rw (e, k) refl

  get_empty :
      (key : List ℕ) (s : ClientState rpc)
      → s.read_policy ≡ []
      → get rpc cl key s ≡ (throws undefined, s)
  unfolding get read_server next_server
  get_empty key s e = rw e refl

  -- What a read does: nothing is defined without servers, and otherwise the call goes to the server
  -- at the front of the queue, which goes to the back.
  pub data ReadsFrom (key : List ℕ) (s : ClientState rpc) : Type 0 where
    no_server : cl.clients ≡ [] → get rpc cl key s ≡ (throws undefined, s) → ReadsFrom key s
    server :
        (id : ℤ) (rest : List ℤ) (c : rpc.Connection)
        → s.read_policy ≡ id ∷ rest
        → find_client id cl.clients ≡ some c
        → get rpc cl key s ≡ (
          (call_as rpc as_read c (splinterdb_get key) s.world).0,
          record {
            read_policy = rest ++ id ∷ [];
            leader_id = s.leader_id;
            world = (call_as rpc as_read c (splinterdb_get key) s.world).1;
          },
        )
        → ReadsFrom key s

  pub get-ReadsFrom :
      (key : List ℕ) (s : ClientState rpc) → IsRotation (ids_of cl) s.read_policy → ReadsFrom key s
  get-ReadsFrom key s r = by_queue s.read_policy refl
    where
      by_queue : (queue : List ℤ) → s.read_policy ≡ queue → ReadsFrom key s
      by_queue [] e = no_server (no_server_left cl.clients s.read_policy e r) (get_empty key s e)
      by_queue (id ∷ rest) e =
          let (before, after, l) = listed (ids_of cl) id rest s.read_policy e r in
          let (c, k) = find_listed cl.clients before id after l in
          server id rest c e k (get_front key s id rest c e k)

  -- Every method keeps the queue a rotation.
  Step-IsRotation :
      {s t : ClientState rpc}
      → Step s t
      → IsRotation (ids_of cl) s.read_policy
      → IsRotation (ids_of cl) t.read_policy
  Step-IsRotation (asks w s) r = r
  Step-IsRotation (mutates req s) r =
      subst (λ q. IsRotation (ids_of cl) q) (sym (mutate-Keeps req s)) r
  Step-IsRotation (reads key s) r = elim (get-ReadsFrom key s r) [
    | no_server e g ↦
        subst (λ (q : Result _ × ClientState rpc). IsRotation (ids_of cl) q.1.read_policy) (sym g) r
    | server id rest c e k g ↦
        subst (λ (q : Result _ × ClientState rpc). IsRotation (ids_of cl) q.1.read_policy) (sym g)
          (turn (ids_of cl) id rest s.read_policy e r)
  ]

  pub Reach-IsRotation :
      {s t : ClientState rpc}
      → Reach s t
      → IsRotation (ids_of cl) s.read_policy
      → IsRotation (ids_of cl) t.read_policy
  Reach-IsRotation here r = r
  Reach-IsRotation (then_step path step) r = Step-IsRotation step (Reach-IsRotation path r)
