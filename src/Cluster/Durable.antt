-- ===== src/Cluster/Durable.antt =====
-- What becomes of a mutation that a client was told has succeeded, on every server of the cluster.
use distributed_replicated_c.Prelude.{
  ℕ, ◌≤◌, ◌⊎◌, inl, inr, false, ◌≡◌, ◌≢◌, refl, sym, ap, ◌∙◌, subst, List, [], ◌∷◌, ◌++◌,
  append-nil, append_assoc, length, take, drop, drop-append, All-split, take-append_ge, Option,
  none, some, true, All,
}
use distributed_replicated_c.Result.{ok}
use distributed_replicated_c.Nuraft.Buffer.{BufferApi, BufferLaws}
use distributed_replicated_c.Nuraft.Raft.{RaftApi, RaftLaws}
use distributed_replicated_c.Splinter.{SplinterApi, SplinterLaws}
use distributed_replicated_c.Operation.Request.{Request, put, update, delete}
use distributed_replicated_c.StateMachine.Refinement.{
  Contents, Entry, apply_request, put_self, put_ne, delete_self, delete_ne, replay,
}
use distributed_replicated_c.Types.{MutationResult, is_success}
use distributed_replicated_c.Replica.{Replica}
use distributed_replicated_c.Server.{handle_get}
use distributed_replicated_c.Server.Pipeline.{handled_as, handle_mutation}
use distributed_replicated_c.Cluster.{Node, Cluster, Step, happens, joins, Reach, later}
use distributed_replicated_c.Cluster.Invariant.{Event-grows}
use distributed_replicated_c.Cluster.Reads.{Answers, get-Answers}

abbrev pub key_of : Request → List ℕ
key_of (put key value) = key
key_of (update key value) = key
key_of (delete key) = key

-- What is under its key when a request was carried out.
abbrev pub left_by : Request → Option (List ℕ)
left_by (put key value) = some value
left_by (update key value) = some value
left_by (delete key) = none

handled-left_by :
    (req : Request) (m : Contents) → apply_request (handled_as req) m (key_of req) ≡ left_by req
handled-left_by (put key value) m = put_self key value m
handled-left_by (update key value) m = put_self key value m
handled-left_by (delete key) m = delete_self key m

apply_request-ne :
    (req : Request) (m : Contents) (key : List ℕ)
    → key_of req ≢ key
    → apply_request req m key ≡ m key
apply_request-ne (put k value) m key h = put_ne k value key m h
apply_request-ne (update k value) m key h = refl
apply_request-ne (delete k) m key h = delete_ne k key m h

module _ {b : BufferApi} where
  -- No entry writes the key of the request, but one that makes the same request.
  abbrev pub LeavesAlone : Request → List (Entry b) → Type 0
  LeavesAlone req entries =
      All (λ (e : Entry b). (key_of e.request ≢ key_of req) ⊎ (e.request ≡ handled_as req)) entries

  replay-append :
      (xs ys : List (Entry b)) (m : Contents) → replay (xs ++ ys) m ≡ replay ys (replay xs m)
  replay-append [] ys m = refl
  replay-append (e ∷ xs) ys m = replay-append xs ys (apply_request e.request m)

  replay-alone :
      (req : Request) (ys : List (Entry b)) (m : Contents)
      → LeavesAlone req ys
      → m (key_of req) ≡ left_by req
      → replay ys m (key_of req) ≡ left_by req
  replay-alone req [] m h left = left
  replay-alone req (e ∷ ys) m h left =
      replay-alone req ys (apply_request e.request m) h.1 (elim h.0 [
        | inl other ↦ apply_request-ne e.request m (key_of req) other ∙ left
        | inr same ↦ ap (λ q. apply_request q m (key_of req)) same ∙ handled-left_by req m
      ])

  -- The entries from one that makes the request on leave what the request left under its key.
  replay-left_by :
      (req : Request) (e : Entry b) (xs ys : List (Entry b)) (m : Contents)
      → e.request ≡ handled_as req
      → LeavesAlone req ys
      → replay (xs ++ e ∷ ys) m (key_of req) ≡ left_by req
  replay-left_by req e xs ys m same h =
      ap (λ f. f (key_of req)) (replay-append xs (e ∷ ys) m)
      ∙ replay-alone req ys (apply_request e.request (replay xs m)) h (
          ap (λ q. apply_request q (replay xs m) (key_of req)) same
          ∙ handled-left_by req (replay xs m))

module _ {b : BufferApi} {s : SplinterApi} {Snapshot : Type 0} (raft : RaftApi b s Snapshot)
    (db_laws : SplinterLaws s) (initial : Contents) where
  -- Any number of steps.
  pub data Steps (c : Cluster raft) : Cluster raft → Type 0 where
    stays : Steps c c
    goes : {d e : Cluster raft} → Steps c d → Step raft db_laws initial d e → Steps c e

  pub Steps-Reach :
      {c d : Cluster raft} → Reach raft db_laws initial c → Steps c d → Reach raft db_laws initial d
  Steps-Reach path stays = path
  Steps-Reach path (goes steps step) = later (Steps-Reach path steps) step

  Step-grows :
      {c d : Cluster raft}
      → Step raft db_laws initial c d
      → (rest : List (Entry b)) × (d.log ≡ c.log ++ rest)
  Step-grows (happens before behind at event) =
      let (rest, e, _) = Event-grows raft db_laws initial event in (rest, e)
  Step-grows {c} (joins node new) = ([], sym (append-nil c.log))

  -- The log never loses an entry.
  pub Steps-grows :
      {c d : Cluster raft} → Steps c d → (rest : List (Entry b)) × (d.log ≡ c.log ++ rest)
  Steps-grows {c} stays = ([], sym (append-nil c.log))
  Steps-grows {c} (goes steps step) =
      let (rest, e) = Steps-grows steps in
      let (more, f) = Step-grows step in
      (rest ++ more, f ∙ ap (λ l. l ++ more) e ∙ append_assoc c.log rest more)

  -- A server, which may forward the request, tells a client that its mutation has succeeded: `c` is the
  -- cluster when the call begins, `d` when it ends. In the meantime an entry that makes the request
  -- was committed, and maybe others before and behind it.
  pub record Acknowledges (req : Request) (c d : Cluster raft) : Type 0 where
    pub before : List (Node raft)
    pub behind : List (Node raft)
    pub server : Node raft
    pub place : c.nodes ≡ before ++ server ∷ behind
    pub res : MutationResult
    pub replica : Replica raft
    pub run : handle_mutation raft req server.replica ≡ (ok res, replica)
    pub success : is_success res ≡ true
    pub steps : Steps c d
    pub earlier : List (Entry b)
    pub entry : Entry b
    pub more : List (Entry b)
    pub same : entry.request ≡ handled_as req
    pub log : d.log ≡ c.log ++ (earlier ++ (entry ∷ more))

-- What is in the second of two parts holds of each of its parts.
dropped-All :
    {A : Type 0} (P : A → Type 0) (xs ys zs : List A) (x : A)
    → All P (drop (length xs) (xs ++ (ys ++ (x ∷ zs))))
    → All P zs
dropped-All P xs ys zs x h =
    (All-split P ys (x ∷ zs) (subst (All P) (drop-append xs (ys ++ x ∷ zs)) h)).1.1

module _ {b : BufferApi} (laws : BufferLaws b) {s : SplinterApi} (db_laws : SplinterLaws s)
    {Snapshot : Type 0} {raft : RaftApi b s Snapshot} (raft_laws : RaftLaws raft)
    (initial : Contents) where
  -- What the log of a later time holds, up to a place behind all that it held at the answer.
  acknowledged-front :
      (req : Request) (c d : Cluster raft) (log rest : List (Entry b)) (n : ℕ)
      (a : Acknowledges raft db_laws initial req c d)
      → log ≡ d.log ++ rest
      → length d.log ≤ n
      → (k : ℕ) × (take n log ≡ c.log ++ (a.earlier ++ (a.entry ∷ (a.more ++ take k rest))))
  acknowledged-front req c d log rest n a grown le =
      let (k, taken) = take-append_ge n d.log rest le in
      (
        k,
        ap (take n) grown
            ∙ taken
            ∙ ap (λ l. l ++ take k rest) a.log
            ∙ append_assoc c.log (a.earlier ++ (a.entry ∷ a.more)) (take k rest)
            ∙ ap (λ l. c.log ++ l) (append_assoc a.earlier (a.entry ∷ a.more) (take k rest)),
      )

  -- A put, an update or a delete that a server has told a client to have succeeded, which means that
  -- Raft committed an entry for it during the call, is seen later by every get of its key on every
  -- server that has committed all that the log held at the answer, and whose SplinterDB has refused
  -- none of its entries, unless one of the entries committed there since the call began makes another
  -- request for the key: the get returns the value with the code 0, and after a delete no value and
  -- another code.
  pub acknowledged-Answers :
      (req : Request) {c d e : Cluster raft} (before behind : List (Node raft)) (node : Node raft)
      → Reach raft db_laws initial c
      → Acknowledges raft db_laws initial req c d
      → Steps raft db_laws initial d e
      → e.nodes ≡ before ++ node ∷ behind
      → node.refused ≡ false
      → length d.log ≤ node.applied
      → LeavesAlone req (drop (length c.log) (take node.applied e.log))
      → Answers (left_by req) (handle_get raft (key_of req) node.replica)
  acknowledged-Answers req {c} {d} {e} before behind node path a steps at intact le alone =
      let reached =
        Steps-Reach raft db_laws initial (Steps-Reach raft db_laws initial path a.steps) steps in
      let (within, answer) =
        get-Answers laws db_laws raft_laws initial (key_of req) before behind node reached at
          intact in
      let (rest, grown) = Steps-grows raft db_laws initial steps in
      let (k, front) = acknowledged-front req c d e.log rest node.applied a grown le in
      let behind_it =
        dropped-All
          (λ (q : Entry b). (key_of q.request ≢ key_of req) ⊎ (q.request ≡ handled_as req)) c.log
          a.earlier (a.more ++ take k rest) a.entry
          (subst (λ l. LeavesAlone req (drop (length c.log) l)) front alone) in
      subst (λ o. Answers o (handle_get raft (key_of req) node.replica))
        (ap (λ l. replay l initial (key_of req))
            (front ∙ sym (append_assoc c.log a.earlier (a.entry ∷ (a.more ++ take k rest))))
          ∙ replay-left_by req a.entry (c.log ++ a.earlier) (a.more ++ take k rest) initial a.same
              behind_it)
        answer
