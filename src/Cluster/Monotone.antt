-- ===== src/Cluster/Monotone.antt =====
-- The gets that one server of a cluster answers, one after the other.
use distributed_replicated_c.Prelude.{
  ℕ, zero, suc, false, ◌+◌, ◌≤◌, ◌≡◌, refl, sym, ap, ◌∙◌, ◌⊎◌, inl, inr, some, List, [], ◌∷◌, ◌++◌,
  length, take, take-append_le, get_elem?, All-get_elem?, arith,
}
use distributed_replicated_c.Nuraft.Buffer.{BufferApi, BufferLaws}
use distributed_replicated_c.Nuraft.Raft.{RaftApi, RaftLaws}
use distributed_replicated_c.Splinter.{SplinterApi, SplinterLaws}
use distributed_replicated_c.StateMachine.Refinement.{Contents, replay}
use distributed_replicated_c.Server.{handle_get}
use distributed_replicated_c.Cluster.{Node, Cluster, Step, happens, joins, Reach}
use distributed_replicated_c.Cluster.Invariant.{Holds, Event-grows}
use distributed_replicated_c.Cluster.Preserved.{Reach-IsConsistent}
use distributed_replicated_c.Cluster.Reads.{Answers, handle_get-Answers}
use distributed_replicated_c.Cluster.Durable.{Steps, stays, goes, Steps-Reach, Steps-grows}

-- What one element of a list becomes when an element is replaced.
replaced :
    {A : Type 0} (xs ys : List A) (x y n : A) (i : ℕ)
    → get_elem? (xs ++ x ∷ ys) i ≡ some n
    → (get_elem? (xs ++ y ∷ ys) i ≡ some n) ⊎ ((x ≡ n) × (get_elem? (xs ++ y ∷ ys) i ≡ some y))
replaced [] ys x y n zero h = inr (cc, refl)
replaced [] ys x y n (suc i) h = inl h
replaced (z ∷ xs) ys x y n zero h = inl h
replaced (z ∷ xs) ys x y n (suc i) h = replaced xs ys x y n i h

same_length :
    {A : Type 0} (xs ys : List A) (x y : A) → length (xs ++ x ∷ ys) ≡ length (xs ++ y ∷ ys)
same_length [] ys x y = refl
same_length (z ∷ xs) ys x y = ap suc (same_length xs ys x y)

module _ {b : BufferApi} {s : SplinterApi} {Snapshot : Type 0} (raft : RaftApi b s Snapshot)
    (db_laws : SplinterLaws s) (initial : Contents) where
  -- The server at a place of the list, which has committed at least `n` entries. New servers join at
  -- the front, so that a server keeps its distance from the end.
  pub record IsAt (c : Cluster raft) (i n : ℕ) (d : Cluster raft) : Type 0 where
    pub place : ℕ
    pub node : Node raft
    pub found : get_elem? d.nodes place ≡ some node
    pub distance : place + length c.nodes ≡ i + length d.nodes
    pub advanced : n ≤ node.applied

  Step-IsAt :
      {c d e : Cluster raft} (i n : ℕ) → Step raft db_laws initial d e → IsAt c i n d → IsAt c i n e
  Step-IsAt {c} {d} i n (joins node new) at = record {
    place = suc at.place;
    node = at.node;
    found = at.found;
    distance = omega (arith, at.distance);
    advanced = at.advanced;
  }
  Step-IsAt {c} {d} i n (happens before behind {node} {node'} {log} place event) at =
      let (rest, grown, more) = Event-grows raft db_laws initial event in
      let size : length d.nodes ≡ length (before ++ node' ∷ behind) =
        ap length place ∙ same_length before behind node node' in
      elim (replaced before behind node node' at.node at.place
        (ap (λ l. get_elem? l at.place) (sym place) ∙ at.found)) [
          | inl found ↦ record {
            place = at.place;
            node = at.node;
            found = found;
            distance = omega (arith, at.distance, size);
            advanced = at.advanced;
          }
          | inr (same, found) ↦ record {
            place = at.place;
            node = node';
            found = found;
            distance = omega (arith, at.distance, size);
            advanced = omega (arith, more, at.advanced, ap (λ (k : Node raft). k.applied) same);
          }
        ]

  Steps-IsAt :
      {c d : Cluster raft} (i : ℕ) (node : Node raft)
      → get_elem? c.nodes i ≡ some node
      → Steps raft db_laws initial c d
      → IsAt c i node.applied d
  Steps-IsAt i node at stays = record {
    place = i;
    node = node;
    found = at;
    distance = refl;
    advanced = omega arith;
  }
  Steps-IsAt i node at (goes steps step) =
      Step-IsAt i node.applied step (Steps-IsAt i node at steps)

some-injective : {A : Type 0} {x y : A} → some x ≡ some y → x ≡ y
some-injective h = cc

module _ {b : BufferApi} (laws : BufferLaws b) {s : SplinterApi} (db_laws : SplinterLaws s)
    {Snapshot : Type 0} {raft : RaftApi b s Snapshot} (raft_laws : RaftLaws raft)
    (initial : Contents) where
  place-Holds :
      {c : Cluster raft} (i : ℕ) (node : Node raft)
      → Reach raft db_laws initial c
      → get_elem? c.nodes i ≡ some node
      → Holds raft db_laws initial c.log node
  place-Holds {c} i node path at =
      All-get_elem? (Holds raft db_laws initial c.log) c.nodes i node at
        (Reach-IsConsistent laws db_laws raft_laws initial path).nodes

  same_server :
      {c d : Cluster raft} (i j : ℕ) (node node' : Node raft)
      → get_elem? c.nodes i ≡ some node
      → Steps raft db_laws initial c d
      → get_elem? d.nodes j ≡ some node'
      → j + length c.nodes ≡ i + length d.nodes
      → node.applied ≤ node'.applied
  same_server {c} {d} i j node node' at steps at' distance =
      let later = Steps-IsAt raft db_laws initial i node at steps in
      let place : later.place ≡ j = omega (arith, later.distance, distance) in
      let same : later.node ≡ node' =
        some-injective (sym later.found ∙ ap (get_elem? d.nodes) place ∙ at') in
      omega (arith, later.advanced, ap (λ (k : Node raft). k.applied) same)

  -- What one server tells its clients never goes back, while its SplinterDB has refused none of the
  -- entries that it has committed. A get on a server of a cluster is answered
  -- from a front part of the log of any later time; and a get at that time on the same server, which
  -- is as far from the end of the list of servers as before, since new ones join at its front, is
  -- answered from a front part of the same log that is at least as long.
  pub gets-advance :
      {c d : Cluster raft} (key : List ℕ) (i j : ℕ) (node node' : Node raft)
      → Reach raft db_laws initial c
      → get_elem? c.nodes i ≡ some node
      → Steps raft db_laws initial c d
      → get_elem? d.nodes j ≡ some node'
      → j + length c.nodes ≡ i + length d.nodes
      → node.refused ≡ false
      → node'.refused ≡ false
      → (node.applied ≤ node'.applied)
        × (node'.applied ≤ length d.log)
        × Answers (replay (take node.applied d.log) initial key) (handle_get raft key node.replica)
        × Answers
            (replay (take node'.applied d.log) initial key)
            (handle_get raft key node'.replica)
  gets-advance {c} {d} key i j node node' path at steps at' distance intact intact' =
      let h = place-Holds i node path at in
      let h' = place-Holds j node' (Steps-Reach raft db_laws initial path steps) at' in
      let (rest, grown) = Steps-grows raft db_laws initial steps in
      let same : take node.applied c.log ≡ take node.applied d.log =
        sym (ap (take node.applied) grown ∙ take-append_le node.applied c.log rest h.within) in
      (
        same_server i j node node' at steps at' distance,
        h'.within,
        handle_get-Answers laws db_laws raft_laws initial key node _
            (h.contents intact key ∙ ap (λ l. replay l initial key) same),
        handle_get-Answers laws db_laws raft_laws initial key node' _ (h'.contents intact' key),
      )
