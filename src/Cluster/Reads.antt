-- ===== src/Cluster/Reads.antt =====
-- What clients read from the servers of a cluster.
use distributed_replicated_c.Prelude.{
  ℕ, pos, ◌≤◌, ◌≡◌, ◌≢◌, sym, ap, ◌∙◌, subst, List, [], ◌∷◌, ◌++◌, length, take, take-length, false,
  Option, none, some, All, All-split,
}
use distributed_replicated_c.Nuraft.Buffer.{BufferApi, BufferLaws}
use distributed_replicated_c.Nuraft.Raft.{RaftApi, RaftLaws}
use distributed_replicated_c.Splinter.{SplinterApi, SplinterLaws}
use distributed_replicated_c.StateMachine.Refinement.{Contents, replay}
use distributed_replicated_c.Types.{ReadResult}
use distributed_replicated_c.Server.{handle_get}
use distributed_replicated_c.Server.Consistency.{data_of, handle_get_found, handle_get_missing}
use distributed_replicated_c.Cluster.{Node, Cluster, Reach}
use distributed_replicated_c.Cluster.Invariant.{Holds}
use distributed_replicated_c.Cluster.Preserved.{Reach-IsConsistent}

-- The result of a get of a key under which `value` is stored, or nothing.
abbrev pub Answers : Option (List ℕ) → ReadResult → Type 0
Answers (some value) result = result ≡ record { value = value; spl_rc = pos 0 }
Answers none result = (result.value ≡ []) × (result.spl_rc ≢ pos 0)

module _ {b : BufferApi} (laws : BufferLaws b) {s : SplinterApi} (db_laws : SplinterLaws s)
    {Snapshot : Type 0} {raft : RaftApi b s Snapshot} (raft_laws : RaftLaws raft)
    (initial : Contents) where
  Reach-Holds :
      {c : Cluster raft} (before behind : List (Node raft)) (node : Node raft)
      → Reach raft db_laws initial c
      → c.nodes ≡ before ++ node ∷ behind
      → Holds raft db_laws initial c.log node
  Reach-Holds {c} before behind node path at =
      let P = Holds raft db_laws initial c.log in
      let inv = Reach-IsConsistent laws db_laws raft_laws initial path in
      (All-split P before (node ∷ behind) (subst (All P) at inv.nodes)).1.0

  pub handle_get-Answers :
      (key : List ℕ) (node : Node raft) (o : Option (List ℕ))
      → data_of db_laws raft node.replica key ≡ o
      → Answers o (handle_get raft key node.replica)
  handle_get-Answers key node (some value) h =
      handle_get_found laws db_laws raft_laws key value node.replica h
  handle_get-Answers key node none h = handle_get_missing laws db_laws raft_laws key node.replica h

  -- A get on any server of a cluster whose SplinterDB has refused none of the entries that the server
  -- has committed is answered, at any time, from these entries, a front part of the log: with the value that they leave under the key when they are
  -- replayed, and the code 0, or with no value and another code if they leave none.
  pub get-Answers :
      {c : Cluster raft} (key : List ℕ) (before behind : List (Node raft)) (node : Node raft)
      → Reach raft db_laws initial c
      → c.nodes ≡ before ++ node ∷ behind
      → node.refused ≡ false
      → (node.applied ≤ length c.log)
        × Answers (replay (take node.applied c.log) initial key) (handle_get raft key node.replica)
  get-Answers key before behind node path at intact =
      let h = Reach-Holds before behind node path at in
      (h.within, handle_get-Answers key node _ (h.contents intact key))

  -- A get on such a server that has committed as many entries as the log has is answered from the whole
  -- log.
  pub get_latest-Answers :
      {c : Cluster raft} (key : List ℕ) (before behind : List (Node raft)) (node : Node raft)
      → Reach raft db_laws initial c
      → c.nodes ≡ before ++ node ∷ behind
      → node.refused ≡ false
      → node.applied ≡ length c.log
      → Answers (replay c.log initial key) (handle_get raft key node.replica)
  get_latest-Answers {c} key before behind node path at intact e =
      subst (λ l. Answers (replay l initial key) (handle_get raft key node.replica))
        (ap (λ n. take n c.log) e ∙ take-length c.log)
        (get-Answers key before behind node path at intact).1

  -- Two such servers of a cluster that have committed the same number of entries hold the same value under
  -- every key.
  pub nodes_agree :
      {c : Cluster raft} (before behind before' behind' : List (Node raft)) (x y : Node raft)
      → Reach raft db_laws initial c
      → c.nodes ≡ before ++ x ∷ behind
      → c.nodes ≡ before' ++ y ∷ behind'
      → x.refused ≡ false
      → y.refused ≡ false
      → x.applied ≡ y.applied
      → (j : List ℕ) → data_of db_laws raft x.replica j ≡ data_of db_laws raft y.replica j
  nodes_agree {c} before behind before' behind' x y path at_x at_y intact_x intact_y same j =
      (Reach-Holds before behind x path at_x).contents intact_x j
      ∙ ap (λ n. replay (take n c.log) initial j) same
      ∙ sym ((Reach-Holds before' behind' y path at_y).contents intact_y j)
