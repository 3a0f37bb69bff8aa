-- ===== src/StateMachine/Refinement.antt =====
-- The state machine against its specification: a map from keys to values that the committed requests
-- change one after the other. Replicas that commit the same log hold the same data.
use mathlib.Core.Logic.{ite, if_pos, if_neg}
use native.Mathlib.Decide.{ℕ_discrete}
use distributed_replicated_c.Prelude.{
  ℕ, pos, ◌≡◌, ◌≢◌, refl, subst, sym, ap, ◌∙◌, List, [], ◌∷◌, Option, none, some, All,
}
use distributed_replicated_c.Result.{Result, ok}
use distributed_replicated_c.Nuraft.Buffer.{BufferApi, BufferLaws}
use distributed_replicated_c.Splinter.{SplinterApi, SplinterLaws}
use distributed_replicated_c.Operation.{serialize}
use distributed_replicated_c.Operation.Request.{Request, put, update, delete, operation_of, Fits}
use distributed_replicated_c.StateMachine.{StateMachine, register_commit_thread, commit}
use distributed_replicated_c.StateMachine.Commit.{execute, commit-serialize, contents-register}

pub bytes_discrete : Discrete (List ℕ)
bytes_discrete = hlevel ℕ_discrete

abbrev pub Contents : Type 0
Contents = List ℕ → Option (List ℕ)

-- The specification of a put and a delete. (The effect of an update depends on the configuration
-- of SplinterDB, and `IsPlain` leaves it out.)
abbrev pub apply_request : Request → Contents → Contents
apply_request (put key value) m j = ite (bytes_discrete key j) (some value) (m j)
apply_request (delete key) m j = ite (bytes_discrete key j) none (m j)
apply_request (update key value) m j = m j

-- A put changes its own key and no other, and a delete empties its key.
pub put_self :
    (key value : List ℕ) (m : Contents) → apply_request (put key value) m key ≡ some value
put_self key value m = if_pos (bytes_discrete key key) refl (some value) (m key)

pub put_ne :
    (key value j : List ℕ) (m : Contents) → key ≢ j → apply_request (put key value) m j ≡ m j
put_ne key value j m h = if_neg (bytes_discrete key j) h (some value) (m j)

pub delete_self : (key : List ℕ) (m : Contents) → apply_request (delete key) m key ≡ none
delete_self key m = if_pos (bytes_discrete key key) refl none (m key)

pub delete_ne : (key j : List ℕ) (m : Contents) → key ≢ j → apply_request (delete key) m j ≡ m j
delete_ne key j m h = if_neg (bytes_discrete key j) h none (m j)

abbrev pub IsPlain : Request → Type 0
IsPlain (update key value) = ⊥
IsPlain _ = Unit

-- An entry of the Raft log: its index, the request and the payload made from it.
pub record Entry (b : BufferApi) : Type 0 where
  pub index : ℕ
  pub request : Request
  pub payload : b.Buffer

pub record IsEntry {b : BufferApi} (e : Entry b) : Type 0 where
  pub plain : IsPlain e.request
  pub fits : Fits e.request
  pub made : serialize b (operation_of e.request) ≡ ok e.payload

-- The requests applied in the order of the log.
abbrev pub replay : {b : BufferApi} → List (Entry b) → Contents → Contents
replay [] m = m
replay (e ∷ log) m = replay log (apply_request e.request m)

module _ {b : BufferApi} {s : SplinterApi} {Snapshot : Type 0} where
  -- Raft commits the entries in the order of the log.
  abbrev pub commit_log : List (Entry b) → StateMachine s Snapshot → StateMachine s Snapshot
  commit_log [] sm = sm
  commit_log (e ∷ log) sm = commit_log log (commit b s e.index e.payload sm).1

  -- SplinterDB returns 0 for each entry, in the state that the entries before it left.
  abbrev pub AllSucceed : List (Entry b) → StateMachine s Snapshot → Type 0
  AllSucceed [] sm = Unit {0}
  AllSucceed (e ∷ log) sm =
      ((execute s e.request (register_commit_thread s sm).spl_handle).0 ≡ pos 0)
      × AllSucceed log (commit b s e.index e.payload sm).1

abbrev pub last_index : {b : BufferApi} → List (Entry b) → ℕ → ℕ
last_index [] idx = idx
last_index (e ∷ log) idx = last_index log e.index

pub apply_request_cong :
    (r : Request) (m n : Contents)
    → ((j : List ℕ) → m j ≡ n j)
    → (j : List ℕ) → apply_request r m j ≡ apply_request r n j
apply_request_cong (put key value) m n h j = ap (ite (bytes_discrete key j) (some value)) (h j)
apply_request_cong (delete key) m n h j = ap (ite (bytes_discrete key j) none) (h j)
apply_request_cong (update key value) m n h j = h j

pub replay_cong :
    {b : BufferApi} (log : List (Entry b)) (m n : Contents)
    → ((j : List ℕ) → m j ≡ n j)
    → (j : List ℕ) → replay log m j ≡ replay log n j
replay_cong [] m n h j = h j
replay_cong (e ∷ log) m n h j =
    replay_cong log (apply_request e.request m) (apply_request e.request n)
      (apply_request_cong e.request m n h) j

module _ {s : SplinterApi} (db_laws : SplinterLaws s) where
  open db_laws use {contents}

  -- One successful call of SplinterDB does what the specification says, at every key.
  pub execute-contents :
      (r : Request) (d : s.Db)
      → IsPlain r
      → (execute s r d).0 ≡ pos 0
      → (j : List ℕ) → contents (execute s r d).1 j ≡ apply_request r (contents d) j
  execute-contents (put key value) d plain rc j = elim (bytes_discrete key j) [
    | yes p ↦ rw (if_pos _ p) (
        subst (λ k. contents (s.insert d key value).1 k ≡ some value) p
          (db_laws.insert_self d key value rc))
    | no p ↦ rw (if_neg _ p) (db_laws.insert_ne d key value j rc p)
  ]
  execute-contents (delete key) d plain rc j = elim (bytes_discrete key j) [
    | yes p ↦
        rw (if_pos _ p)
          (subst (λ k. contents (s.delete d key).1 k ≡ none) p (db_laws.delete_self d key rc))
    | no p ↦ rw (if_neg _ p) (db_laws.delete_ne d key j rc p)
  ]
  execute-contents (update key value) d plain rc j = absurd plain

module _ {b : BufferApi} (laws : BufferLaws b) {s : SplinterApi} (db_laws : SplinterLaws s)
    {Snapshot : Type 0} where
  open db_laws use {contents}

  pub commit-refines :
      (e : Entry b) (sm : StateMachine s Snapshot)
      → IsEntry e
      → (execute s e.request (register_commit_thread s sm).spl_handle).0 ≡ pos 0
      → ((j : List ℕ)
          → contents (commit b s e.index e.payload sm).1.spl_handle j
            ≡ apply_request e.request (contents sm.spl_handle) j)
        × ((commit b s e.index e.payload sm).1.last_committed_idx ≡ e.index)
  commit-refines e sm ok_entry rc =
      let sm' = register_commit_thread s sm in
      let (buf, q, _) =
        commit-serialize laws db_laws e.request e.index e.payload sm ok_entry.fits ok_entry.made in
      let after = ap (λ (t : Result b.Buffer × StateMachine s Snapshot). t.1) q in
      (
        (λ j.
            ap (λ (t : StateMachine s Snapshot). contents t.spl_handle j) after
            ∙ execute-contents db_laws e.request sm'.spl_handle ok_entry.plain rc j
            ∙ apply_request_cong e.request _ _ (contents-register laws db_laws sm) j),
        ap (λ (t : StateMachine s Snapshot). t.last_committed_idx) after,
      )

  -- Committing a log of serialized puts and deletes, each of which SplinterDB accepts, changes the
  -- contents of the database as the specification replays the requests, at every key, and leaves the
  -- index of the last entry as the commit index.
  pub commit_log-refines :
      (log : List (Entry b)) (sm : StateMachine s Snapshot)
      → All IsEntry log
      → AllSucceed log sm
      → ((j : List ℕ)
          → contents (commit_log log sm).spl_handle j ≡ replay log (contents sm.spl_handle) j)
        × ((commit_log log sm).last_committed_idx ≡ last_index log sm.last_committed_idx)
  commit_log-refines [] sm entries succeed = ((λ j. refl), refl)
  commit_log-refines (e ∷ log) sm entries succeed =
      let (step, idx) = commit-refines e sm entries.0 succeed.0 in
      let (rest, last) =
        commit_log-refines log (commit b s e.index e.payload sm).1 entries.1 succeed.1 in
      ((λ j. rest j ∙ replay_cong log _ _ step j), last ∙ ap (last_index log) idx)

module _ {b : BufferApi} (laws : BufferLaws b) {s t : SplinterApi} (s_laws : SplinterLaws s)
    (t_laws : SplinterLaws t) {Snapshot : Type 0} where
  -- Two replicas that start from the same contents, possibly on different databases, and commit the
  -- same log without an error hold the same value under every key and the same commit index after it.
  pub replicas_agree :
      (log : List (Entry b)) (x : StateMachine s Snapshot) (y : StateMachine t Snapshot)
      → All IsEntry log
      → AllSucceed log x
      → AllSucceed log y
      → ((j : List ℕ) → s_laws.contents x.spl_handle j ≡ t_laws.contents y.spl_handle j)
      → x.last_committed_idx ≡ y.last_committed_idx
      → ((j : List ℕ)
          → s_laws.contents (commit_log log x).spl_handle j
            ≡ t_laws.contents (commit_log log y).spl_handle j)
        × ((commit_log log x).last_committed_idx ≡ (commit_log log y).last_committed_idx)
  replicas_agree log x y entries sx sy same idx =
      let (cx, ix) = commit_log-refines laws s_laws log x entries sx in
      let (cy, iy) = commit_log-refines laws t_laws log y entries sy in
      ((λ j. cx j ∙ replay_cong log _ _ same j ∙ sym (cy j)), ix ∙ ap (last_index log) idx ∙ sym iy)
