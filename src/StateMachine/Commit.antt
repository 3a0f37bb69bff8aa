-- ===== src/StateMachine/Commit.antt =====
-- What `commit` does on every payload: a serialized operation is applied and its return code comes
-- back in the reply; any other payload throws and leaves data and commit index alone.
use distributed_replicated_c.Prelude.{
  ℕ, ℤ, subst, InInt32, ◌≡◌, refl, sym, ap, ◌∙◌, List, [], some, length, drop-all, arith,
}
use distributed_replicated_c.Result.{Result, ok, throws, Exception, ◌>>=◌, >>=-eq-ok}
use distributed_replicated_c.Nuraft.Buffer.{BufferApi, BufferLaws}
use distributed_replicated_c.Splinter.{SplinterApi, SplinterLaws}
use distributed_replicated_c.Operation.{
  Operation, OperationType, put, update, delete, other, value_of, serialize, deserialize,
}
use distributed_replicated_c.Operation.Codec.{deserialize-serialize}
use distributed_replicated_c.Operation.Request.{
  Request, operation_of, Fits, operation_of-IsWellFormed,
}
use distributed_replicated_c.StateMachine.{
  StateMachine, register_commit_thread, apply_as, apply_operation, reply, committed, commit,
}

module _ {b : BufferApi} (laws : BufferLaws b) where
  open b use {Buffer, start, get_i32}
  open laws use {left, i32_bytes}

  -- The reply is the four bytes of the return code, and get_int reads the code back.
  pub get_int-reply :
      (rc : ℤ)
      → InInt32 rc
      → (buf : Buffer) × (reply b rc ≡ ok buf)
        × ((c : b.Cursor) × (get_i32 (start buf) ≡ some (rc, c)))
  unfolding reply
  get_int-reply rc h =
      let (c, e, p, l) =
        laws.put_i32_lem rc h (start (b.alloc 4)) (omega (arith, room, laws.length-i32_bytes rc)) in
      let full : left c ≡ [] =
        l
        ∙ drop-all (length (i32_bytes rc)) (left (start (b.alloc 4)))
            (omega (arith, room, laws.length-i32_bytes rc)) in
      let (c', g, _) =
        laws.get_i32_lem rc h (start (b.buffer_of c)) []
          (laws.left-start c ∙ rw (p, full, laws.passed-start (b.alloc 4)) refl) in
      (b.buffer_of c, rw e refl, (c', g))
    where
      room : length (left (start (b.alloc 4))) ≡ 4
      room = laws.length-left-alloc 4

module _ (s : SplinterApi) where
  -- The call of SplinterDB that a request stands for.
  abbrev pub execute : Request → s.Db → ℤ × s.Db
  execute (Request.put key value) db = s.insert db key value
  execute (Request.update key value) db = s.update db key value
  execute (Request.delete key) db = s.delete db key

  pub apply_operation-execute :
      (r : Request) (db : s.Db) → apply_operation s (operation_of r) db ≡ ok (execute r db)
  unfolding apply_operation apply_as
  apply_operation-execute (Request.put key value) db = refl
  apply_operation-execute (Request.update key value) db = refl
  apply_operation-execute (Request.delete key) db = refl

  pub execute_rc : SplinterLaws s → (r : Request) (db : s.Db) → InInt32 (execute r db).0
  execute_rc laws (Request.put key value) db = laws.insert_rc db key value
  execute_rc laws (Request.update key value) db = laws.update_rc db key value
  execute_rc laws (Request.delete key) db = laws.delete_rc db key

module _ {s : SplinterApi} (db_laws : SplinterLaws s) where
  apply_as_rc :
      (t : OperationType) (op : Operation) (db : s.Db) {r : ℤ × s.Db}
      → apply_as s t op db ≡ ok r
      → InInt32 r.0
  unfolding apply_as
  apply_as_rc put op db {r} h =
      let (v, _, q) = >>=-eq-ok (value_of op) (λ v. ok (s.insert db op.key.bytes v.bytes)) h in
      let e : s.insert db op.key.bytes v.bytes ≡ r = cc in
      subst (λ p. InInt32 p.0) e (db_laws.insert_rc db op.key.bytes v.bytes)
  apply_as_rc update op db {r} h =
      let (v, _, q) = >>=-eq-ok (value_of op) (λ v. ok (s.update db op.key.bytes v.bytes)) h in
      let e : s.update db op.key.bytes v.bytes ≡ r = cc in
      subst (λ p. InInt32 p.0) e (db_laws.update_rc db op.key.bytes v.bytes)
  apply_as_rc delete op db {r} h =
      let e : s.delete db op.key.bytes ≡ r = cc in
      subst (λ p. InInt32 p.0) e (db_laws.delete_rc db op.key.bytes)
  apply_as_rc (other n) op db h = cc

  apply_operation_rc :
      (op : Operation) (db : s.Db) {r : ℤ × s.Db} → apply_operation s op db ≡ ok r → InInt32 r.0
  unfolding apply_operation
  apply_operation_rc op db h = apply_as_rc op.type op db h

module _ {b : BufferApi} (laws : BufferLaws b) {s : SplinterApi} (db_laws : SplinterLaws s)
    {Snapshot : Type 0} where
  open b use {Buffer, start, get_i32}
  open db_laws use {contents}

  -- Committing the payload of a request replies, with the return code of the one call of SplinterDB
  -- that the request stands for; that call is what happens to the data, made by a registered thread,
  -- and the commit index becomes the entry's.
  pub commit-serialize :
      (r : Request) (idx : ℕ) (payload : Buffer) (sm : StateMachine s Snapshot)
      → Fits r
      → serialize b (operation_of r) ≡ ok payload
      → let sm' = register_commit_thread s sm in
        (buf : Buffer) × (commit b s idx payload sm ≡ (
          ok buf,
          record sm' { spl_handle = (execute s r sm'.spl_handle).1; last_committed_idx = idx },
        ))
        × ((c : b.Cursor) × (get_i32 (start buf) ≡ some ((execute s r sm'.spl_handle).0, c)))
  unfolding commit committed
  commit-serialize r idx payload sm fits e =
      let sm' = register_commit_thread s sm in
      let (p, e2, back) =
        deserialize-serialize laws (operation_of r) (operation_of-IsWellFormed r fits) in
      let same : deserialize b payload ≡ ok (operation_of r) = cc in
      let (buf, e1, read) = get_int-reply laws _ (execute_rc s db_laws r sm'.spl_handle) in
      (buf, rw (same, apply_operation-execute s r sm'.spl_handle, committed, e1) refl, read)

  pub contents-register :
      (sm : StateMachine s Snapshot) (k : List ℕ)
      → contents (register_commit_thread s sm).spl_handle k ≡ contents sm.spl_handle k
  unfolding register_commit_thread
  contents-register sm k = ground (arith, db_laws.contents-register_thread sm.spl_handle k)

  idx-register :
      (sm : StateMachine s Snapshot)
      → (register_commit_thread s sm).last_committed_idx ≡ sm.last_committed_idx
  unfolding register_commit_thread
  idx-register sm = ground arith

  -- With a return code that fits an int, only a failed operation throws, and it changes nothing.
  committed_throws :
      (idx : ℕ) (sm : StateMachine s Snapshot) (res : Result (ℤ × s.Db)) (e : Exception)
      → ((r : ℤ × s.Db) → res ≡ ok r → InInt32 r.0)
      → (committed b s idx sm res).0 ≡ throws e
      → (committed b s idx sm res).1 ≡ sm
  unfolding committed
  committed_throws idx sm (throws x) e fits h = refl
  committed_throws idx sm (ok (rc, db)) e fits h =
      let (buf, e1, _) = get_int-reply laws rc (fits (rc, db) refl) in
      let same : ok buf ≡ throws e = sym e1 ∙ h in cc

  -- A commit that throws leaves the contents of the database and the commit index as they were.
  pub commit_throws :
      (idx : ℕ) (payload : Buffer) (sm : StateMachine s Snapshot) (e : Exception)
      → (commit b s idx payload sm).0 ≡ throws e
      → ((commit b s idx payload sm).1.last_committed_idx ≡ sm.last_committed_idx)
        × ((k : List ℕ)
            → contents (commit b s idx payload sm).1.spl_handle k ≡ contents sm.spl_handle k)
  unfolding commit
  commit_throws idx payload sm e h =
      let sm' = register_commit_thread s sm in
      let res : Result (ℤ × s.Db) = (do
        op ← deserialize b payload
        apply_operation s op sm'.spl_handle) in
      let same : (committed b s idx sm' res).1 ≡ sm' =
        committed_throws idx sm' res e
          (λ r q.
            let (op, _, p) =
              >>=-eq-ok (deserialize b payload) (λ op. apply_operation s op sm'.spl_handle) q in
            apply_operation_rc db_laws op sm'.spl_handle p)
          h in
      (
        ap (λ (t : StateMachine s Snapshot). t.last_committed_idx) same ∙ idx-register sm,
        λ k.
            ap (λ (t : StateMachine s Snapshot). contents t.spl_handle k) same
            ∙ contents-register sm k,
      )
