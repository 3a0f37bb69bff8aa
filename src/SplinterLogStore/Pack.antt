-- ===== src/SplinterLogStore/Pack.antt =====
-- pack and apply_pack of src/server/splinterdb_log_store.cpp.
use Prim.Native.String.{◌++◌}
use distributed_replicated_c.Prelude.{
  ℕ, zero, suc, ◌-◌, ◌*◌, ◌%◌, ℤ, pos, eq_ℤ, if◌then◌else◌, none, some, List, [], ◌∷◌, add64,
  u64_mod,
}
use distributed_replicated_c.Result.{
  Result, ok, throws, overflow_error, runtime_error, or_throw, ◌>>=◌ as ◌>>=ʳ◌,
}
use distributed_replicated_c.Exec.{Exec}
use distributed_replicated_c.Text.{to_string}
use distributed_replicated_c.Nuraft.Buffer.{BufferApi}
use distributed_replicated_c.Nuraft.LogEntry.{EntryApi}
use distributed_replicated_c.InmemLogStore.Pack.{to_u64, total_bytes, put_all}
use distributed_replicated_c.Replica.Launch.{is_not_positive}
use distributed_replicated_c.Splinter.{SplinterApi}
use distributed_replicated_c.SplinterLogStore.{LogApi, SplinterLogStore, entry_at, log_key_create}

module _ {s : SplinterApi} {b : BufferApi} {a : EntryApi b} (api : LogApi s a) where
  -- The first loop, which ends at the first entry that is missing.
  unfoldable pub collect_logs : ℕ → ℕ → SplinterLogStore s → Result (List b.Buffer)
  collect_logs zero i st = ok []
  collect_logs (suc rounds) i st =
      let rest = collect_logs rounds (suc i) st in
      entry_at api i st >>=ʳ λ entry. elim entry [
        | none ↦ ok []
        | some le ↦ rest >>=ʳ λ logs. ok (a.serialize le ∷ logs)
      ]

  -- The size of the buffer: room for `cnt` sizes, however many entries were found.
  unfoldable pub packed_size : ℤ → List b.Buffer → ℕ
  packed_size signed_cnt logs =
      add64 (add64 4 ((to_u64 signed_cnt * 4) % u64_mod)) (total_bytes a 0 logs)

  unfoldable pub pack : ℕ → ℤ → SplinterLogStore s → Result b.Buffer
  pack index signed_cnt st =
      collect_logs (add64 index (to_u64 signed_cnt) - index) index st >>=ʳ λ logs.
      or_throw overflow_error
        (b.put_i32 signed_cnt (b.start (b.alloc (packed_size signed_cnt logs))))
      >>=ʳ λ c. put_all a logs c >>=ʳ λ c'. ok (b.buffer_of c')

  -- One entry of a pack: its size and its bytes.
  unfoldable pub unpack_bytes : b.Cursor → Result (List ℕ × b.Cursor)
  unpack_bytes c = or_throw overflow_error (b.get_i32 c) >>=ʳ λ sized.
      if is_not_positive sized.0
      then throws (runtime_error "Invalid log entry size")
      else (or_throw overflow_error (a.get_buffer (b.alloc (to_u64 sized.0)) sized.1) >>=ʳ λ filled.
          ok (api.bytes_of filled.0, filled.1))

  unfoldable pub insert_entry : ℕ → List ℕ → Exec s.Db (Unit {0})
  insert_entry cur_index bytes db =
      let (rc, db') = s.insert db (log_key_create cur_index) bytes in
      if eq_ℤ rc (pos 0) then (ok tt, db') else (
        throws
            (runtime_error ("Failed to append log entry at index " ++ to_string (pos cur_index))),
        db',
      )

  -- The loop, with the number of rounds left.
  unfoldable pub insert_entries : ℕ → ℕ → b.Cursor → Exec s.Db (Unit {0})
  insert_entries zero cur_index c db = (ok tt, db)
  insert_entries (suc rounds) cur_index c db = elim (unpack_bytes c) [
    | throws e ↦ (throws e, db)
    | ok (bytes, c') ↦
        let (inserted, db') = insert_entry cur_index bytes db in
        let rest = insert_entries rounds (add64 cur_index 1) c' db' in
        elim inserted [ throws e ↦ (throws e, db') | ok u ↦ rest ]
  ]

  -- The indices of the store stay as they are.
  unfoldable pub apply_pack : ℕ → b.Buffer → Exec (SplinterLogStore s) (Unit {0})
  apply_pack index packed st = elim (b.get_i32 (b.start packed)) [
    | none ↦ (throws overflow_error, st)
    | some (signed_cnt, c) ↦
        if is_not_positive signed_cnt
        then (throws (runtime_error "Invalid log entry count"), st)
        else let (result, db) = insert_entries (to_u64 signed_cnt) index c st.spl in
          (result, record st { spl = db })
  ]
