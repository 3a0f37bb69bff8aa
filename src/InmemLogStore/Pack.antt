-- ===== src/InmemLogStore/Pack.antt =====
-- pack and apply_pack of the log store, and the loop that emulates the delay of a disk.
use distributed_replicated_c.Prelude.{
  ℕ, zero, suc, ◌-◌, ◌*◌, ◌%◌, ◌^◌, ℤ, pos, negsuc, ltb, leb, if◌then◌else◌, Bool, true, false,
  none, some, List, [], ◌∷◌, add64, sub64, u64_mod,
}
use distributed_replicated_c.Result.{
  Result, ok, throws, undefined, overflow_error, or_throw, ◌>>=◌ as ◌>>=ʳ◌,
}
use distributed_replicated_c.Exec.{Exec}
use distributed_replicated_c.Nuraft.Buffer.{BufferApi}
use distributed_replicated_c.Nuraft.LogEntry.{EntryApi}
use distributed_replicated_c.OrdMap.{OrdMap, find, insert, upper_bound}
use distributed_replicated_c.InmemLogStore.{InmemLogStore}

-- The conversions between int32 and the unsigned numbers of 64 bits.
unfoldable pub to_u64 : ℤ → ℕ
to_u64 (pos n) = n
to_u64 (negsuc n) = u64_mod - 1 - n

unfoldable pub to_int32 : ℕ → ℤ
to_int32 n = let w = n % 2 ^ 32 in if ltb w (2 ^ 31) then pos w else negsuc (2 ^ 32 - 1 - w)

module _ {b : BufferApi} (a : EntryApi b) where
  open a use {LogEntry}

  -- `logs_[ii]` of an index that is missing is a null pointer, which the loop dereferences.
  unfoldable pub collect_serialized : ℕ → ℕ → OrdMap LogEntry → Result (List b.Buffer)
  collect_serialized zero ii logs = ok []
  collect_serialized (suc rounds) ii logs = or_throw undefined (find ii logs) >>=ʳ λ le.
      collect_serialized rounds (suc ii) logs >>=ʳ λ rest. ok (a.serialize le ∷ rest)

  unfoldable pub total_bytes : ℕ → List b.Buffer → ℕ
  total_bytes size_total [] = size_total
  total_bytes size_total (buf ∷ bufs) = total_bytes (add64 size_total (a.size buf)) bufs

  unfoldable pub put_all : List b.Buffer → b.Cursor → Result b.Cursor
  put_all [] c = ok c
  put_all (buf ∷ bufs) c = or_throw overflow_error (b.put_i32 (to_int32 (a.size buf)) c) >>=ʳ λ c'.
      (or_throw overflow_error (a.put_buffer buf c') >>=ʳ λ c''. put_all bufs c'')

  -- The index behind the last one, `index + cnt`.
  abbrev pub pack_end : ℕ → ℤ → ℕ
  pack_end index cnt = add64 index (to_u64 cnt)

  abbrev pub pack_size : ℤ → List b.Buffer → ℕ
  pack_size cnt bufs = add64 (add64 4 ((to_u64 cnt * 4) % u64_mod)) (total_bytes 0 bufs)

  unfoldable pub pack : ℕ → ℤ → InmemLogStore LogEntry → Result b.Buffer
  unfolding to_u64 collect_serialized total_bytes put_all
  pack index cnt s = collect_serialized (pack_end index cnt - index) index s.logs >>=ʳ λ bufs.
      or_throw overflow_error (b.put_i32 cnt (b.start (b.alloc (pack_size cnt bufs)))) >>=ʳ λ c.
      put_all bufs c >>=ʳ λ c'. ok (b.buffer_of c')

  -- One entry of a pack: its size, its bytes and the log entry made from them.
  unfoldable pub unpack_entry : b.Cursor → Result (LogEntry × b.Cursor)
  unfolding to_u64
  unpack_entry c = or_throw overflow_error (b.get_i32 c) >>=ʳ λ sized.
      or_throw overflow_error (a.get_buffer (b.alloc (to_u64 sized.0)) sized.1) >>=ʳ λ filled.
      or_throw overflow_error (a.deserialize filled.0) >>=ʳ λ le. ok (le, filled.1)

  -- The entries in front of one that cannot be read stay in the log.
  unfoldable pub apply_entries : ℕ → ℕ → b.Cursor → Exec (OrdMap LogEntry) (Unit {0})
  unfolding unpack_entry
  apply_entries zero cur_idx c logs = (ok tt, logs)
  apply_entries (suc rounds) cur_idx c logs = elim (unpack_entry c) [
    | throws e ↦ (throws e, logs)
    | ok unpacked ↦
        apply_entries rounds (add64 cur_idx 1) unpacked.1 (insert cur_idx unpacked.0 logs)
  ]

  -- The start index becomes the first index above 0, or 1.
  unfoldable pub restarted : OrdMap LogEntry → InmemLogStore LogEntry → InmemLogStore LogEntry
  restarted logs s = record s {
    logs = logs;
    start_idx = elim (upper_bound 0 logs) [ none ↦ 1 | some first ↦ first ];
  }

  abbrev pub rounds_of : ℤ → ℕ
  rounds_of (pos n) = n
  rounds_of (negsuc n) = 0

  unfoldable pub applied :
      Result (Unit {0}) × OrdMap LogEntry → Exec (InmemLogStore LogEntry) (Unit {0})
  unfolding restarted
  applied (throws e, logs) s = (throws e, record s { logs = logs })
  applied (ok u, logs) s = (ok tt, restarted logs s)

  unfoldable pub apply_pack : ℕ → b.Buffer → Exec (InmemLogStore LogEntry) (Unit {0})
  unfolding apply_entries applied
  apply_pack index packed s = elim (b.get_i32 (b.start packed)) [
    | none ↦ (throws overflow_error, s)
    | some (num_logs, c) ↦ applied (apply_entries (rounds_of num_logs) index c s.logs) s
  ]

-- The loop over the writes that are done at `cur_time`: the last durable index, the writes that are
-- left, and whether there was one.
unfoldable pub finish_writes : ℕ → ℕ → OrdMap ℕ → Bool → (ℕ × OrdMap ℕ) × Bool
finish_writes cur_time durable [] call_notification = ((durable, []), call_notification)
finish_writes cur_time durable ((time, idx) ∷ m) call_notification =
    let rest = finish_writes cur_time idx m true in
    if leb time cur_time then rest else ((durable, (time, idx) ∷ m), call_notification)

module _ {LogEntry : Type 0} where
  -- A round of disk_emul_loop once it was woken up and is not told to stop: whether Raft is notified,
  -- how long the next sleep is, and the store.
  unfoldable pub disk_emul_round : ℕ → InmemLogStore LogEntry → (Bool × ℕ) × InmemLogStore LogEntry
  unfolding finish_writes
  disk_emul_round cur_time s =
      let ((durable, left), call_notification) =
        finish_writes cur_time s.disk_emul_last_durable_index s.disk_emul_logs_being_written
          false in
      (
        (call_notification, elim left [ [] ↦ 100 * 1000 | (time, idx) ∷ m ↦ sub64 time cur_time ]),
        record s { disk_emul_last_durable_index = durable; disk_emul_logs_being_written = left },
      )

  -- disk_emul_loop, with what the clock shows each time that the thread is woken up, for as long as
  -- another thread leaves the stop signal as it is.
  unfoldable pub disk_emul_loop : List ℕ → InmemLogStore LogEntry → InmemLogStore LogEntry
  unfolding disk_emul_round
  disk_emul_loop [] s = s
  disk_emul_loop (cur_time ∷ times) s =
      let rest = disk_emul_loop times (disk_emul_round cur_time s).1 in
      if s.disk_emul_thread_stop_signal then s else rest

  -- The destructor tells the thread to stop, if it was started, and waits for it.
  unfoldable pub stop_thread : InmemLogStore LogEntry → InmemLogStore LogEntry
  stop_thread s = if s.disk_emul_thread then record s { disk_emul_thread_stop_signal = true } else s
