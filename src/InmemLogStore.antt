-- ===== src/InmemLogStore.antt =====
-- src/server/in_memory_log_store.{h,cpp}: the Raft log in memory. The build type is Release, so the
-- `assert`s are compiled out. A method that holds the lock is one step; the clock is an argument.
pub mod View
pub mod Read
pub mod Range
pub mod Agree
pub mod Write
pub mod Compact
pub mod Pack
pub mod PackBytes
pub mod Transfer
pub mod DiskEmulation
pub mod DiskLoop
pub mod Traces
use distributed_replicated_c.Prelude.{
  ℕ, zero, suc, ◌-◌, ◌*◌, ℤ, pos, negsuc, ltb, leb, ◌==◌, if◌then◌else◌, Bool, true, false, not,
  ◌&&◌, Option, none, some, List, [], ◌∷◌, ◌++◌, map, length, replicate, add64, sub64, u64_mod, ◌%◌,
}
use distributed_replicated_c.Result.{Result, ok, throws, undefined, length_error, or_throw, ◌>>=◌}
use distributed_replicated_c.Nuraft.Buffer.{BufferApi}
use distributed_replicated_c.Nuraft.LogEntry.{EntryApi}
use distributed_replicated_c.OrdMap.{OrdMap, find, insert, erase, erase_from}

-- The mutex, the event awaiter and the pointer to the Raft server have no value of their own here;
-- `disk_emul_thread` says whether the thread was started.
pub record InmemLogStore (LogEntry : Type 0) : Type 0 where
  pub logs : OrdMap LogEntry
  pub start_idx : ℕ
  pub disk_emul_delay : ℕ
  pub disk_emul_logs_being_written : OrdMap ℕ
  pub disk_emul_thread : Bool
  pub disk_emul_thread_stop_signal : Bool
  pub disk_emul_last_durable_index : ℕ

module _ {b : BufferApi} (a : EntryApi b) where
  open a use {LogEntry, new_default, new_entry}

  unfoldable pub make_clone : LogEntry → LogEntry
  make_clone entry =
      new_entry (a.get_term entry) (a.clone (a.get_buf entry)) (a.get_val_type entry)
        (a.get_timestamp entry) (a.has_crc32 entry) (a.get_crc32 entry)

  -- The constructor: a dummy entry stands at index 0.
  unfoldable pub new_log_store : InmemLogStore LogEntry
  new_log_store = record {
    logs = (0, new_default 0 (b.alloc 8)) ∷ [];
    start_idx = 1;
    disk_emul_delay = 0;
    disk_emul_logs_being_written = [];
    disk_emul_thread = false;
    disk_emul_thread_stop_signal = false;
    disk_emul_last_durable_index = 0;
  }

module _ {LogEntry : Type 0} where
  -- Exclude the dummy entry.
  unfoldable pub next_slot : InmemLogStore LogEntry → ℕ
  next_slot s = sub64 (add64 s.start_idx (length s.logs)) 1

  abbrev pub start_index : InmemLogStore LogEntry → ℕ
  start_index s = s.start_idx

  -- `find(index)`, or else the dummy; to dereference the end of the map is undefined.
  unfoldable pub find_or_dummy : ℕ → OrdMap LogEntry → Result LogEntry
  find_or_dummy index logs = elim (find index logs) [
    | some entry ↦ ok entry
    | none ↦ or_throw undefined (find 0 logs)
  ]

-- The erase at the end of `write_at`: entries whose log index is greater than `index`.
unfoldable pub erase_greater : ℕ → OrdMap ℕ → OrdMap ℕ
erase_greater index [] = []
erase_greater index ((time, idx) ∷ m) =
    let rest = erase_greater index m in if ltb index idx then rest else (time, idx) ∷ rest

-- The test at the end of a round of `log_entries_ext`.
abbrev pub batch_full : ℕ → ℕ → Bool
batch_full hint accum_size = not (hint == 0) && leb hint accum_size

module _ {b : BufferApi} (a : EntryApi b) where
  open a use {LogEntry}

  unfoldable pub last_entry : InmemLogStore LogEntry → Result LogEntry
  last_entry s = do entry ← find_or_dummy (sub64 (next_slot s) 1) s.logs; ok (make_clone a entry)

  -- `cur_time` is the time of day in microseconds.
  unfoldable pub append : ℕ → LogEntry → InmemLogStore LogEntry → ℕ × InmemLogStore LogEntry
  append cur_time entry s =
      let idx = sub64 (add64 s.start_idx (length s.logs)) 1 in
      (
        idx,
        record s {
          logs = insert idx (make_clone a entry) s.logs;
          disk_emul_logs_being_written =
              if s.disk_emul_delay == 0
              then s.disk_emul_logs_being_written
              else insert (add64 cur_time ((s.disk_emul_delay * 1000) % u64_mod)) idx
                  s.disk_emul_logs_being_written;
        },
      )

  unfoldable pub write_at : ℕ → ℕ → LogEntry → InmemLogStore LogEntry → InmemLogStore LogEntry
  write_at cur_time index new_entry s = record s {
    logs = insert index (make_clone a new_entry) (erase_from index s.logs);
    disk_emul_logs_being_written =
        if s.disk_emul_delay == 0
        then s.disk_emul_logs_being_written
        else erase_greater index (
            insert (add64 cur_time ((s.disk_emul_delay * 1000) % u64_mod)) index
              s.disk_emul_logs_being_written);
  }

  -- `rounds` rounds of the loop over `ii`; `ii` stays below `end`, so it does not wrap.
  unfoldable pub collect : ℕ → ℕ → OrdMap LogEntry → Result (List LogEntry)
  collect zero ii logs = ok []
  collect (suc rounds) ii logs = do
    src ← find_or_dummy ii logs
    rest ← collect rounds (suc ii) logs
    ok (make_clone a src ∷ rest)

  -- `max_size` is the size from which on vector::resize throws. A slot that the loop does not reach
  -- keeps its null pointer.
  unfoldable pub log_entries : ℕ → ℕ → ℕ → InmemLogStore LogEntry → Result (List (Option LogEntry))
  log_entries max_size start end s =
      if leb max_size (sub64 end start) then throws length_error else do
        entries ← collect (end - start) start s.logs
        ok (map some entries ++ replicate (sub64 end start - (end - start)) none)

  unfoldable pub collect_batch : ℕ → ℕ → ℕ → ℕ → OrdMap LogEntry → Result (List LogEntry)
  collect_batch hint zero ii accum_size logs = ok []
  collect_batch hint (suc rounds) ii accum_size logs = do
    src ← find_or_dummy ii logs
    let accum_size' = add64 accum_size (a.size (a.get_buf src))
    let rest = collect_batch hint rounds (suc ii) accum_size' logs
    if batch_full hint accum_size'
        then ok (make_clone a src ∷ [])
        else (rest >>= λ entries. ok (make_clone a src ∷ entries))

  unfoldable pub log_entries_ext : ℕ → ℕ → ℤ → InmemLogStore LogEntry → Result (List LogEntry)
  log_entries_ext start end (negsuc n) s = ok []
  log_entries_ext start end (pos hint) s = collect_batch hint (end - start) start 0 s.logs

  unfoldable pub entry_at : ℕ → InmemLogStore LogEntry → Result LogEntry
  entry_at index s = do entry ← find_or_dummy index s.logs; ok (make_clone a entry)

  unfoldable pub term_at : ℕ → InmemLogStore LogEntry → Result ℕ
  term_at index s = do entry ← find_or_dummy index s.logs; ok (a.get_term entry)

module _ {LogEntry : Type 0} where
  -- `for (ii = start_idx; ii <= last_log_index; ++ii)`, with fuel: `none` is a loop that still runs.
  unfoldable pub compact_loop : ℕ → ℕ → ℕ → OrdMap LogEntry → Option (OrdMap LogEntry)
  compact_loop zero ii last_log_index logs = none
  compact_loop (suc fuel) ii last_log_index logs =
      let rest = compact_loop fuel (add64 ii 1) last_log_index (erase ii logs) in
      if leb ii last_log_index then rest else some logs

  unfoldable pub compacted : ℕ → InmemLogStore LogEntry → OrdMap LogEntry → InmemLogStore LogEntry
  compacted last_log_index s logs = record s {
    logs = logs;
    start_idx = if leb s.start_idx last_log_index then add64 last_log_index 1 else s.start_idx;
  }

  -- Returns `true` whenever it returns.
  unfoldable pub compact : ℕ → ℕ → InmemLogStore LogEntry → Option (Bool × InmemLogStore LogEntry)
  compact fuel last_log_index s = elim (compact_loop fuel s.start_idx last_log_index s.logs) [
    | none ↦ none
    | some logs ↦ some (true, compacted last_log_index s logs)
  ]

  unfoldable pub flush : InmemLogStore LogEntry → Bool × InmemLogStore LogEntry
  flush s = (true, record s { disk_emul_last_durable_index = sub64 (next_slot s) 1 })

  abbrev pub close : InmemLogStore LogEntry → InmemLogStore LogEntry
  close s = s

  unfoldable pub last_durable_index : InmemLogStore LogEntry → ℕ
  last_durable_index s =
      if s.disk_emul_delay == 0 then sub64 (next_slot s) 1 else s.disk_emul_last_durable_index

  unfoldable pub set_disk_delay : ℕ → InmemLogStore LogEntry → InmemLogStore LogEntry
  set_disk_delay delay_ms s = record s { disk_emul_delay = delay_ms; disk_emul_thread = true }
