-- ===== src/Tests/Logs.antt =====
-- The log store at concrete inputs.
use distributed_replicated_c.Prelude.{
  Option, ap, sym, ◌∙◌, ℕ, ◌-◌, ◌≡◌, refl, Bool, true, false, pos, none, some, List, [], ◌∷◌, ◌++◌,
  add64, sub64, map, length, take, drop, u64_mod, arith,
}
use distributed_replicated_c.Result.{ok}
use distributed_replicated_c.Nuraft.LogEntry.{EntryApi, EntryLaws}
use distributed_replicated_c.InmemLogStore.{
  InmemLogStore, make_clone, new_log_store, next_slot, entry_at, term_at, last_entry, log_entries,
  log_entries_ext, compact,
}
use distributed_replicated_c.InmemLogStore.View.{Represents}
use distributed_replicated_c.InmemLogStore.Read.{reads-log_at, log_at}
use distributed_replicated_c.InmemLogStore.Range.{
  IsBatch, log_entries-slice, log_entries_ext-IsBatch,
}
use distributed_replicated_c.InmemLogStore.Agree.{log_entries_ext-log_entries}
use distributed_replicated_c.InmemLogStore.Write.{new_log_store-Represents}
use distributed_replicated_c.InmemLogStore.Compact.{compact-refines, compact_diverges}
use distributed_replicated_c.InmemLogStore.Pack.{disk_emul_round, disk_emul_loop, pack, apply_pack}
use distributed_replicated_c.InmemLogStore.DiskLoop.{disk_emul_loop-last}
use distributed_replicated_c.InmemLogStore.Transfer.{AllSame, apply_pack-pack}
use distributed_replicated_c.InmemLogStore.DiskEmulation.{disk_emul_round-Done}
use distributed_replicated_c.Tests.Buffers.{
  list_buffers, list_buffer_laws, write_lem, read, read_lem,
}

pub record ListEntry : Type 0 where
  term : ℕ
  buf : List ℕ
  val_type : ℕ
  timestamp : ℕ
  has_crc : Bool
  crc : ℕ

-- The serialized form is the term, the type and the payload, each number in one place of the list.
abbrev pub entry_of : ℕ → ℕ → List ℕ → ListEntry
entry_of t v buf = record {
  term = t;
  buf = buf;
  val_type = v;
  timestamp = 0;
  has_crc = false;
  crc = 0;
}

abbrev pub read_entry : List ℕ → Option ListEntry
read_entry [] = none
read_entry (t ∷ []) = none
read_entry (t ∷ v ∷ buf) = some (entry_of t v buf)

abbrev pub list_entries : EntryApi list_buffers
list_entries = record {
  LogEntry = ListEntry;
  new_default = λ t buf. record {
    term = t;
    buf = buf;
    val_type = 1;
    timestamp = 0;
    has_crc = false;
    crc = 0;
  };
  new_entry = λ t buf v ts h c. record {
    term = t;
    buf = buf;
    val_type = v;
    timestamp = ts;
    has_crc = h;
    crc = c;
  };
  get_term = λ e. e.term;
  get_buf = λ e. e.buf;
  get_val_type = λ e. e.val_type;
  get_timestamp = λ e. e.timestamp;
  has_crc32 = λ e. e.has_crc;
  get_crc32 = λ e. e.crc;
  serialize = λ e. e.term ∷ e.val_type ∷ e.buf;
  deserialize = read_entry;
  clone = λ buf. buf;
  size = length;
  put_buffer = λ buf. list_buffers.put_raw buf;
  get_buffer = λ buf. list_buffers.get_raw (length buf);
}

abbrev pub entry : ℕ → List ℕ → ListEntry
entry t buf = record { term = t; buf = buf; val_type = 1; timestamp = 0; has_crc = false; crc = 0 }

abbrev pub dummy : ListEntry
dummy = entry 0 (0 ∷ 0 ∷ 0 ∷ 0 ∷ 0 ∷ 0 ∷ 0 ∷ 0 ∷ [])

abbrev pub three : List ListEntry
three = entry 1 (7 ∷ 8 ∷ []) ∷ entry 1 (9 ∷ []) ∷ entry 2 (5 ∷ 6 ∷ []) ∷ []

-- A store whose log starts at index 4.
abbrev pub store : InmemLogStore ListEntry
store = record {
  logs =
      (0, dummy)
      ∷ (4, entry 1 (7 ∷ 8 ∷ []))
      ∷ (5, entry 1 (9 ∷ []))
      ∷ (6, entry 2 (5 ∷ 6 ∷ []))
      ∷ [];
  start_idx = 4;
  disk_emul_delay = 0;
  disk_emul_logs_being_written = [];
  disk_emul_thread = false;
  disk_emul_thread_stop_signal = false;
  disk_emul_last_durable_index = 0;
}

pub store-Represents : Represents store dummy three
store-Represents = record { logs = refl; start_pos = omega arith; bound = omega arith }

reads-log_at_example :
    (entry_at list_entries 5 store ≡ ok (entry 1 (9 ∷ [])))
    × (term_at list_entries 5 store ≡ ok 1)
    × (last_entry list_entries store ≡ ok (entry 2 (5 ∷ 6 ∷ [])))
unfolding log_at make_clone
reads-log_at_example = reads-log_at list_entries store dummy three store-Represents 5

store-next_slot : next_slot store ≡ 7
unfolding next_slot add64 sub64
store-next_slot = omega arith

log_entries-slice_example :
    log_entries list_entries 1000 5 7 store
    ≡ ok (some (entry 1 (9 ∷ [])) ∷ some (entry 2 (5 ∷ 6 ∷ [])) ∷ [])
unfolding make_clone
log_entries-slice_example =
    log_entries-slice list_entries store dummy three store-Represents 1000 5 7 (omega arith)
      (omega arith) (omega arith) (omega arith)

log_entries_ext-log_entries_example :
    (entries : List ListEntry) × (log_entries_ext list_entries 4 7 (pos 0) store ≡ ok entries)
    × (log_entries list_entries 1000 4 7 store ≡ ok (map some entries))
log_entries_ext-log_entries_example =
    log_entries_ext-log_entries list_entries store dummy three store-Represents 1000 4 7
      (omega arith) (omega arith) (omega arith) (omega arith) (omega arith)

log_entries_ext-IsBatch_example :
    (k : ℕ) × (log_entries_ext list_entries 4 7 (pos 3) store
      ≡ ok (map (make_clone list_entries) (take k (drop 0 three))))
    × IsBatch list_entries 3 0 (drop 0 three) 3 k
log_entries_ext-IsBatch_example =
    log_entries_ext-IsBatch list_entries store dummy three store-Represents 4 7 3 (omega arith)
      (omega arith) (omega arith) (omega arith)

compact-refines_example :
    (s' : InmemLogStore ListEntry) × (compact 3 5 store ≡ some (true, s'))
    × Represents s' dummy (drop 2 three)
    × (s'.start_idx ≡ 6)
compact-refines_example =
    compact-refines store dummy three store-Represents 3 5 (omega arith) (omega arith)

compact_diverges_example : compact 100 (u64_mod - 1) store ≡ none
compact_diverges_example = compact_diverges store dummy three store-Represents 100

-- Two writes are done at the time 50, a third one is not.
abbrev busy_store : InmemLogStore ListEntry
busy_store = record store {
  disk_emul_delay = 10;
  disk_emul_logs_being_written = (30, 4) ∷ (40, 5) ∷ (60, 6) ∷ [];
}

disk_emul_round-Done_example :
    let ((notify, sleep), s') = disk_emul_round 50 busy_store in
    (s'.disk_emul_last_durable_index ≡ 5)
    × (s'.disk_emul_logs_being_written ≡ (60, 6) ∷ [])
    × (notify ≡ true)
    × (s'.logs ≡ busy_store.logs)
disk_emul_round-Done_example =
    disk_emul_round-Done 50 ((30, 4) ∷ (40, 5) ∷ []) ((60, 6) ∷ []) busy_store refl
      (omega arith, (omega arith, tt)) (omega arith)

disk_emul_loop-last_example :
    disk_emul_loop (45 ∷ 30 ∷ 50 ∷ []) busy_store ≡ (disk_emul_round 50 busy_store).1
disk_emul_loop-last_example =
    disk_emul_loop-last (45 ∷ 30 ∷ []) 50 busy_store refl (omega arith, (omega arith, tt))

pub list_entry_laws : EntryLaws list_buffer_laws list_entries
unfolding list_buffer_laws
list_entry_laws = record {
  deserialize-serialize = λ x buf h. (
    entry_of x.term x.val_type x.buf,
    ap read_entry h,
    record { term = refl; val_type = refl; bytes = refl },
  );
  size_lem = λ buf. refl;
  put_buffer_lem = write_lem;
  get_buffer_lem = λ dst bytes rest c h e. (
    bytes,
    (c.0 ++ bytes, rest),
    ap (λ n. read n c) (sym h) ∙ read_lem bytes c rest e,
    refl,
    refl,
  );
}

abbrev fresh_store : InmemLogStore ListEntry
fresh_store = new_log_store list_entries

fresh_store-Represents : Represents fresh_store dummy []
fresh_store-Represents = (new_log_store-Represents list_entries).0

apply_pack-pack_example :
    (packed : List ℕ) × (zs : List ListEntry) × (pack list_entries 5 (pos 2) store ≡ ok packed)
    × ((apply_pack list_entries 5 packed fresh_store).0 ≡ ok tt)
    × Represents (apply_pack list_entries 5 packed fresh_store).1 dummy zs
    × ((apply_pack list_entries 5 packed fresh_store).1.start_idx ≡ 5)
    × AllSame list_buffer_laws list_entry_laws zs (drop 1 three)
apply_pack-pack_example =
    apply_pack-pack list_buffer_laws list_entry_laws store dummy three fresh_store dummy 5 2
      store-Represents fresh_store-Represents (omega arith) (omega arith) (omega arith)
      (omega arith) (omega arith, (omega arith, tt)) (omega arith)
