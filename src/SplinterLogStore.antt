-- ===== src/SplinterLogStore.antt =====
-- src/server/splinterdb_log_store.h and splinterdb_log_store.cpp: a log store that keeps its entries
-- in a SplinterDB database, under the bytes of their indices.
pub mod Keys
pub mod Compact
pub mod Writes
pub mod Reads
pub mod Packed
pub mod Pack
use Prim.Native.String.{◌++◌}
use distributed_replicated_c.Prelude.{
  ℕ, zero, suc, ◌-◌, ◌<◌, ◌≡◌, ℤ, pos, negsuc, eq_ℤ, Bool, true, false, ltb, leb, if◌then◌else◌,
  Option, none, some, List, [], ◌∷◌, length, take, replicate, String, add64, sub64,
}
use distributed_replicated_c.Result.{
  Result, ok, throws, length_error, overflow_error, runtime_error, or_throw, ◌>>=◌ as ◌>>=ʳ◌,
}
use distributed_replicated_c.Exec.{Exec, pure, raise, ◌>>=◌}
use distributed_replicated_c.Bytes.{le_bytes, of_le_bytes}
use distributed_replicated_c.Nuraft.Buffer.{BufferApi, BufferLaws}
use distributed_replicated_c.Nuraft.LogEntry.{EntryApi}
use distributed_replicated_c.Splinter.{SplinterApi}

-- What of NuRaft and SplinterDB this log store uses beyond the other records: log_entry::deserialize
-- reads from the buffer's own position on, `bytes_of` is the size() bytes from data_begin() on, `null_entry` is
-- log_entry(0, nullptr), and `log_config` the configuration with the file's name, the sizes of disk
-- and cache, keys of 8 bytes and log_key_compare, every other member of it 0.
pub record LogApi (s : SplinterApi) {b : BufferApi} (a : EntryApi b) : Type 0 where
  pub deserialize_at : b.Cursor → Option a.LogEntry
  pub bytes_of : b.Buffer → List ℕ
  pub null_entry : a.LogEntry
  pub log_config : String → ℕ → ℕ → s.Config

-- What they document: an entry is its term, its type and its payload, so that a buffer with fewer
-- than 9 bytes left holds none; the bytes of a buffer are those from its start on.
pub record LogLaws {s : SplinterApi} {b : BufferApi} (laws : BufferLaws b) {a : EntryApi b}
    (api : LogApi s a) : Type 0 where
  pub deserialize_at_short : (c : b.Cursor) → length (laws.left c) < 9 → api.deserialize_at c ≡ none
  pub bytes_of_lem : (buf : b.Buffer) → api.bytes_of buf ≡ laws.left (b.start buf)

-- The bytes of the index, which is a uint64_t.
unfoldable pub log_key_create : ℕ → List ℕ
log_key_create index = le_bytes 8 index

unfoldable pub log_key_compare : List ℕ → List ℕ → ℤ
log_key_compare key1 key2 =
    let idx1 = of_le_bytes (take 8 key1) in
    let idx2 = of_le_bytes (take 8 key2) in
    if ltb idx2 idx1 then pos 1 else if ltb idx1 idx2 then negsuc 0 else pos 0

pub record SplinterLogStore (s : SplinterApi) : Type 0 where
  pub spl : s.Db
  pub start_idx : ℕ
  pub last_idx : ℕ

module _ (s : SplinterApi) where
  -- The loop over `to_delete`: `count` indices from `index` on. The return codes are not looked at.
  unfoldable pub delete_keys : ℕ → ℕ → s.Db → s.Db
  delete_keys zero index db = db
  delete_keys (suc count) index db =
      delete_keys count (add64 index 1) (s.delete db (log_key_create index)).1

module _ {s : SplinterApi} where
  unfoldable pub next_slot : SplinterLogStore s → ℕ
  next_slot st = add64 st.last_idx 1

  unfoldable pub start_index : SplinterLogStore s → ℕ
  start_index st = st.start_idx

  -- `max_size` is the largest size of a vector of 64-bit numbers or pointers.
  unfoldable pub compact : ℕ → ℕ → Exec (SplinterLogStore s) Bool
  compact max_size last_log_index st =
      let start = st.start_idx in
      let count = add64 (sub64 last_log_index start) 1 in
      if ltb max_size count then (throws length_error, st) else (
        ok true,
        record st {
          spl = delete_keys s count start st.spl;
          start_idx = if leb start last_log_index then add64 last_log_index 1 else start;
        },
      )

  unfoldable pub flush : SplinterLogStore s → Bool
  flush st = true

module _ {s : SplinterApi} {b : BufferApi} {a : EntryApi b} (api : LogApi s a) where
  open a use {LogEntry}

  unfoldable pub new_log_store : String → ℕ → ℕ → Result (SplinterLogStore s)
  new_log_store file_name disk_size cache_size =
      let (rc, db) = s.create (api.log_config file_name disk_size cache_size) in
      if eq_ℤ rc (pos 0)
      then ok (record { spl = db; start_idx = 1; last_idx = 0 })
      else throws (runtime_error "Failed to create SplinterDB log instance")

  -- The buffer with its position, which put_raw moves.
  unfoldable pub slice_to_buffer : List ℕ → Result b.Cursor
  slice_to_buffer value =
      or_throw overflow_error (b.put_raw value (b.start (b.alloc (length value))))

  unfoldable pub deserialized : List ℕ → Result LogEntry
  deserialized value =
      slice_to_buffer value >>=ʳ λ buf. or_throw overflow_error (api.deserialize_at buf)

  -- The lookup of each method that reads; `none` is a return code other than 0.
  unfoldable pub lookup_value : ℕ → s.Db → Option (List ℕ)
  lookup_value index db =
      let (rc, result) = s.lookup db (log_key_create index) in
      let (value_rc, value) = s.lookup_result_value result in
      if eq_ℤ rc (pos 0) then (if eq_ℤ value_rc (pos 0) then some value else none) else none

  -- A null pointer is `none`.
  unfoldable pub entry_at : ℕ → SplinterLogStore s → Result (Option LogEntry)
  entry_at index st = elim (lookup_value index st.spl) [
    | none ↦ ok none
    | some value ↦ deserialized value >>=ʳ λ entry. ok (some entry)
  ]

  unfoldable pub last_entry : SplinterLogStore s → Result LogEntry
  last_entry st = elim (lookup_value st.last_idx st.spl) [
    | none ↦ ok api.null_entry
    | some value ↦ deserialized value
  ]

  unfoldable pub term_at : ℕ → SplinterLogStore s → Result ℕ
  term_at index st =
      if leb (next_slot st) index
      then throws (runtime_error "Log index out of range")
      else if ltb index (start_index st)
      then ok 0
      else elim (lookup_value index st.spl) [
        | none ↦ ok 0
        | some value ↦ deserialized value >>=ʳ λ entry. ok (a.get_term entry)
      ]

  -- The loop of log_entries, with the number of rounds left; `none` is the null pointer.
  unfoldable pub collect : ℕ → ℕ → s.Db → Result (Option (List (Option LogEntry)))
  collect zero i db = ok (some [])
  collect (suc rounds) i db =
      let rest = collect rounds (suc i) db in
      elim (lookup_value i db) [
        | none ↦ ok none
        | some value ↦ deserialized value >>=ʳ λ entry. rest >>=ʳ λ entries. elim entries [
          | none ↦ ok none
          | some ret ↦ ok (some (some entry ∷ ret))
        ]
      ]

  unfoldable pub log_entries :
      ℕ → ℕ → ℕ → SplinterLogStore s → Result (Option (List (Option LogEntry)))
  log_entries max_size start end st =
      if ltb max_size (sub64 end start)
      then throws length_error
      else if ltb start end
      then collect (end - start) start st.spl
      else ok (some (replicate (sub64 end start) none))

  unfoldable pub append : LogEntry → Exec (SplinterLogStore s) ℕ
  append entry st =
      let index = st.last_idx in
      let (rc, db) = s.insert st.spl (log_key_create index) (api.bytes_of (a.serialize entry)) in
      let st' = record st { spl = db; last_idx = add64 index 1 } in
      if eq_ℤ rc (pos 0)
      then (ok index, st')
      else (throws (runtime_error "Failed to append log entry"), st')

  unfoldable pub write_at : ℕ → ℕ → LogEntry → Exec (SplinterLogStore s) (Unit {0})
  write_at max_size index entry st =
      let count = add64 (sub64 st.last_idx index) 1 in
      let st' = record st { last_idx = sub64 index 1 } in
      if ltb max_size count
      then (throws length_error, st')
      else (do u ← append entry; pure tt) (record st' { spl = delete_keys s count index st.spl })
