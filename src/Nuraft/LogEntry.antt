-- ===== src/Nuraft/LogEntry.antt =====
-- nuraft::log_entry, and the methods of nuraft::buffer that move whole buffers. The library is not
-- part of the repository: its operations are fields of a record, its documented behaviour another.
use distributed_replicated_c.Prelude.{ℕ, ◌≡◌, Bool, Option, some, List, ◌++◌, length}
use distributed_replicated_c.Nuraft.Buffer.{BufferApi, BufferLaws, Puts}

pub record EntryApi (b : BufferApi) : Type 1 where
  pub LogEntry : Type 0
  -- log_entry(term, buf), with the defaults of the other parameters
  pub new_default : ℕ → b.Buffer → LogEntry
  -- log_entry(term, buf, val_type, timestamp, has_crc32, crc32, false)
  pub new_entry : ℕ → b.Buffer → ℕ → ℕ → Bool → ℕ → LogEntry
  pub get_term : LogEntry → ℕ
  pub get_buf : LogEntry → b.Buffer
  pub get_val_type : LogEntry → ℕ
  pub get_timestamp : LogEntry → ℕ
  pub has_crc32 : LogEntry → Bool
  pub get_crc32 : LogEntry → ℕ
  pub serialize : LogEntry → b.Buffer
  -- `none` is the exception thrown on a malformed buffer
  pub deserialize : b.Buffer → Option LogEntry
  pub clone : b.Buffer → b.Buffer
  pub size : b.Buffer → ℕ
  -- buffer::put(const buffer&)
  pub put_buffer : b.Buffer → b.Cursor → Option b.Cursor
  -- buffer::get(ptr<buffer>&), which fills the given buffer
  pub get_buffer : b.Buffer → b.Cursor → Option (b.Buffer × b.Cursor)

-- What the serialized form of an entry keeps: the term, the type and the bytes of the payload.
pub record SameEntry {b : BufferApi} (laws : BufferLaws b) (a : EntryApi b) (x y : a.LogEntry)
    : Type 0 where
  pub term : a.get_term x ≡ a.get_term y
  pub val_type : a.get_val_type x ≡ a.get_val_type y
  pub bytes : laws.left (b.start (a.get_buf x)) ≡ laws.left (b.start (a.get_buf y))

pub record EntryLaws {b : BufferApi} (laws : BufferLaws b) (a : EntryApi b) : Type 0 where
  pub deserialize-serialize :
      (x : a.LogEntry) (buf : b.Buffer)
      → laws.left (b.start buf) ≡ laws.left (b.start (a.serialize x))
      → (y : a.LogEntry) × (a.deserialize buf ≡ some y) × SameEntry laws a y x
  pub size_lem : (buf : b.Buffer) → a.size buf ≡ length (laws.left (b.start buf))
  pub put_buffer_lem :
      (buf : b.Buffer) → Puts b laws.passed laws.left (a.put_buffer buf) (laws.left (b.start buf))
  pub get_buffer_lem :
      (dst : b.Buffer) (bytes rest : List ℕ) (c : b.Cursor)
      → length bytes ≡ length (laws.left (b.start dst))
      → laws.left c ≡ bytes ++ rest
      → (filled : b.Buffer) × (c' : b.Cursor) × (a.get_buffer dst c ≡ some (filled, c'))
        × (laws.left (b.start filled) ≡ bytes)
        × (laws.left c' ≡ rest)
