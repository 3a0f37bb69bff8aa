-- ===== src/Nuraft/Buffer.antt =====
-- nuraft::buffer and nuraft::buffer_serializer. The library is not part of the repository, so its
-- operations are fields of a record, and what its documentation promises is a second record.
use distributed_replicated_c.Prelude.{
  ℕ, ◌≤◌, ◌<◌, ℤ, InInt32, ◌≡◌, Option, none, some, List, [], ◌∷◌, ◌++◌, length, drop, IsU64,
}

-- A cursor is a buffer with a position: a buffer_serializer, or a buffer with its own position.
-- `none` is the exception that an access past the end of the buffer throws.
pub record BufferApi : Type 1 where
  pub Buffer : Type 0
  pub Cursor : Type 0
  pub alloc : ℕ → Buffer
  -- a new buffer_serializer over the buffer, or buffer::pos(0)
  pub start : Buffer → Cursor
  -- the buffer as written through the cursor so far
  pub buffer_of : Cursor → Buffer
  pub put_u8 : ℕ → Cursor → Option Cursor
  pub put_u64 : ℕ → Cursor → Option Cursor
  pub put_i32 : ℤ → Cursor → Option Cursor
  pub put_raw : List ℕ → Cursor → Option Cursor
  pub get_u8 : Cursor → Option (ℕ × Cursor)
  pub get_u64 : Cursor → Option (ℕ × Cursor)
  pub get_i32 : Cursor → Option (ℤ × Cursor)
  pub get_raw : ℕ → Cursor → Option (List ℕ × Cursor)

-- A put at a cursor with `bytes` to write succeeds, moves past them and leaves the rest alone.
abbrev pub Puts :
    (b : BufferApi) (passed left : b.Cursor → List ℕ)
    → (b.Cursor → Option b.Cursor)
    → List ℕ
    → Type 0
Puts b passed left put bytes =
    (c : b.Cursor)
    → length bytes ≤ length (left c)
    → (c' : b.Cursor) × (put c ≡ some c')
      × (passed c' ≡ passed c ++ bytes)
      × (left c' ≡ drop (length bytes) (left c))

-- A get at a cursor that stands before `bytes` returns their value and moves past them.
abbrev pub Gets :
    {V : Type 0} (b : BufferApi) (left : b.Cursor → List ℕ)
    → (b.Cursor → Option (V × b.Cursor))
    → List ℕ
    → V
    → Type 0
Gets b left get bytes v =
    (c : b.Cursor) (rest : List ℕ)
    → left c ≡ bytes ++ rest
    → (c' : b.Cursor) × (get c ≡ some (v, c')) × (left c' ≡ rest)

-- The documented behaviour: `passed` and `left` are the bytes before and after the position.
pub record BufferLaws (b : BufferApi) : Type 0 where
  pub passed : b.Cursor → List ℕ
  pub left : b.Cursor → List ℕ
  pub u64_bytes : ℕ → List ℕ
  pub i32_bytes : ℤ → List ℕ
  pub length-u64_bytes : (v : ℕ) → length (u64_bytes v) ≡ 8
  pub length-i32_bytes : (v : ℤ) → length (i32_bytes v) ≡ 4
  pub passed-start : (buf : b.Buffer) → passed (b.start buf) ≡ []
  pub length-left-alloc : (n : ℕ) → length (left (b.start (b.alloc n))) ≡ n
  pub left-start : (c : b.Cursor) → left (b.start (b.buffer_of c)) ≡ passed c ++ left c
  pub put_u8_lem : (v : ℕ) → v < 256 → Puts b passed left (b.put_u8 v) (v ∷ [])
  pub put_u64_lem : (v : ℕ) → IsU64 v → Puts b passed left (b.put_u64 v) (u64_bytes v)
  pub put_i32_lem : (v : ℤ) → InInt32 v → Puts b passed left (b.put_i32 v) (i32_bytes v)
  pub put_raw_lem : (bytes : List ℕ) → Puts b passed left (b.put_raw bytes) bytes
  pub get_u8_lem : (v : ℕ) → v < 256 → Gets b left b.get_u8 (v ∷ []) v
  pub get_u64_lem : (v : ℕ) → IsU64 v → Gets b left b.get_u64 (u64_bytes v) v
  pub get_i32_lem : (v : ℤ) → InInt32 v → Gets b left b.get_i32 (i32_bytes v) v
  pub get_raw_lem : (bytes : List ℕ) → Gets b left (b.get_raw (length bytes)) bytes bytes
  pub get_u8_short : (c : b.Cursor) → length (left c) < 1 → b.get_u8 c ≡ none
  pub get_u64_short : (c : b.Cursor) → length (left c) < 8 → b.get_u64 c ≡ none
  pub get_raw_short : (n : ℕ) (c : b.Cursor) → length (left c) < n → b.get_raw n c ≡ none
