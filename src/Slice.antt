-- ===== src/Slice.antt =====
-- include/server/owned_slice.h and src/server/owned_slice.cpp: a byte string that owns its bytes,
-- and how it is written to and read from a buffer.
pub mod Codec
pub mod Memory
use distributed_replicated_c.Prelude.{ℕ, ◌==◌, if◌then◌else◌, List, [], ◌∷◌, length, take, add64}
use distributed_replicated_c.Result.{Result, ok, overflow_error, or_throw, ◌>>=◌}
use distributed_replicated_c.Nuraft.Buffer.{BufferApi}

-- The field is `data_`.
pub record OwnedSlice : Type 0 where
  pub bytes : List ℕ

-- `slice` of SplinterDB, which does not own its bytes: their number, and the memory from the pointer
-- on.
pub record SplinterSlice : Type 0 where
  pub size : ℕ
  pub memory : List ℕ

-- From a vector of bytes or a std::string: the bytes are copied.
abbrev pub of_bytes : List ℕ → OwnedSlice
of_bytes bytes = record { bytes = bytes }

-- strlen: the characters up to the terminating zero.
unfoldable pub up_to_zero : List ℕ → List ℕ
up_to_zero [] = []
up_to_zero (c ∷ cs) = let rest = up_to_zero cs in if c == 0 then [] else c ∷ rest

-- From a C string.
unfoldable pub of_cstring : List ℕ → OwnedSlice
unfolding up_to_zero
of_cstring chars = of_bytes (up_to_zero chars)

-- From a pointer, with the memory from there on, and a length, which must not go beyond the object.
unfoldable pub of_memory : List ℕ → ℕ → OwnedSlice
of_memory memory n = of_bytes (take n memory)

unfoldable pub of_slice : SplinterSlice → OwnedSlice
unfolding of_memory
of_slice spl_slice = of_memory spl_slice.memory spl_slice.size

unfoldable pub fill_slice : OwnedSlice → SplinterSlice
fill_slice s = record { size = length s.bytes; memory = s.bytes }

abbrev pub to_string : OwnedSlice → List ℕ
to_string s = s.bytes

abbrev pub size : OwnedSlice → ℕ
size s = length s.bytes

unfoldable pub serialized_size : OwnedSlice → ℕ
serialized_size s = add64 8 (length s.bytes)

abbrev pub take_data : OwnedSlice → List ℕ
take_data s = s.bytes

module _ (b : BufferApi) where
  open b use {Cursor, put_u64, put_raw, get_u64, get_raw}

  unfoldable pub serialize : OwnedSlice → Cursor → Result Cursor
  serialize s bs = do
    bs' ← or_throw overflow_error (put_u64 (length s.bytes) bs)
    or_throw overflow_error (put_raw s.bytes bs')

  unfoldable pub deserialize : Cursor → Result (OwnedSlice × Cursor)
  deserialize bs = do
    (len, bs') ← or_throw overflow_error (get_u64 bs)
    (bytes, bs'') ← or_throw overflow_error (get_raw len bs')
    ok (of_bytes bytes, bs'')
