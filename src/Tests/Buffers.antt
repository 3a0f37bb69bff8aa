-- ===== src/Tests/Buffers.antt =====
-- Buffers as lists of bytes, with little-endian numbers: they satisfy the documented laws.
use distributed_replicated_c.Prelude.{
  ℕ, ◌-◌, ◌^◌, ◌≤◌, ◌<◌, ◌≡◌, refl, ℤ, pos, negsuc, InInt32, ltb, leb, if◌then◌else◌, Option, none,
  some, List, [], ◌∷◌, ◌++◌, length, take, drop, arith, take-append, drop-append, leb-true,
  leb-false, length-append, replicate, length-replicate,
}
use distributed_replicated_c.Bytes.{le_bytes, of_le_bytes, length-le_bytes, u64_round_trip}
use distributed_replicated_c.Nuraft.Buffer.{BufferApi, BufferLaws}

pub byte_round_trip : (v : ℕ) → of_le_bytes (v ∷ []) ≡ v
unfolding of_le_bytes
byte_round_trip v = omega arith

u32_round_trip : (v : ℕ) → v < 2 ^ 32 → of_le_bytes (le_bytes 4 v) ≡ v
unfolding le_bytes of_le_bytes
u32_round_trip v h = omega arith

-- Two's complement.
unfoldable pub to_word : ℤ → ℕ
to_word (pos n) = n
to_word (negsuc n) = 2 ^ 32 - 1 - n

unfoldable pub of_word : ℕ → ℤ
of_word w = if ltb w (2 ^ 31) then pos w else negsuc (2 ^ 32 - 1 - w)

pub i32_round_trip : (v : ℤ) → InInt32 v → of_word (of_le_bytes (le_bytes 4 (to_word v))) ≡ v
unfolding to_word of_word
i32_round_trip (pos n) h = rw (u32_round_trip n (omega arith)) (ground arith)
i32_round_trip (negsuc n) h = rw (u32_round_trip (2 ^ 32 - 1 - n) (omega arith)) (ground arith)

-- The bytes before the position, and those from it on.
abbrev pub ListCursor : Type 0
ListCursor = List ℕ × List ℕ

unfoldable pub write : List ℕ → ListCursor → Option ListCursor
write bytes (before, after) =
    if leb (length bytes) (length after)
    then some (before ++ bytes, drop (length bytes) after)
    else none

unfoldable pub read : ℕ → ListCursor → Option (List ℕ × ListCursor)
read n (before, after) =
    if leb n (length after)
    then some (take n after, (before ++ take n after, drop n after))
    else none

unfoldable pub read_as : {V : Type 0} → (List ℕ → V) → ℕ → ListCursor → Option (V × ListCursor)
read_as decode n c = elim (read n c) [ none ↦ none | some (bytes, c') ↦ some (decode bytes, c') ]

abbrev pub list_buffers : BufferApi
list_buffers = record {
  Buffer = List ℕ;
  Cursor = ListCursor;
  alloc = λ n. replicate n 0;
  start = λ buf. ([], buf);
  buffer_of = λ c. c.0 ++ c.1;
  put_u8 = λ v. write (v ∷ []);
  put_u64 = λ v. write (le_bytes 8 v);
  put_i32 = λ v. write (le_bytes 4 (to_word v));
  put_raw = write;
  get_u8 = read_as of_le_bytes 1;
  get_u64 = read_as of_le_bytes 8;
  get_i32 = read_as (λ bytes. of_word (of_le_bytes bytes)) 4;
  get_raw = read;
}

pub write_lem :
    (bytes : List ℕ) (c : ListCursor)
    → length bytes ≤ length c.1
    → (c' : ListCursor) × (write bytes c ≡ some c')
      × (c'.0 ≡ c.0 ++ bytes)
      × (c'.1 ≡ drop (length bytes) c.1)
unfolding write
write_lem bytes (before, after) h =
    ((before ++ bytes, drop (length bytes) after), rw (leb-true _ _ h), refl, refl)

pub read_lem :
    (bytes : List ℕ) (c : ListCursor) (rest : List ℕ)
    → c.1 ≡ bytes ++ rest
    → read (length bytes) c ≡ some (bytes, (c.0 ++ bytes, rest))
unfolding read
read_lem bytes (before, after) rest e = rw (
  e,
  leb-true (length bytes) (length (bytes ++ rest)) (omega (arith, length-append bytes rest)),
  take-append bytes rest,
  drop-append bytes rest,
)

pub read_as_lem :
    {V : Type 0} (decode : List ℕ → V) (n : ℕ) (bytes : List ℕ) (v : V) (c : ListCursor)
    (rest : List ℕ)
    → length bytes ≡ n
    → decode bytes ≡ v
    → c.1 ≡ bytes ++ rest
    → (c' : ListCursor) × (read_as decode n c ≡ some (v, c')) × (c'.1 ≡ rest)
unfolding read_as
read_as_lem decode n bytes v c rest k d e =
    ((c.0 ++ bytes, rest), rw (← k, read_as, read_lem bytes c rest e, d), refl)

pub read_short : (n : ℕ) (c : ListCursor) → length c.1 < n → read n c ≡ none
unfolding read
read_short n (before, after) h = rw (leb-false _ _ h)

pub read_as_short :
    {V : Type 0} (decode : List ℕ → V) (n : ℕ) (c : ListCursor)
    → length c.1 < n
    → read_as decode n c ≡ none
unfolding read_as
read_as_short decode n c h = rw (read_as, read_short n c h)

unfoldable pub list_buffer_laws : BufferLaws list_buffers
list_buffer_laws = record {
  passed = λ c. c.0;
  left = λ c. c.1;
  u64_bytes = le_bytes 8;
  i32_bytes = λ v. le_bytes 4 (to_word v);
  length-u64_bytes = length-le_bytes 8;
  length-i32_bytes = λ v. length-le_bytes 4 (to_word v);
  passed-start = λ buf. refl;
  length-left-alloc = λ n. length-replicate n 0;
  left-start = λ c. refl;
  put_u8_lem = λ v h. write_lem (v ∷ []);
  put_u64_lem = λ v h. write_lem (le_bytes 8 v);
  put_i32_lem = λ v h. write_lem (le_bytes 4 (to_word v));
  put_raw_lem = write_lem;
  get_u8_lem =
      λ v h c rest e. read_as_lem of_le_bytes 1 (v ∷ []) v c rest refl (byte_round_trip v) e;
  get_u64_lem = λ v h c rest e.
      read_as_lem of_le_bytes 8 (le_bytes 8 v) v c rest (length-le_bytes 8 v) (u64_round_trip v h)
        e;
  get_i32_lem = λ v h c rest e.
      read_as_lem (λ bytes. of_word (of_le_bytes bytes)) 4 (le_bytes 4 (to_word v)) v c rest
        (length-le_bytes 4 (to_word v)) (i32_round_trip v h) e;
  get_raw_lem = λ bytes c rest e. ((c.0 ++ bytes, rest), read_lem bytes c rest e, refl);
  get_u8_short = read_as_short of_le_bytes 1;
  get_u64_short = read_as_short of_le_bytes 8;
  get_raw_short = read_short;
}
