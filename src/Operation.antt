-- ===== src/Operation.antt =====
-- include/server/splinterdb_operation.h and src/server/splinterdb_operation.cpp: a put, update or
-- delete, and its form as the payload of a Raft log entry.
pub mod Codec
pub mod Request
use distributed_replicated_c.Prelude.{
  ℕ, ◌==◌, if◌then◌else◌, List, Option, none, some, Bool, true, false, ◌||◌, add64,
}
use distributed_replicated_c.Result.{Result, ok, throws, overflow_error, undefined, or_throw, ◌>>=◌}
use distributed_replicated_c.Nuraft.Buffer.{BufferApi}
use distributed_replicated_c.Slice
use distributed_replicated_c.Slice.{OwnedSlice, serialized_size}

-- The enum has the underlying type uint8_t, and `deserialize` casts any byte to it: `other` is a
-- byte that is none of the three enumerators.
pub data OperationType : Type 0 where
  put update delete : OperationType
  other : ℕ → OperationType

unfoldable pub to_u8 : OperationType → ℕ
to_u8 put = 0
to_u8 update = 1
to_u8 delete = 2
to_u8 (other n) = n

unfoldable pub of_u8 : ℕ → OperationType
of_u8 n = if n == 0 then put else if n == 1 then update else if n == 2 then delete else other n

pub record Operation : Type 0 where
  pub key : OwnedSlice
  pub value : Option OwnedSlice
  pub type : OperationType

abbrev pub make_put : OwnedSlice → OwnedSlice → Operation
make_put key value = record { key = key; value = some value; type = put }

abbrev pub make_update : OwnedSlice → OwnedSlice → Operation
make_update key value = record { key = key; value = some value; type = update }

abbrev pub make_delete : OwnedSlice → Operation
make_delete key = record { key = key; value = none; type = delete }

-- `value()` dereferences the optional.
abbrev pub value_of : Operation → Result OwnedSlice
value_of op = elim op.value [ none ↦ throws undefined | some v ↦ ok v ]

unfoldable pub value_size : Option OwnedSlice → ℕ
value_size none = 0
value_size (some v) = serialized_size v

unfoldable pub buffer_size : Operation → ℕ
unfolding value_size
buffer_size op = add64 (add64 1 (serialized_size op.key)) (value_size op.value)

-- Whether `deserialize` expects a value behind the key.
unfoldable pub has_value : OperationType → Bool
has_value put = true
has_value update = true
has_value delete = false
has_value (other n) = false

module _ (b : BufferApi) where
  open b use {Buffer, Cursor, alloc, start, buffer_of, put_u8, get_u8}

  unfoldable pub serialize_value : Option OwnedSlice → Cursor → Result Cursor
  serialize_value none bs = ok bs
  serialize_value (some v) bs = Slice.serialize b v bs

  unfoldable pub serialize_to : Operation → Cursor → Result Cursor
  unfolding serialize_value
  serialize_to op bs = do
    bs1 ← or_throw overflow_error (put_u8 (to_u8 op.type) bs)
    bs2 ← Slice.serialize b op.key bs1
    serialize_value op.value bs2

  unfoldable pub serialize : Operation → Result Buffer
  unfolding serialize_to
  serialize op = do bs ← serialize_to op (start (alloc (buffer_size op))); ok (buffer_of bs)

  unfoldable pub deserialize_value : Bool → Cursor → Result (Option OwnedSlice × Cursor)
  deserialize_value false bs = ok (none, bs)
  deserialize_value true bs = do (value, bs') ← Slice.deserialize b bs; ok (some value, bs')

  unfoldable pub deserialize_from : Cursor → Result (Operation × Cursor)
  unfolding deserialize_value
  deserialize_from bs = do
    (code, bs1) ← or_throw overflow_error (get_u8 bs)
    (key, bs2) ← Slice.deserialize b bs1
    (value, bs3) ← deserialize_value (has_value (of_u8 code)) bs2
    ok (record { key = key; value = value; type = of_u8 code }, bs3)

  unfoldable pub deserialize : Buffer → Result Operation
  unfolding deserialize_from
  deserialize payload = do (op, bs) ← deserialize_from (start payload); ok op
