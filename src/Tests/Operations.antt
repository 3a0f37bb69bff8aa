-- ===== src/Tests/Operations.antt =====
-- The operations' codec at concrete inputs.
use distributed_replicated_c.Prelude.{◌≡◌, refl, [], ◌∷◌, add64, arith, ℕ, List}
use distributed_replicated_c.Result.{ok, throws, overflow_error}
use distributed_replicated_c.Slice.{of_bytes, serialized_size}
use distributed_replicated_c.Slice
use distributed_replicated_c.Operation.{
  Operation, make_put, make_delete, buffer_size, serialize, deserialize, to_u8, of_u8, has_value,
}
use distributed_replicated_c.Operation.Codec.{
  IsWellFormed, deserialize-serialize, deserialize_truncated,
}
use distributed_replicated_c.Bytes.{le_bytes, of_le_bytes}
use distributed_replicated_c.Tests.Buffers.{list_buffers, list_buffer_laws, write, read, read_as}

abbrev pub put_ab : Operation
put_ab = make_put (of_bytes (97 ∷ [])) (of_bytes (98 ∷ 99 ∷ []))

pub put_ab-IsWellFormed : IsWellFormed put_ab
unfolding to_u8 of_u8 has_value
put_ab-IsWellFormed = record {
  code = omega arith;
  canonical = refl;
  shape = refl;
  fits = omega arith;
}

-- The payload of a put of the key "a" and the value "bc".
abbrev pub delete_a : Operation
delete_a = make_delete (of_bytes (97 ∷ []))

abbrev pub delete_payload : List ℕ
delete_payload = 2 ∷ 1 ∷ 0 ∷ 0 ∷ 0 ∷ 0 ∷ 0 ∷ 0 ∷ 0 ∷ 97 ∷ []

pub serialize_delete : serialize list_buffers delete_a ≡ ok delete_payload
unfolding serialize to_u8 buffer_size serialized_size add64 Slice.serialize write le_bytes
serialize_delete = refl

abbrev pub put_payload : List ℕ
put_payload = 0 ∷ 1 ∷ 0 ∷ 0 ∷ 0 ∷ 0 ∷ 0 ∷ 0 ∷ 0 ∷ 97 ∷ 2 ∷ 0 ∷ 0 ∷ 0 ∷ 0 ∷ 0 ∷ 0 ∷ 0 ∷ 98 ∷ 99 ∷ []

pub serialize_put : serialize list_buffers put_ab ≡ ok put_payload
unfolding serialize to_u8 buffer_size serialized_size add64 Slice.serialize write le_bytes
serialize_put = refl

deserialize_put : deserialize list_buffers put_payload ≡ ok put_ab
unfolding deserialize of_u8 has_value Slice.deserialize read_as read of_le_bytes
deserialize_put = refl

deserialize-serialize_example :
    (buf : List ℕ) × (serialize list_buffers put_ab ≡ ok buf)
    × (deserialize list_buffers buf ≡ ok put_ab)
deserialize-serialize_example = deserialize-serialize list_buffer_laws put_ab put_ab-IsWellFormed

-- The payload cut off inside the length of the value.
deserialize_truncated_example :
    deserialize list_buffers (0 ∷ 1 ∷ 0 ∷ 0 ∷ 0 ∷ 0 ∷ 0 ∷ 0 ∷ 0 ∷ 97 ∷ 2 ∷ [])
    ≡ throws overflow_error
unfolding list_buffer_laws le_bytes to_u8
deserialize_truncated_example =
    deserialize_truncated list_buffer_laws put_ab put_ab-IsWellFormed _ 0
      (0 ∷ 0 ∷ 0 ∷ 0 ∷ 0 ∷ 0 ∷ 98 ∷ 99 ∷ []) refl
