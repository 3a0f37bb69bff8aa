-- ===== src/Operation/Request.antt =====
-- The operations that the program builds: those of make_put, make_update and make_delete.
use distributed_replicated_c.Prelude.{ℕ, ◌+◌, ◌<◌, refl, List, length, u64_mod, arith}
use distributed_replicated_c.Slice.{of_bytes}
use distributed_replicated_c.Operation.{
  Operation, make_put, make_update, make_delete, to_u8, of_u8, has_value,
}
use distributed_replicated_c.Operation.Codec.{IsWellFormed}

pub data Request : Type 0 where
  put update : List ℕ → List ℕ → Request
  delete : List ℕ → Request

abbrev pub operation_of : Request → Operation
operation_of (put key value) = make_put (of_bytes key) (of_bytes value)
operation_of (update key value) = make_update (of_bytes key) (of_bytes value)
operation_of (delete key) = make_delete (of_bytes key)

-- The size of the payload is a u64.
abbrev pub Fits : Request → Type 0
Fits (put key value) = 17 + length key + length value < u64_mod
Fits (update key value) = 17 + length key + length value < u64_mod
Fits (delete key) = 9 + length key < u64_mod

pub operation_of-IsWellFormed : (r : Request) → Fits r → IsWellFormed (operation_of r)
unfolding to_u8 of_u8 has_value
operation_of-IsWellFormed (put key value) h = record {
  code = omega arith;
  canonical = refl;
  shape = refl;
  fits = omega arith;
}
operation_of-IsWellFormed (update key value) h = record {
  code = omega arith;
  canonical = refl;
  shape = refl;
  fits = omega arith;
}
operation_of-IsWellFormed (delete key) h = record {
  code = omega arith;
  canonical = refl;
  shape = refl;
  fits = omega arith;
}
