-- ===== src/Operation/Codec.antt =====
-- The payload of a log entry: what `serialize` writes, that `deserialize` reads it back, and that a
-- payload which ends too early is refused.
use distributed_replicated_c.Prelude.{
  ℕ, ◌+◌, ◌≡◌, ◌<◌, refl, List, [], ◌∷◌, ◌++◌, Bool, true, false, Option, none, some, length,
  length-append, append-nil, drop-all, IsU64, u64_mod, add64, add64_lem, arith, ◌∙◌, ap, sym,
}
use distributed_replicated_c.Result.{Result, ok, throws, or_throw, overflow_error, ◌>>=◌}
use distributed_replicated_c.Nuraft.Buffer.{BufferApi, BufferLaws}
use distributed_replicated_c.Nuraft.Wire.{
  Writes, Writes-bind, Writes-put, Reads, Reads-bind, Reads-get, Reads-map, Reads-return, Refuses,
  Refuses-bind, Refuses-get, Refuses-map, Refuses-nil,
}
use distributed_replicated_c.Slice
use distributed_replicated_c.Slice.{OwnedSlice, serialized_size}
use distributed_replicated_c.Slice.Codec.{
  slice_encoding, serialize-Writes, deserialize-Reads, deserialize-Refuses, length-slice_encoding,
}
use distributed_replicated_c.Operation.{
  Operation, OperationType, to_u8, of_u8, has_value, buffer_size, value_size, serialize,
  serialize_to, serialize_value, deserialize, deserialize_from, deserialize_value,
}

abbrev pub is_some : Option OwnedSlice → Bool
is_some none = false
is_some (some v) = true

abbrev pub value_length : Option OwnedSlice → ℕ
value_length none = 0
value_length (some v) = 8 + length v.bytes

-- What make_put, make_update and make_delete build: the type byte is that of its constructor, there
-- is a value exactly for a put and an update, and the payload's size is a u64.
pub record IsWellFormed (op : Operation) : Type 0 where
  pub code : to_u8 op.type < 256
  pub canonical : of_u8 (to_u8 op.type) ≡ op.type
  pub shape : has_value op.type ≡ is_some op.value
  pub fits : 9 + length op.key.bytes + value_length op.value < u64_mod

module _ {b : BufferApi} (laws : BufferLaws b) where
  open b use {Cursor, Buffer, alloc, start}
  open laws use {left, u64_bytes}

  abbrev pub value_encoding : Option OwnedSlice → List ℕ
  value_encoding none = []
  value_encoding (some v) = slice_encoding laws v

  -- The type byte, the key, and the value if there is one.
  abbrev pub encoding : Operation → List ℕ
  encoding op = (to_u8 op.type ∷ []) ++ (slice_encoding laws op.key ++ value_encoding op.value)

  value_fits :
      (op : Operation)
      → IsWellFormed op
      → (v : OwnedSlice) → op.value ≡ some v
      → IsU64 (length v.bytes)
  value_fits op wf v e = omega (arith, wf.fits, ap value_length e)

  serialize_value-Writes :
      (value : Option OwnedSlice)
      → value_length value < u64_mod
      → Writes laws (serialize_value b value) (value_encoding value)
  unfolding serialize_value
  serialize_value-Writes none h = record { at = λ c room. (c, refl, sym (append-nil _), refl) }
  serialize_value-Writes (some v) h = serialize-Writes laws v (omega arith)

  serialize_to-Writes :
      (op : Operation) → IsWellFormed op → Writes laws (serialize_to b op) (encoding op)
  unfolding serialize_to
  serialize_to-Writes op wf =
      Writes-bind laws (Writes-put laws _ (laws.put_u8_lem (to_u8 op.type) wf.code)) (
        Writes-bind laws (serialize-Writes laws op.key (omega (arith, wf.fits)))
          (serialize_value-Writes op.value (omega (arith, wf.fits))))

  length-value_encoding :
      (value : Option OwnedSlice)
      → value_length value < u64_mod
      → (value_size value ≡ value_length value)
        × (length (value_encoding value) ≡ value_length value)
  unfolding value_size serialized_size
  length-value_encoding none h = (refl, refl)
  length-value_encoding (some v) h = (
    add64_lem 8 (length v.bytes) h,
    length-slice_encoding laws v h ∙ add64_lem 8 (length v.bytes) h,
  )

  length-encoding : (op : Operation) → IsWellFormed op → length (encoding op) ≡ buffer_size op
  unfolding buffer_size serialized_size add64
  length-encoding op wf = omega (
    arith,
    length-append (slice_encoding laws op.key) (value_encoding op.value),
    (length-value_encoding op.value (omega (arith, wf.fits))).0,
    (length-value_encoding op.value (omega (arith, wf.fits))).1,
    length-slice_encoding laws op.key (omega (arith, wf.fits)),
    add64_lem 8 (length op.key.bytes) (omega (arith, wf.fits)),
    add64_lem 1 (8 + length op.key.bytes) (omega (arith, wf.fits)),
    add64_lem (9 + length op.key.bytes) (value_length op.value) wf.fits,
  )

  -- For a well-formed operation `serialize` does not throw, and the buffer that it returns holds the
  -- encoding of the operation and no other byte.
  pub serialize-encoding :
      (op : Operation)
      → IsWellFormed op
      → (buf : Buffer) × (serialize b op ≡ ok buf) × (left (start buf) ≡ encoding op)
  unfolding serialize
  serialize-encoding op wf =
      let c0 = start (alloc (buffer_size op)) in
      let room = laws.length-left-alloc (buffer_size op) ∙ sym (length-encoding op wf) in
      let (c, e, p, l) = (serialize_to-Writes op wf).at c0 (omega (arith, room)) in
      let full : left c ≡ [] =
        l ∙ drop-all (length (encoding op)) (left c0) (omega (arith, room)) in
      (
        b.buffer_of c,
        rw e refl,
        laws.left-start c ∙ rw (p, full, laws.passed-start (alloc (buffer_size op))) (append-nil _),
      )

  -- The steps of `deserialize` after the type byte, the key and the value.
  abbrev after_key : OperationType → OwnedSlice × Cursor → Result (Operation × Cursor)
  after_key type (key, c) = do
    (value, c') ← deserialize_value b (has_value type) c
    ok (record { key = key; value = value; type = type }, c')

  abbrev after_code : ℕ × Cursor → Result (Operation × Cursor)
  after_code (code, c) = do (key, c') ← Slice.deserialize b c; after_key (of_u8 code) (key, c')

  deserialize_value-Reads :
      (value : Option OwnedSlice)
      → value_length value < u64_mod
      → Reads laws (deserialize_value b (is_some value)) (value_encoding value) value
  unfolding deserialize_value
  deserialize_value-Reads none h = Reads-return laws none
  deserialize_value-Reads (some v) h = Reads-map laws some (deserialize-Reads laws v (omega arith))

  deserialize_value-Refuses :
      (value : Option OwnedSlice)
      → value_length value < u64_mod
      → Refuses laws (deserialize_value b (is_some value)) (value_encoding value)
  unfolding deserialize_value
  deserialize_value-Refuses none h = Refuses-nil laws _
  deserialize_value-Refuses (some v) h =
      Refuses-map laws some (deserialize-Refuses laws v (omega arith))

  module _ (op : Operation) (wf : IsWellFormed op) where
    abbrev with_value : Option OwnedSlice → Operation
    with_value value = record op { value = value }

    after_key-Reads :
        Reads laws (λ c. after_key (of_u8 (to_u8 op.type)) (op.key, c)) (value_encoding op.value) op
    after_key-Reads =
        rw (wf.canonical, wf.shape)
          (Reads-map laws with_value (deserialize_value-Reads op.value (omega (arith, wf.fits))))

    after_key-Refuses :
        Refuses laws (λ c. after_key (of_u8 (to_u8 op.type)) (op.key, c)) (value_encoding op.value)
    after_key-Refuses =
        rw (wf.canonical, wf.shape)
          (Refuses-map laws with_value
            (deserialize_value-Refuses op.value (omega (arith, wf.fits))))

    code_read :
        Reads laws (λ c. or_throw overflow_error (b.get_u8 c)) (to_u8 op.type ∷ []) (to_u8 op.type)
    code_read = Reads-get laws _ (laws.get_u8_lem (to_u8 op.type) wf.code)

    key_read : Reads laws (Slice.deserialize b) (slice_encoding laws op.key) op.key
    key_read = deserialize-Reads laws op.key (omega (arith, wf.fits))

    deserialize_from-Reads : Reads laws (deserialize_from b) (encoding op) op
    unfolding deserialize_from
    deserialize_from-Reads =
        Reads-bind laws after_code code_read
          (Reads-bind laws (after_key (of_u8 (to_u8 op.type))) key_read after_key-Reads)

    deserialize_from-Refuses : Refuses laws (deserialize_from b) (encoding op)
    unfolding deserialize_from
    deserialize_from-Refuses =
        Refuses-bind laws after_code code_read
          (Refuses-get laws (to_u8 op.type ∷ []) laws.get_u8_short)
          (Refuses-bind laws (after_key (of_u8 (to_u8 op.type))) key_read
            (deserialize-Refuses laws op.key (omega (arith, wf.fits))) after_key-Refuses)

    -- A well-formed operation serializes without an exception, and what is read back from the buffer
    -- is the same operation: key, value and type.
    pub deserialize-serialize :
        (buf : Buffer) × (serialize b op ≡ ok buf) × (deserialize b buf ≡ ok op)
    unfolding deserialize
    deserialize-serialize =
        let (buf, e, l) = serialize-encoding op wf in
        let (c, r, _) = deserialize_from-Reads.at (start buf) [] (l ∙ sym (append-nil _)) in
        (buf, e, rw r refl)

    -- A payload that is a proper prefix of a well-formed operation's encoding is refused with an
    -- overflow_error: no truncated operation is ever read.
    pub deserialize_truncated :
        (payload : Buffer) (x : ℕ) (more : List ℕ)
        → left (start payload) ++ x ∷ more ≡ encoding op
        → deserialize b payload ≡ throws overflow_error
    unfolding deserialize
    deserialize_truncated payload x more e =
        rw (deserialize_from-Refuses.at (start payload) x more e) refl
