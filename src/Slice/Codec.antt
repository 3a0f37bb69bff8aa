-- ===== src/Slice/Codec.antt =====
-- The wire form of an owned_slice: its length as a u64, then its bytes.
use distributed_replicated_c.Prelude.{
  ℕ, ◌≡◌, ◌<◌, List, ◌++◌, length, length-append, IsU64, u64_mod, ◌+◌, add64_lem, arith,
}
use distributed_replicated_c.Nuraft.Buffer.{BufferApi, BufferLaws}
use distributed_replicated_c.Nuraft.Wire.{
  Writes, Writes-bind, Writes-put, Reads, Reads-bind, Reads-get, Reads-map, Refuses, Refuses-bind,
  Refuses-get, Refuses-map,
}
use distributed_replicated_c.Slice.{OwnedSlice, of_bytes, serialize, deserialize, serialized_size}
use distributed_replicated_c.Result.{Result, ok, or_throw, overflow_error, ◌>>=◌}

module _ {b : BufferApi} (laws : BufferLaws b) where
  open b use {Cursor, get_raw}
  open laws use {left, u64_bytes}

  -- A u64 with the number of bytes, then the bytes.
  abbrev pub slice_encoding : OwnedSlice → List ℕ
  slice_encoding s = u64_bytes (length s.bytes) ++ s.bytes

  pub serialize-Writes :
      (s : OwnedSlice) → IsU64 (length s.bytes) → Writes laws (serialize b s) (slice_encoding s)
  unfolding serialize
  serialize-Writes s fits =
      Writes-bind laws (Writes-put laws _ (laws.put_u64_lem (length s.bytes) fits))
        (Writes-put laws _ (laws.put_raw_lem s.bytes))

  -- What `deserialize` does once the length is known.
  abbrev read_bytes : ℕ × Cursor → Result (OwnedSlice × Cursor)
  read_bytes (len, c) = do
    (bytes, c') ← or_throw overflow_error (get_raw len c)
    ok (of_bytes bytes, c')

  pub deserialize-Reads :
      (s : OwnedSlice) → IsU64 (length s.bytes) → Reads laws (deserialize b) (slice_encoding s) s
  unfolding deserialize
  deserialize-Reads s fits =
      Reads-bind laws read_bytes (Reads-get laws _ (laws.get_u64_lem (length s.bytes) fits))
        (Reads-map laws of_bytes (Reads-get laws s.bytes (laws.get_raw_lem s.bytes)))

  pub deserialize-Refuses :
      (s : OwnedSlice) → IsU64 (length s.bytes) → Refuses laws (deserialize b) (slice_encoding s)
  unfolding deserialize
  deserialize-Refuses s fits =
      Refuses-bind laws read_bytes (Reads-get laws _ (laws.get_u64_lem (length s.bytes) fits))
        (Refuses-get laws (u64_bytes (length s.bytes))
          (λ c h. laws.get_u64_short c (omega (arith, laws.length-u64_bytes (length s.bytes)))))
        (Refuses-map laws of_bytes (Refuses-get laws s.bytes (laws.get_raw_short (length s.bytes))))

  pub length-slice_encoding :
      (s : OwnedSlice)
      → 8 + length s.bytes < u64_mod
      → length (slice_encoding s) ≡ serialized_size s
  unfolding serialized_size
  length-slice_encoding s fits = omega (
    arith,
    add64_lem 8 (length s.bytes) fits,
    length-append (u64_bytes (length s.bytes)) s.bytes,
    laws.length-u64_bytes (length s.bytes),
  )
