-- ===== src/Slice/Memory.antt =====
-- Byte strings that are lent to SplinterDB and copied back.
use distributed_replicated_c.Prelude.{
  ℕ, ◌≡◌, ap, ◌∙◌, List, ◌++◌, length, append-nil, sym, take, take-append,
}
use distributed_replicated_c.Slice.{
  OwnedSlice, of_bytes, of_memory, of_slice, fill_slice, to_string,
}

-- A copy of the bytes of a slice, whatever lies behind them in memory, is the slice.
pub of_memory-to_string :
    (s : OwnedSlice) (behind : List ℕ) → of_memory (to_string s ++ behind) (length s.bytes) ≡ s
unfolding of_memory
of_memory-to_string s behind = ap of_bytes (take-append s.bytes behind)

-- What a slice lends to SplinterDB is copied back as the same slice.
pub of_slice-fill_slice : (s : OwnedSlice) → of_slice (fill_slice s) ≡ s
unfolding of_slice fill_slice of_memory
of_slice-fill_slice s =
    ap (λ bytes. of_bytes (take (length s.bytes) bytes)) (sym (append-nil s.bytes))
    ∙ ap of_bytes (take-append s.bytes _)
