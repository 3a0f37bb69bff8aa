-- ===== src/InmemLogStore/Agree.antt =====
-- The two range reads of the log store compared.
use distributed_replicated_c.Prelude.{
  ℕ, ◌+◌, ◌-◌, ◌<◌, ◌≤◌, ◌≡◌, refl, ap, ◌∙◌, pos, some, List, map, length, take, drop, arith, ◌⊎◌,
  inl, inr, u64_mod,
}
use distributed_replicated_c.Result.{ok}
use distributed_replicated_c.Nuraft.Buffer.{BufferApi}
use distributed_replicated_c.Nuraft.LogEntry.{EntryApi}
use distributed_replicated_c.InmemLogStore.{InmemLogStore, log_entries, log_entries_ext, make_clone}
use distributed_replicated_c.InmemLogStore.View.{Represents}
use distributed_replicated_c.InmemLogStore.Range.{
  total_size, slice_of, log_entries-slice, log_entries_ext-IsBatch,
}

module _ {b : BufferApi} (a : EntryApi b) (s : InmemLogStore a.LogEntry) (dummy : a.LogEntry)
    (log : List a.LogEntry) (r : Represents s dummy log) where
  -- The two range reads agree: `log_entries_ext` with the hint 0 gives the entries of `log_entries`,
  -- none of which is a null pointer, when the range lies inside the log, a vector can hold it, and
  -- the sizes of its payloads add up to a u64.
  pub log_entries_ext-log_entries :
      (max_size start end : ℕ)
      → s.start_idx ≤ start
      → start ≤ end
      → end ≤ s.start_idx + length log
      → end - start < max_size
      → total_size a (slice_of s.start_idx log start end) < u64_mod
      → (entries : List a.LogEntry) × (log_entries_ext a start end (pos 0) s ≡ ok entries)
        × (log_entries a max_size start end s ≡ ok (map some entries))
  log_entries_ext-log_entries max_size start end h k m room fits =
      let (n, e, batch) = log_entries_ext-IsBatch a s dummy log r start end 0 h m k fits in
      let cases : (n < end - start) ⊎ (n ≡ end - start) = omega (arith, batch.within) in
      let whole : n ≡ end - start = elim cases [
        | inl early ↦ absurd ((batch.full early).0 refl)
        | inr same ↦ same
      ] in
      (
        map (make_clone a) (slice_of s.start_idx log start end),
        e ∙ ap (λ (t : ℕ). ok (map (make_clone a) (take t (drop (start - s.start_idx) log)))) whole,
        log_entries-slice a s dummy log r max_size start end h k m room,
      )
