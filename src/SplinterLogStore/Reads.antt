-- ===== src/SplinterLogStore/Reads.antt =====
-- What the methods that read give, by what is stored under the key of an index.
use distributed_replicated_c.Prelude.{
  ℕ, ◌+◌, ◌<◌, ◌≤◌, ◌≡◌, refl, ap, ◌∙◌, pos, eq_ℤ-false, Option-cases, ltb, leb, eqb_refl,
  eqb_false, if◌then◌else◌, Option, none, some, List, [], length, drop-all, u64_mod, inl, inr,
  arith,
}
use distributed_replicated_c.Result.{
  Result, ok, throws, runtime_error, overflow_error, ◌>>=◌ as ◌>>=ʳ◌,
}
use distributed_replicated_c.Nuraft.Buffer.{BufferApi, BufferLaws}
use distributed_replicated_c.Nuraft.LogEntry.{EntryApi}
use distributed_replicated_c.Splinter.{SplinterApi, SplinterLaws}
use distributed_replicated_c.SplinterLogStore.{
  LogApi, LogLaws, SplinterLogStore, log_key_create, next_slot, start_index, slice_to_buffer,
  deserialized, lookup_value, entry_at, last_entry, term_at, append,
}
use distributed_replicated_c.SplinterLogStore.Compact.{stored}
use distributed_replicated_c.SplinterLogStore.Writes.{append_run, append-stored}

-- What a read of the stored bytes gives: the value for nothing without any, and with bytes the
-- exception of the end of the buffer.
abbrev pub read_back : {A : Type 0} → A → Option (List ℕ) → Result A
read_back nothing none = ok nothing
read_back nothing (some bytes) = throws overflow_error

read_back_lem :
    {A : Type 0} (nothing : A) (m : List ℕ → Result A)
    → ((bytes : List ℕ) → m bytes ≡ throws overflow_error)
    → (o : Option (List ℕ))
    → ◌≡◌ {A = Result A} (elim o [ none ↦ ok nothing | some bytes ↦ m bytes ]) (read_back nothing o)
read_back_lem nothing m h none = refl
read_back_lem nothing m h (some bytes) = h bytes

module _ {s : SplinterApi} (sl : SplinterLaws s) {b : BufferApi} (laws : BufferLaws b)
    {a : EntryApi b} (api : LogApi s a) (log_laws : LogLaws laws api) where
  -- put_raw leaves the buffer at its end, so the entry is read from there.
  deserialized-throws : (value : List ℕ) → deserialized api value ≡ throws overflow_error
  unfolding deserialized slice_to_buffer
  deserialized-throws value =
      let n = length value in
      let room : length value ≤ length (laws.left (b.start (b.alloc n))) =
        omega (arith, laws.length-left-alloc n) in
      let (c, e, p, l) = laws.put_raw_lem value (b.start (b.alloc n)) room in
      let done : laws.left c ≡ [] =
        l
        ∙ drop-all n (laws.left (b.start (b.alloc n))) (omega (arith, laws.length-left-alloc n)) in
      rw (deserialized, slice_to_buffer, e, log_laws.deserialize_at_short c (rw done (omega arith)))
        refl

  lookup_value_lem : (i : ℕ) (db : s.Db) → lookup_value api i db ≡ sl.contents db (log_key_create i)
  unfolding lookup_value
  lookup_value_lem i db = elim (Option-cases (sl.contents db (log_key_create i))) [
    | inl e ↦
        let (rc, bad) = sl.lookup_missing db (log_key_create i) e in
        rw (e, rc, eq_ℤ-false _ (pos 0) bad) refl
    | inr (v, e) ↦
        let (rc, found) = sl.lookup_found db (log_key_create i) v e in rw (e, rc, found) refl
  ]

  -- No entry that is stored is ever read back. `entry_at` gives the null pointer where nothing is
  -- stored under the index, and throws an overflow_error where something is. The same holds of
  -- `last_entry` with the last index and the entry that stands for none, and of `term_at` with the
  -- term 0 inside the log; `term_at` throws a runtime_error from the next slot on, and is 0 below the
  -- first index.
  pub reads-read_back :
      (i : ℕ) (st : SplinterLogStore s)
      → (entry_at api i st ≡ read_back none (stored sl st i))
        × (last_entry api st ≡ read_back api.null_entry (stored sl st st.last_idx))
        × (term_at api i st ≡ (
            if leb (next_slot st) i
            then throws (runtime_error "Log index out of range")
            else if ltb i (start_index st)
            then ok 0
            else read_back 0 (stored sl st i)))
  unfolding entry_at last_entry term_at
  reads-read_back i st = (
    rw (entry_at, lookup_value_lem i st.spl)
        (read_back_lem none _ (λ bytes. rw (deserialized-throws bytes) refl) (stored sl st i)),
    rw (last_entry, lookup_value_lem st.last_idx st.spl)
        (read_back_lem api.null_entry _ deserialized-throws (stored sl st st.last_idx)),
    rw
        (
          term_at,
          lookup_value_lem i st.spl,
          read_back_lem {A = ℕ} 0
              (λ bytes. deserialized api bytes >>=ʳ λ entry. ok (a.get_term entry))
              (λ bytes. rw (deserialized-throws bytes) refl) (stored sl st i),
        )
        refl,
  )

  -- After an append that SplinterDB accepts, `last_entry` is the entry that stands for none, when
  -- nothing was stored under the next slot before: the appended entry lies one index below.
  pub last_entry-append :
      (entry : a.LogEntry) (st : SplinterLogStore s)
      → st.last_idx + 2 < u64_mod
      → (s.insert st.spl (log_key_create st.last_idx) (api.bytes_of (a.serialize entry))).0 ≡ pos 0
      → stored sl st (next_slot st) ≡ none
      → (last_entry api (append api entry st).1 ≡ ok api.null_entry)
        × (stored sl (append api entry st).1 st.last_idx ≡ some (api.bytes_of (a.serialize entry)))
  last_entry-append entry st room accepted free =
      let (r, slot, here, up) =
        append-stored sl api entry st.last_idx st room accepted (omega arith) in
      let (_, _, next, _) =
        append-stored sl api entry (st.last_idx + 1) st room accepted (omega arith) in
      let st' = (append api entry st).1 in
      let last : st'.last_idx ≡ st.last_idx + 1 =
        ap (λ t. t.1.last_idx) (append_run api entry st (omega arith) accepted) in
      let empty : stored sl st' st'.last_idx ≡ none =
        ap (λ i. stored sl st' i) last
        ∙ next
        ∙ rw (eqb_false (st.last_idx + 1) st.last_idx (omega arith), slot) free in
      (
        (reads-read_back 0 st').1 ∙ ap (λ o. read_back api.null_entry o) empty,
        here ∙ rw (eqb_refl st.last_idx) refl,
      )
