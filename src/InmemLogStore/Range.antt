-- ===== src/InmemLogStore/Range.antt =====
-- The range reads: `log_entries`, and `log_entries_ext` with its hint on the size of the batch.
use distributed_replicated_c.Prelude.{
  ℕ, zero, suc, ◌+◌, ◌-◌, ◌<◌, ◌≤◌, ◌≡◌, ◌≢◌, refl, ap, ◌∙◌, sym, subst, pos, some, List, [], ◌∷◌,
  map, append-nil, Bool, true, false, Bool-cases, length, take, drop, drop-cons, arith, leb-false,
  ◌⊎◌, inl, inr, sub64_lem, u64_mod, add64_lem,
}
use distributed_replicated_c.Result.{ok}
use distributed_replicated_c.Nuraft.Buffer.{BufferApi}
use distributed_replicated_c.Nuraft.LogEntry.{EntryApi}
use distributed_replicated_c.OrdMap.{OrdMap}
use distributed_replicated_c.InmemLogStore.{
  InmemLogStore, find_or_dummy, collect, collect_batch, batch_full, log_entries, log_entries_ext,
  make_clone,
}
use distributed_replicated_c.InmemLogStore.View.{Represents}
use distributed_replicated_c.InmemLogStore.Read.{find_or_dummy_lem, log_at, log_at_inside}

-- The bytes of a list of entries.
abbrev pub total_size : {b : BufferApi} (a : EntryApi b) → List a.LogEntry → ℕ
total_size a [] = 0
total_size a (e ∷ es) = a.size (a.get_buf e) + total_size a es

-- The entries of the log with the indices from `start` up to, not including, `end`.
abbrev pub slice_of {ℓ} : {A : Type ℓ} → ℕ → List A → ℕ → ℕ → List A
slice_of start_idx log start end = take (end - start) (drop (start - start_idx) log)

-- What a batch of the first `k` of at most `n` entries of `xs` satisfies, when `accum` bytes are
-- there already: it stops early only when the hint is reached, and no earlier than that.
pub record IsBatch {b : BufferApi} (a : EntryApi b) (hint accum : ℕ) (xs : List a.LogEntry)
    (n k : ℕ) : Type 0 where
  pub within : k ≤ n
  pub some_entry : 0 < n → 0 < k
  pub full : k < n → (hint ≢ 0) × (hint ≤ accum + total_size a (take k xs))
  pub not_before : (j : ℕ) → 0 < j → j < k → (hint ≡ 0) ⊎ (accum + total_size a (take j xs) < hint)

batch_full-true : (hint n : ℕ) → batch_full hint n ≡ true → (hint ≢ 0) × (hint ≤ n)
batch_full-true hint n h = (λ e. ground arith, ground arith)

batch_full-false : (hint n : ℕ) → batch_full hint n ≡ false → (hint ≡ 0) ⊎ (n < hint)
batch_full-false hint n h = ground arith

module _ {b : BufferApi} (a : EntryApi b) (hint accum : ℕ) (x : a.LogEntry) (xs : List a.LogEntry)
    (n : ℕ) where
  abbrev accum' : ℕ
  accum' = accum + a.size (a.get_buf x)

  IsBatch-stop : batch_full hint accum' ≡ true → IsBatch a hint accum (x ∷ xs) (suc n) 1
  IsBatch-stop h =
      let (nonzero, reached) = batch_full-true hint accum' h in
      record {
        within = omega arith;
        some_entry = λ p. omega arith;
        full = λ p. (nonzero, omega arith);
        not_before = λ j p q. absurd (omega arith);
      }

  IsBatch-more :
      (k : ℕ)
      → batch_full hint accum' ≡ false
      → IsBatch a hint accum' xs n k
      → IsBatch a hint accum (x ∷ xs) (suc n) (suc k)
  IsBatch-more k h i = record {
    within = omega (arith, i.within);
    some_entry = λ p. omega arith;
    full = λ p. let (z, q) = i.full (omega arith) in (z, omega arith);
    not_before = before;
  }
    where
      before :
          (j : ℕ) → 0 < j → j < suc k → (hint ≡ 0) ⊎ (accum + total_size a (take j (x ∷ xs)) < hint)
      before zero p q = absurd (omega arith)
      before (suc zero) p q = elim (batch_full-false hint accum' h) [
        | inl z ↦ inl z
        | inr l ↦ inr (omega arith)
      ]
      before (suc (suc j)) p q = elim (i.not_before (suc j) (omega arith) (omega arith)) [
        | inl z ↦ inl z
        | inr l ↦ inr (omega arith)
      ]

module _ {b : BufferApi} (a : EntryApi b) (hint n ii accum : ℕ) (logs : OrdMap a.LogEntry)
    (x : a.LogEntry) (found : find_or_dummy ii logs ≡ ok x)
    (fits : accum + a.size (a.get_buf x) < u64_mod) where
  abbrev reached : Bool
  reached = batch_full hint (accum + a.size (a.get_buf x))

  collect_stop :
      reached ≡ true → collect_batch a hint (suc n) ii accum logs ≡ ok (make_clone a x ∷ [])
  unfolding collect_batch
  collect_stop stop = rw (found, add64_lem accum (a.size (a.get_buf x)) fits, stop) refl

  collect_more :
      (es : List a.LogEntry)
      → reached ≡ false
      → collect_batch a hint n (suc ii) (accum + a.size (a.get_buf x)) logs ≡ ok es
      → collect_batch a hint (suc n) ii accum logs ≡ ok (make_clone a x ∷ es)
  unfolding collect_batch
  collect_more es more rest =
      rw (found, add64_lem accum (a.size (a.get_buf x)) fits, more, rest) refl

module _ {b : BufferApi} (a : EntryApi b) (s : InmemLogStore a.LogEntry) (dummy : a.LogEntry)
    (log : List a.LogEntry) (r : Represents s dummy log) where
  -- The entries from index `ii` on.
  abbrev from : ℕ → List a.LogEntry
  from ii = drop (ii - s.start_idx) log

  from_step :
      (ii : ℕ)
      → s.start_idx ≤ ii
      → ii < s.start_idx + length log
      → (x : a.LogEntry) × (find_or_dummy ii s.logs ≡ ok x) × (from ii ≡ x ∷ from (suc ii))
  from_step ii h k =
      let (x, e, d) = drop-cons (ii - s.start_idx) log (omega arith) in
      let same : some (log_at s.start_idx dummy log ii) ≡ some x =
        sym (log_at_inside s.start_idx dummy log ii h k) ∙ e in
      (
        x,
        find_or_dummy_lem s dummy log r ii ∙ cc,
        d ∙ ap (λ (t : ℕ). x ∷ drop t log) {x = suc (ii - s.start_idx)} (omega arith),
      )

  collect_lem :
      (n ii : ℕ)
      → s.start_idx ≤ ii
      → ii + n ≤ s.start_idx + length log
      → collect a n ii s.logs ≡ ok (map (make_clone a) (take n (from ii)))
  unfolding collect
  collect_lem zero ii h k = refl
  collect_lem (suc n) ii h k =
      let (x, e, d) = from_step ii h (omega arith) in
      rw (e, d, collect_lem n (suc ii) (omega arith) (omega arith)) refl

  -- Inside the log, and when the vector can hold the range, `log_entries` returns clones of exactly
  -- the entries with the indices from `start` up to `end`, in order, and no null pointer.
  pub log_entries-slice :
      (max_size start end : ℕ)
      → s.start_idx ≤ start
      → start ≤ end
      → end ≤ s.start_idx + length log
      → end - start < max_size
      → log_entries a max_size start end s
        ≡ ok (map some (map (make_clone a) (slice_of s.start_idx log start end)))
  unfolding log_entries
  log_entries-slice max_size start end h k m room =
      rw
        (
          sub64_lem end start (omega (arith, r.bound)) k,
          leb-false max_size (end - start) room,
          collect_lem (end - start) start h (omega arith),
          (let z : end - start - (end - start) ≡ 0 = omega arith in z),
        )
        (rw append-nil)

  collect_batch_lem :
      (hint n ii accum : ℕ)
      → s.start_idx ≤ ii
      → ii + n ≤ s.start_idx + length log
      → accum + total_size a (take n (from ii)) < u64_mod
      → (k : ℕ) × (collect_batch a hint n ii accum s.logs
          ≡ ok (map (make_clone a) (take k (from ii))))
        × IsBatch a hint accum (from ii) n k
  unfolding collect_batch
  collect_batch_lem hint zero ii accum h k fits = (
    0,
    refl,
    record {
      within = omega arith;
      some_entry = λ p. p;
      full = λ p. absurd (omega arith);
      not_before = λ j p q. absurd (omega arith);
    },
  )
  collect_batch_lem hint (suc n) ii accum h m fits =
      let (x, e, d) = from_step ii h (omega arith) in
      let size_x = a.size (a.get_buf x) in
      let fits' : accum + (size_x + total_size a (take n (from (suc ii)))) < u64_mod =
        subst (λ xs. accum + total_size a (take (suc n) xs) < u64_mod) d fits in
      let (k, q, batch) =
        collect_batch_lem hint n (suc ii) (accum + size_x) (omega arith) (omega arith)
          (omega arith) in
      let fits_x : accum + size_x < u64_mod = omega arith in
      elim (Bool-cases (batch_full hint (accum + size_x))) [
        | inl stop ↦ (
          1,
          collect_stop a hint n ii accum s.logs x e fits_x stop
              ∙ ap (λ xs. ok (map (make_clone a) (take 1 xs))) (sym d),
          subst (λ xs. IsBatch a hint accum xs (suc n) 1) (sym d)
              (IsBatch-stop a hint accum x (from (suc ii)) n stop),
        )
        | inr more ↦ (
          suc k,
          collect_more a hint n ii accum s.logs x e fits_x _ more q
              ∙ ap (λ xs. ok (map (make_clone a) (take (suc k) xs))) (sym d),
          subst (λ xs. IsBatch a hint accum xs (suc n) (suc k)) (sym d)
              (IsBatch-more a hint accum x (from (suc ii)) n k more batch),
        )
      ]

  -- Inside the log `log_entries_ext` with a hint that is not negative returns clones of the first `k`
  -- entries of the range, for the one `k` that the hint asks for: the whole range where the hint is 0
  -- or is not reached, or else the shortest batch, of one entry at least, that reaches it.
  pub log_entries_ext-IsBatch :
      (start end hint : ℕ)
      → s.start_idx ≤ start
      → end ≤ s.start_idx + length log
      → start ≤ end
      → total_size a (slice_of s.start_idx log start end) < u64_mod
      → (k : ℕ) × (log_entries_ext a start end (pos hint) s
          ≡ ok (map (make_clone a) (take k (drop (start - s.start_idx) log))))
        × IsBatch a hint 0 (drop (start - s.start_idx) log) (end - start) k
  unfolding log_entries_ext
  log_entries_ext-IsBatch start end hint h k m fits =
      collect_batch_lem hint (end - start) start 0 h (omega arith) (omega arith)
