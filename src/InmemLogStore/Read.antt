-- ===== src/InmemLogStore/Read.antt =====
-- Reads of the log: which entry each index gives, and the two range reads.
use native.Mathlib.Decide.{dec_le}
use distributed_replicated_c.Prelude.{
  ℕ, zero, suc, ◌+◌, ◌-◌, ◌<◌, ◌≤◌, ◌≡◌, refl, ◌∙◌, leb, if◌then◌else◌, Option, some, none, List,
  length, get_elem?, arith, leb-true, leb-false, eqb_false, Option-cases, drop-cons,
  get_elem?-beyond, ◌⊎◌, inl, inr, sub64_lem,
}
use distributed_replicated_c.Result.{ok}
use distributed_replicated_c.Nuraft.Buffer.{BufferApi}
use distributed_replicated_c.Nuraft.LogEntry.{EntryApi}
use distributed_replicated_c.OrdMap.{find, number_from, find-number_from, find_below}
use distributed_replicated_c.InmemLogStore.{
  InmemLogStore, find_or_dummy, last_entry, entry_at, term_at, make_clone,
}
use distributed_replicated_c.InmemLogStore.View.{Represents, next_slot_lem}

-- The entry with an index: the log's entry there, or the dummy where the log has none.
abbrev pub or_else {ℓ} : {A : Type ℓ} → A → Option A → A
or_else d none = d
or_else d (some x) = x

unfoldable pub log_at {ℓ} : {A : Type ℓ} → ℕ → A → List A → ℕ → A
log_at start dummy log i = if leb start i then or_else dummy (get_elem? log (i - start)) else dummy

module _ {LogEntry : Type 0} (s : InmemLogStore LogEntry) (dummy : LogEntry) (log : List LogEntry)
    (r : Represents s dummy log) where
  find-some : (i : ℕ) {e : LogEntry} → find i s.logs ≡ some e → find_or_dummy i s.logs ≡ ok e
  unfolding find_or_dummy
  find-some i h = rw (h, find_or_dummy)

  find_zero : find 0 s.logs ≡ some dummy
  unfolding find
  find_zero = rw r.logs

  find-none : (i : ℕ) → find i s.logs ≡ none → find_or_dummy i s.logs ≡ ok dummy
  unfolding find_or_dummy
  find-none i h = rw (h, find_or_dummy) (rw find_zero)

  pub find_pos : (i : ℕ) → 0 < i → find i s.logs ≡ find i (number_from s.start_idx log)
  unfolding find
  find_pos i h = rw (r.logs, eqb_false 0 i (omega arith))

  pub find_or_dummy_lem : (i : ℕ) → find_or_dummy i s.logs ≡ ok (log_at s.start_idx dummy log i)
  unfolding log_at
  find_or_dummy_lem zero = rw (leb-false s.start_idx 0 r.start_pos) (find-some 0 find_zero)
  find_or_dummy_lem (suc i) = elim (dec_le s.start_idx (suc i)) [
    | yes h ↦ rw (leb-true _ _ h) (inside h)
    | no h ↦ rw (leb-false s.start_idx (suc i) (omega arith)) (
        find-none (suc i)
          (find_pos (suc i) (omega arith) ∙ find_below s.start_idx (suc i) log (omega arith)))
  ]
    where
      inside :
          s.start_idx ≤ suc i
          → find_or_dummy (suc i) s.logs ≡ ok (or_else dummy (get_elem? log (suc i - s.start_idx)))
      inside h =
          let found = find_pos (suc i) (omega arith) ∙ find-number_from s.start_idx (suc i) log h in
          elim (Option-cases (get_elem? log (suc i - s.start_idx))) [
            | inl e ↦ rw e (find-none (suc i) (found ∙ e))
            | inr (x, e) ↦ rw e (find-some (suc i) (found ∙ e))
          ]

-- Inside the log `log_at` is the entry at the offset, outside it is the dummy.
pub log_at_inside {ℓ} :
    {A : Type ℓ} (start : ℕ) (dummy : A) (log : List A) (i : ℕ)
    → start ≤ i
    → i < start + length log
    → get_elem? log (i - start) ≡ some (log_at start dummy log i)
unfolding log_at
log_at_inside start dummy log i h k =
    let (x, e, _) = drop-cons (i - start) log (omega arith) in rw (leb-true _ _ h, e) refl

pub log_at_outside {ℓ} :
    {A : Type ℓ} (start : ℕ) (dummy : A) (log : List A) (i : ℕ)
    → (i < start) ⊎ (start + length log ≤ i)
    → log_at start dummy log i ≡ dummy
unfolding log_at
log_at_outside start dummy log i (inl h) = rw (leb-false _ _ h)
log_at_outside start dummy log i (inr h) =
    rw (leb-true start i (omega arith), get_elem?-beyond log (i - start) (omega arith)) refl

module _ {b : BufferApi} (a : EntryApi b) (s : InmemLogStore a.LogEntry) (dummy : a.LogEntry)
    (log : List a.LogEntry) (r : Represents s dummy log) where
  -- On a store that stands for a log, `entry_at` returns a clone of the entry with that index, and
  -- `term_at` its term; below the first index and from the next slot on it is the dummy's.
  -- `last_entry` is a clone of the entry before the next slot.
  pub reads-log_at :
      (i : ℕ)
      → (entry_at a i s ≡ ok (make_clone a (log_at s.start_idx dummy log i)))
        × (term_at a i s ≡ ok (a.get_term (log_at s.start_idx dummy log i)))
        × (last_entry a s
            ≡ ok (make_clone a (log_at s.start_idx dummy log (s.start_idx + length log - 1))))
  unfolding entry_at term_at last_entry
  reads-log_at i = (
    rw (find_or_dummy_lem s dummy log r i) refl,
    rw (find_or_dummy_lem s dummy log r i) refl,
    rw
        (
          next_slot_lem s dummy log r,
          sub64_lem (s.start_idx + length log) 1 (omega (arith, r.bound))
              (omega (arith, r.start_pos)),
          find_or_dummy_lem s dummy log r (s.start_idx + length log - 1),
        )
        refl,
  )
