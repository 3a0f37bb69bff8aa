-- ===== src/InmemLogStore/Compact.antt =====
-- Compaction of the log, and the index up to which it is durable.
use distributed_replicated_c.Prelude.{
  ℕ, zero, suc, ◌+◌, ◌-◌, ◌<◌, ◌≡◌, refl, ap, ◌∙◌, leb, true, none, some, List, [], ◌∷◌, drop,
  drop-drop, length-drop, sym, arith, leb-true, leb-false, eqb_false, add64, add64_lem, u64_mod,
  if◌then◌else◌,
}
use native.Mathlib.Decide.{dec_le}
use distributed_replicated_c.OrdMap.{OrdMap, erase, number_from, erase_first}
use distributed_replicated_c.InmemLogStore.{InmemLogStore, compact_loop, compacted, compact}
use distributed_replicated_c.InmemLogStore.View.{Represents}

module _ {LogEntry : Type 0} (dummy : LogEntry) where
  erase_head :
      (ii : ℕ) (log : List LogEntry)
      → 0 < ii
      → erase ii ((0, dummy) ∷ number_from ii log) ≡ (0, dummy) ∷ number_from (suc ii) (drop 1 log)
  unfolding erase
  erase_head ii [] h = rw (eqb_false 0 ii (omega arith)) refl
  erase_head ii (e ∷ log) h =
      rw (eqb_false 0 ii (omega arith)) (ap (λ m. (0, dummy) ∷ m) (erase_first ii e log))

  same_logs :
      (i j : ℕ) (xs ys : List LogEntry)
      → i ≡ j
      → xs ≡ ys
      → some ((0, dummy) ∷ number_from i xs) ≡ some ((0, dummy) ∷ number_from j ys)
  same_logs i j xs ys p q = cc

  -- With more fuel than indices to go through, the loop ends, and has erased exactly these.
  compact_loop_lem :
      (fuel ii last : ℕ) (log : List LogEntry)
      → 0 < ii
      → last + 1 < u64_mod
      → last + 1 - ii < fuel
      → compact_loop fuel ii last ((0, dummy) ∷ number_from ii log)
        ≡ some ((0, dummy) ∷ number_from (ii + (last + 1 - ii)) (drop (last + 1 - ii) log))
  unfolding compact_loop
  compact_loop_lem zero ii last log h k f = absurd (omega arith)
  compact_loop_lem (suc fuel) ii last log h k f = elim (dec_le ii last) [
    | yes p ↦
        rw (leb-true ii last p, add64_lem ii 1 (omega arith), erase_head ii log h)
          (rw (let e : ii + 1 ≡ suc ii = omega arith in e) (
            compact_loop_lem fuel (suc ii) last (drop 1 log) (omega arith) k (omega arith)
            ∙ same_logs _ _ _ _
                (let e : suc ii + (last + 1 - suc ii) ≡ ii + (last + 1 - ii) = omega arith in e)
                (drop-drop 1 (last + 1 - suc ii) log
                  ∙ ap (λ t. drop t log) {x = 1 + (last + 1 - suc ii)} (omega arith))))
    | no p ↦ rw (leb-false ii last (omega arith)) (
        let z : last + 1 - ii ≡ 0 = omega arith in
        same_logs ii (ii + (last + 1 - ii)) log (drop (last + 1 - ii) log) (omega arith)
          (ap (λ t. drop t log) (sym z)))
  ]

-- At the largest index the test `ii <= last_log_index` never fails: the loop runs for ever.
compact_loop_diverges :
    {LogEntry : Type 0} (fuel ii : ℕ) (logs : OrdMap LogEntry)
    → ii < u64_mod
    → compact_loop fuel ii (u64_mod - 1) logs ≡ none
unfolding compact_loop
compact_loop_diverges zero ii logs h = refl
compact_loop_diverges (suc fuel) ii logs h =
    rw (leb-true ii (u64_mod - 1) (omega arith))
      (compact_loop_diverges fuel (add64 ii 1) (erase ii logs) (unfold add64 in omega arith))

module _ {LogEntry : Type 0} (s : InmemLogStore LogEntry) (dummy : LogEntry) (log : List LogEntry)
    (r : Represents s dummy log) where
  new_start :
      (last : ℕ)
      → last + 1 < u64_mod
      → (if leb s.start_idx last then add64 last 1 else s.start_idx)
        ≡ s.start_idx + (last + 1 - s.start_idx)
  new_start last h = ground (arith, add64_lem last 1)

  sum_start :
      (last : ℕ)
      → s.start_idx + (last + 1 - s.start_idx)
        ≡ (if leb s.start_idx last then last + 1 else s.start_idx)
  sum_start last = ground arith

  -- Compaction up to an index below 2^64 - 2 returns true: the entries up to and with the index are gone, the others keep
  -- their indices, and the first index is the one behind it if it was not above it already. Fuel
  -- for one round more than there are indices to go through is enough.
  pub compact-refines :
      (fuel last : ℕ)
      → last + 2 < u64_mod
      → last + 1 - s.start_idx < fuel
      → (s' : InmemLogStore LogEntry) × (compact fuel last s ≡ some (true, s'))
        × Represents s' dummy (drop (last + 1 - s.start_idx) log)
        × (s'.start_idx ≡ (if leb s.start_idx last then last + 1 else s.start_idx))
  unfolding compact compacted
  compact-refines fuel last h f =
      let n = last + 1 - s.start_idx in
      let logs' = (0, dummy) ∷ number_from (s.start_idx + n) (drop n log) in
      let done : compact_loop fuel s.start_idx last s.logs ≡ some logs' =
        ap (compact_loop fuel s.start_idx last) r.logs
        ∙ compact_loop_lem dummy fuel s.start_idx last log r.start_pos (omega arith) f in
      let len = length-drop n log in
      let start : (compacted last s logs').start_idx ≡ s.start_idx + n =
        new_start last (omega arith) in
      (
        compacted last s logs',
        rw (done, compact) refl,
        record {
          logs = ap (λ t. (0, dummy) ∷ number_from t (drop n log)) (sym start);
          start_pos = omega (arith, start, r.start_pos);
          bound = omega (arith, start, len, r.bound);
        },
        start ∙ sum_start last,
      )

  -- Compaction up to the largest index of a u64 never returns, whatever the fuel.
  pub compact_diverges : (fuel : ℕ) → compact fuel (u64_mod - 1) s ≡ none
  unfolding compact
  compact_diverges fuel =
      rw (compact_loop_diverges fuel s.start_idx s.logs (omega (arith, r.bound)), compact) refl
