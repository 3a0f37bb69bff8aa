-- ===== src/InmemLogStore/View.antt =====
-- The log that a store stands for: a list of entries whose first has the index `start_idx`.
use distributed_replicated_c.Prelude.{
  ◌+◌, ◌<◌, ◌≡◌, ap, ◌∙◌, List, ◌∷◌, length, u64_mod, add64_lem, sub64_lem, arith,
}
use distributed_replicated_c.OrdMap.{number_from, length-number_from}
use distributed_replicated_c.InmemLogStore.{InmemLogStore, next_slot}

-- The map holds the dummy at 0 and the entries of the log at consecutive indices from `start_idx`
-- on, with room for one more index below 2^64.
pub record Represents {LogEntry : Type 0} (s : InmemLogStore LogEntry) (dummy : LogEntry)
    (log : List LogEntry) : Type 0 where
  pub logs : s.logs ≡ (0, dummy) ∷ number_from s.start_idx log
  pub start_pos : 0 < s.start_idx
  pub bound : s.start_idx + length log + 1 < u64_mod

module _ {LogEntry : Type 0} (s : InmemLogStore LogEntry) (dummy : LogEntry) (log : List LogEntry)
    (r : Represents s dummy log) where
  pub length-logs : length s.logs ≡ length log + 1
  length-logs = omega (arith, ap length r.logs, length-number_from s.start_idx log)

  -- The next slot is the index behind the last entry.
  pub next_slot_lem : next_slot s ≡ s.start_idx + length log
  unfolding next_slot
  next_slot_lem =
      rw (length-logs, add64_lem s.start_idx (length log + 1) (omega (arith, r.bound)))
        (sub64_lem _ 1 (omega (arith, r.bound)) (omega arith) ∙ omega arith)
