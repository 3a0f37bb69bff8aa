-- ===== src/InmemLogStore/DiskEmulation.antt =====
-- The rounds of the emulated disk: which writes become durable.
use distributed_replicated_c.Prelude.{
  ℕ, ◌≤◌, ◌<◌, ◌≡◌, refl, ap, ◌∙◌, Bool, true, false, ◌||◌, [], ◌∷◌, ◌++◌, leb-true, leb-false,
}
use distributed_replicated_c.OrdMap.{OrdMap}
use distributed_replicated_c.InmemLogStore.{InmemLogStore}
use distributed_replicated_c.InmemLogStore.Pack.{finish_writes, disk_emul_round}

-- The index of the last write.
abbrev pub last_write : OrdMap ℕ → ℕ → ℕ
last_write [] durable = durable
last_write ((time, idx) ∷ m) durable = last_write m idx

abbrev pub some_write : OrdMap ℕ → Bool
some_write [] = false
some_write (w ∷ m) = true

-- No write is done at `cur_time`, if the writes are in the order of their times.
abbrev pub NotYet : ℕ → OrdMap ℕ → Type 0
NotYet cur_time [] = Unit
NotYet cur_time ((time, idx) ∷ m) = cur_time < time

abbrev pub Done : ℕ → OrdMap ℕ → Type 0
Done cur_time [] = Unit
Done cur_time ((time, idx) ∷ m) = (time ≤ cur_time) × Done cur_time m

finish_writes_none :
    (cur_time durable : ℕ) (later : OrdMap ℕ) (flag : Bool)
    → NotYet cur_time later
    → finish_writes cur_time durable later flag ≡ ((durable, later), flag)
unfolding finish_writes
finish_writes_none cur_time durable [] flag h = refl
finish_writes_none cur_time durable ((time, idx) ∷ m) flag h = rw (leb-false time cur_time h) refl

finish_writes-Done :
    (cur_time durable : ℕ) (done later : OrdMap ℕ) (flag : Bool)
    → Done cur_time done
    → NotYet cur_time later
    → finish_writes cur_time durable (done ++ later) flag
      ≡ ((last_write done durable, later), some_write done || flag)
unfolding finish_writes
finish_writes-Done cur_time durable [] later flag d h =
    finish_writes_none cur_time durable later flag h
finish_writes-Done cur_time durable ((time, idx) ∷ done) later flag d h =
    rw (leb-true time cur_time d.0) (
      finish_writes-Done cur_time idx done later true d.1 h
      ∙ ap (λ t. ((last_write done idx, later), t)) (always (some_write done)))
  where
    always : (t : Bool) → (t || true) ≡ true
    always true = refl
    always false = refl

-- A round of the emulated disk, on writes in the order of their times, takes off exactly those that
-- are done at `cur_time`, makes the index of the last of them the last durable one, keeps the others,
-- and notifies Raft if and only if there was one.
pub disk_emul_round-Done :
    {LogEntry : Type 0} (cur_time : ℕ) (done later : OrdMap ℕ) (s : InmemLogStore LogEntry)
    → s.disk_emul_logs_being_written ≡ done ++ later
    → Done cur_time done
    → NotYet cur_time later
    → let ((notify, sleep), s') = disk_emul_round cur_time s in
      (s'.disk_emul_last_durable_index ≡ last_write done s.disk_emul_last_durable_index)
      × (s'.disk_emul_logs_being_written ≡ later)
      × (notify ≡ some_write done)
      × (s'.logs ≡ s.logs)
unfolding disk_emul_round
disk_emul_round-Done cur_time done later s e d h =
    let durable = s.disk_emul_last_durable_index in
    let split =
      ap (λ m. finish_writes cur_time durable m false) e
      ∙ finish_writes-Done cur_time durable done later false d h in
    (
      ap (λ t. t.0.0) split,
      ap (λ t. t.0.1) split,
      ap (λ t. t.1) split ∙ or_false (some_write done),
      refl,
    )
  where
    or_false : (t : Bool) → (t || false) ≡ t
    or_false true = refl
    or_false false = refl
