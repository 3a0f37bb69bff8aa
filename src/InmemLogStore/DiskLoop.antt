-- ===== src/InmemLogStore/DiskLoop.antt =====
-- The thread of the emulated disk over many rounds, up to its end.
use distributed_replicated_c.Prelude.{
  ℕ, ◌≤◌, ◌≡◌, refl, ap, ◌∙◌, if◌then◌else◌, Bool, true, false, Bool-cases, leb, inl, inr, List, [],
  ◌∷◌, ◌++◌, All, arith,
}
use distributed_replicated_c.OrdMap.{OrdMap}
use distributed_replicated_c.InmemLogStore.{InmemLogStore}
use distributed_replicated_c.InmemLogStore.Pack.{
  finish_writes, disk_emul_round, disk_emul_loop, stop_thread,
}

-- What is written does not depend on whether Raft will be notified.
finish_writes_flag :
    (cur_time durable : ℕ) (m : OrdMap ℕ) (f g : Bool)
    → (finish_writes cur_time durable m f).0 ≡ (finish_writes cur_time durable m g).0
unfolding finish_writes
finish_writes_flag cur_time durable [] f g = refl
finish_writes_flag cur_time durable ((time, idx) ∷ m) f g = elim (Bool-cases (leb time cur_time)) [
  | inl e ↦ rw e refl
  | inr e ↦ rw e refl
]

finish_writes_twice :
    (t u durable : ℕ) (m : OrdMap ℕ) (f g h : Bool)
    → t ≤ u
    → (finish_writes u (finish_writes t durable m f).0.0 (finish_writes t durable m f).0.1 g).0
      ≡ (finish_writes u durable m h).0
unfolding finish_writes
finish_writes_twice t u durable [] f g h le = refl
finish_writes_twice t u durable ((time, idx) ∷ m) f g h le =
    let rest = finish_writes_twice t u idx m true g true le in
    elim (Bool-cases (leb time t)) [
      | inl e ↦ let later : leb time u ≡ true = ground arith in rw (e, later) rest
      | inr e ↦ rw e (finish_writes_flag u durable ((time, idx) ∷ m) g h)
    ]

module _ {LogEntry : Type 0} where
  round_twice :
      (t u : ℕ) (s : InmemLogStore LogEntry)
      → t ≤ u
      → (disk_emul_round u (disk_emul_round t s).1).1 ≡ (disk_emul_round u s).1
  unfolding disk_emul_round
  round_twice t u s le =
      ap
        (λ (p : ℕ × OrdMap ℕ). record s {
          disk_emul_last_durable_index = p.0;
          disk_emul_logs_being_written = p.1;
        })
        (finish_writes_twice t u s.disk_emul_last_durable_index s.disk_emul_logs_being_written false
          false false le)

  -- The thread of the emulated disk may be woken up any number of times before: as long as it is not
  -- told to stop, the store is as after the last round alone, if the clock never showed a later time
  -- than in that round.
  pub disk_emul_loop-last :
      (times : List ℕ) (cur_time : ℕ) (s : InmemLogStore LogEntry)
      → s.disk_emul_thread_stop_signal ≡ false
      → All (λ t. t ≤ cur_time) times
      → disk_emul_loop (times ++ cur_time ∷ []) s ≡ (disk_emul_round cur_time s).1
  unfolding disk_emul_loop disk_emul_round
  disk_emul_loop-last [] cur_time s runs before =
      ap (λ (stop : Bool). if stop then s else (disk_emul_round cur_time s).1) runs
  disk_emul_loop-last (t ∷ times) cur_time s runs before =
      let rest = disk_emul_loop-last times cur_time (disk_emul_round t s).1 runs before.1 in
      ap
        (λ (stop : Bool).
          if stop then s else disk_emul_loop (times ++ cur_time ∷ []) (disk_emul_round t s).1)
        runs
      ∙ rest
      ∙ round_twice t cur_time s before.0

  -- Once the destructor has told the thread to stop, the loop leaves the store as it is.
  pub disk_emul_loop-stop_thread :
      (times : List ℕ) (s : InmemLogStore LogEntry)
      → s.disk_emul_thread ≡ true
      → disk_emul_loop times (stop_thread s) ≡ stop_thread s
  unfolding disk_emul_loop stop_thread
  disk_emul_loop-stop_thread [] s started = refl
  disk_emul_loop-stop_thread (t ∷ times) s started = rw started refl
