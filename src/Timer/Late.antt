-- ===== src/Timer/Late.antt =====
-- When a timer is over.
use Prim.Native.Nat.{◌/◌}
use distributed_replicated_c.Prelude.{
  ℕ, ◌+◌, ◌-◌, ◌*◌, ◌%◌, ◌<◌, ◌≤◌, ◌^◌, ◌≡◌, ◌↔◌, true, ltb, u64_mod, arith,
}
use distributed_replicated_c.Timer.{ClockApi, Timer, timeover, reset, reset_ms, reset_sec}

-- The clock counts nanoseconds, and the cast to an integer drops the fraction of a second. The bound
-- is that of the integers that a double holds exactly.
pub record ClockLaws (clock : ClockApi) : Type 0 where
  pub ns : clock.Time → ℕ
  pub to_u64-elapsed :
      (start cur : clock.Time)
      → ns start ≤ ns cur
      → ns cur - ns start < 2 ^ 53
      → clock.to_u64 (clock.elapsed start cur) ≡ (ns cur - ns start) / 1000000000

ms_lem :
    (ms span : ℕ)
    → span < 2 ^ 53
    → (ltb ms ((span / 1000000000 * 1000) % u64_mod) ≡ true → ms * 1000000 < span)
      × (ms * 1000000 + 1000000000 ≤ span → ltb ms ((span / 1000000000 * 1000) % u64_mod) ≡ true)
ms_lem ms span small = (λ h. ground arith, λ h. ground arith)

sec_lem :
    (sec span : ℕ)
    → span < 2 ^ 53
    → sec * 1000 < u64_mod
    → (ltb ((sec * 1000) % u64_mod) ((span / 1000000000 * 1000) % u64_mod) ≡ true)
      ↔ (sec < span / 1000000000)
sec_lem sec span small fits = (λ h. ground arith, λ h. ground arith)

module _ {clock : ClockApi} (laws : ClockLaws clock) where
  open laws use {ns}

  -- A timer set to a number of milliseconds is never over before they have passed, and is over once a
  -- second more has passed; a timer set to a number of seconds whose milliseconds fit a u64 is over
  -- exactly when more whole seconds have passed. The clock was not set back, and less than 2^53
  -- nanoseconds have passed.
  pub timeover-late :
      (ms sec : ℕ) (start cur : clock.Time) (timer : Timer clock)
      → ns start ≤ ns cur
      → ns cur - ns start < 2 ^ 53
      → sec * 1000 < u64_mod
      → (timeover clock cur (reset_ms clock ms start timer) ≡ true
          → ms * 1000000 < ns cur - ns start)
        × (ms * 1000000 + 1000000000 ≤ ns cur - ns start
            → timeover clock cur (reset_ms clock ms start timer) ≡ true)
        × ((timeover clock cur (reset_sec clock sec start timer) ≡ true)
            ↔ (sec < (ns cur - ns start) / 1000000000))
  unfolding timeover reset_ms reset_sec reset
  timeover-late ms sec start cur timer later small fits =
      let span = ns cur - ns start in
      let (early, late) = ms_lem ms span small in
      rw (laws.to_u64-elapsed start cur later small) (early, late, sec_lem sec span small fits)
