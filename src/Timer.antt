-- ===== src/Timer.antt =====
-- include/common/timer.h: a timer for a number of milliseconds, and how a duration is written.
-- `sleep_ms` only prints and sleeps.
pub mod Late
use Prim.Native.String.{◌++◌}
use distributed_replicated_c.Prelude.{ℕ, ◌*◌, ◌%◌, pos, Bool, ltb, if◌then◌else◌, u64_mod, String}
use distributed_replicated_c.Text.{to_string}

-- system_clock and double, which belong to the language. `elapsed` is the time from the first to the
-- second reading of the clock, in seconds; `to_u64` is the cast of a double; `fixed` is how a stream
-- writes a double with a number of decimals.
pub record ClockApi : Type 1 where
  pub Time : Type 0
  pub Double : Type 0
  pub elapsed : Time → Time → Double
  pub of_u64 : ℕ → Double
  pub times : Double → Double → Double
  pub quotient : Double → Double → Double
  pub to_u64 : Double → ℕ
  pub fixed : ℕ → Double → String

pub record Timer (clock : ClockApi) : Type 0 where
  pub start : clock.Time
  pub duration_ms : ℕ

module _ (clock : ClockApi) where
  open clock use {Time, elapsed, of_u64, times, quotient, fixed}

  -- The methods that read the clock take what it shows as `cur`.
  unfoldable pub reset : Time → Timer clock → Timer clock
  reset cur timer = record timer { start = cur }

  unfoldable pub new_timer : ℕ → Time → Timer clock
  new_timer duration_ms cur = record { start = cur; duration_ms = duration_ms }

  unfoldable pub reset_sec : ℕ → Time → Timer clock → Timer clock
  unfolding reset
  reset_sec duration_sec cur timer =
      reset cur (record timer { duration_ms = (duration_sec * 1000) % u64_mod })

  unfoldable pub reset_ms : ℕ → Time → Timer clock → Timer clock
  unfolding reset
  reset_ms duration_ms cur timer = reset cur (record timer { duration_ms = duration_ms })

  unfoldable pub timeover : Time → Timer clock → Bool
  timeover cur timer =
      ltb timer.duration_ms ((clock.to_u64 (elapsed timer.start cur) * 1000) % u64_mod)

  unfoldable pub timeout : Time → Timer clock → Bool
  unfolding timeover
  timeout cur timer = timeover cur timer

  unfoldable pub get_time_sec : Time → Timer clock → ℕ
  get_time_sec cur timer = clock.to_u64 (elapsed timer.start cur)

  unfoldable pub get_time_ms : Time → Timer clock → ℕ
  get_time_ms cur timer = clock.to_u64 (times (elapsed timer.start cur) (of_u64 1000))

  unfoldable pub get_time_us : Time → Timer clock → ℕ
  get_time_us cur timer = clock.to_u64 (times (elapsed timer.start cur) (of_u64 1000000))

  unfoldable pub us_to_string : ℕ → String
  us_to_string us =
      if ltb us 1000
      then to_string (pos us) ++ " us"
      else if ltb us 1000000
      then fixed 1 (quotient (of_u64 us) (of_u64 1000)) ++ " ms"
      else if ltb us (600 * 1000000)
      then fixed 1 (quotient (of_u64 us) (of_u64 1000000)) ++ " s"
      else fixed 0 (quotient (quotient (of_u64 us) (of_u64 60)) (of_u64 1000000)) ++ " m"
