-- ===== src/Tests/Timers.antt =====
-- The timer at concrete inputs, on a clock that counts nanoseconds and computes with them.
use Prim.Native.Nat.{◌/◌}
use distributed_replicated_c.Prelude.{
  ℕ, ◌-◌, ◌*◌, ◌+◌, ◌≤◌, ◌<◌, ◌≡◌, ◌↔◌, refl, pos, true, false, arith,
}
use distributed_replicated_c.Text.{to_string}
use distributed_replicated_c.Timer.{
  ClockApi, Timer, new_timer, timeout, timeover, reset_ms, reset_sec,
}
use distributed_replicated_c.Timer.Late.{ClockLaws, timeover-late}

abbrev ns_clock : ClockApi
ns_clock = record {
  Time = ℕ;
  Double = ℕ;
  elapsed = λ start cur. cur - start;
  of_u64 = λ n. n * 1000000000;
  times = λ x y. x * y / 1000000000;
  quotient = λ x y. x * 1000000000 / y;
  to_u64 = λ x. x / 1000000000;
  fixed = λ decimals x. to_string (pos (x / 1000000000));
}

ns_clock_laws : ClockLaws ns_clock
ns_clock_laws = record { ns = λ t. t; to_u64-elapsed = λ start cur later small. refl }

abbrev timer : Timer ns_clock
timer = new_timer ns_clock 500 7

-- A timer of half a second is not over after 900 ms.
timeout_late : timeout ns_clock 900000007 timer ≡ false
unfolding timeout timeover new_timer
timeout_late = refl

timeover-late_example :
    (timeover ns_clock 2000000007 (reset_ms ns_clock 500 7 timer) ≡ true
      → 500 * 1000000 < 2000000007 - 7)
    × (500 * 1000000 + 1000000000 ≤ 2000000007 - 7
        → timeover ns_clock 2000000007 (reset_ms ns_clock 500 7 timer) ≡ true)
    × ((timeover ns_clock 2000000007 (reset_sec ns_clock 1 7 timer) ≡ true)
        ↔ (1 < (2000000007 - 7) / 1000000000))
unfolding ns_clock_laws
timeover-late_example =
    timeover-late ns_clock_laws 500 1 7 2000000007 timer (omega arith) (omega arith) (omega arith)
