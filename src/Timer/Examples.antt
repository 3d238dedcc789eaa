-- ===== src/Timer/Examples.antt =====
-- The theorems on timers at an array of seven.
use xge_ptpv.Common.{ℕ, ◌+◌, ◌≤◌, ◌≡◌, ◌↔◌, refl, true, false, List, [], ◌∷◌, arith}
use xge_ptpv.Timer.{Timers, Interval, idle_timer, timer_start, timer_stop, ticks}
use xge_ptpv.Timer.Poll.{poll}
use xge_ptpv.Timer.Expiry.{all_quiet, after_polls, sum, timer_start-expires}
use xge_ptpv.Timer.Stop.{timer_stop-quiet}

abbrev idle : Timers
idle = record {
  elapsed = 2;
  operator_warned_interval_too_small = false;
  itimer =
      idle_timer ∷ idle_timer ∷ idle_timer ∷ idle_timer ∷ idle_timer ∷ idle_timer ∷ idle_timer ∷ [];
}

-- Half a second is 64 ticks.
abbrev half_second : Interval
half_second = record { numerator = 1; denominator = 2 }

abbrev waits : List ℕ
waits = 10 ∷ 0 ∷ 30 ∷ []

half_second-ticks : ticks half_second ≡ 64
unfolding ticks
half_second-ticks = refl

timer_start-expires_example :
    (all_quiet 3 waits (timer_start 3 half_second idle) ≡ true)
    × (((poll 3 22 (after_polls 3 waits (timer_start 3 half_second idle))).0 ≡ true)
        ↔ (ticks half_second ≤ 2 + sum waits + 22))
timer_start-expires_example =
    timer_start-expires 3 half_second idle waits 22 (omega arith) refl
      (omega (arith, half_second-ticks)) (omega (arith, half_second-ticks)) (omega arith)

timer_stop-quiet_example :
    ((poll 3 5 (timer_stop 3 idle)).0 ≡ false)
    × (all_quiet 3 waits (poll 3 5 (timer_stop 3 idle)).1 ≡ true)
timer_stop-quiet_example = timer_stop-quiet 3 idle 5 waits (omega arith) refl
