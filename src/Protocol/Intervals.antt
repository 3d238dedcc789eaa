-- ===== src/Protocol/Intervals.antt =====
-- What stopping and starting one timer does to the intervals of the others.
use xge_ptpv.Common.{
  ℕ, ◌<◌, ◌≡◌, ◌≢◌, ◌∙◌, ap, length, length-set, get_or-set_self, get_or-set_ne, if_rule, leb,
  false, arith,
}
use native.Mathlib.Decide.{ℕ_discrete}
use xge_ptpv.Common.Int.{ℤ, pos}
use xge_ptpv.Datatypes.{IntervalTimer}
use xge_ptpv.Timer.{
  Timers, Interval, timer_array_size, idle_timer, timer_at, timer_stop, timer_start, ticks,
}

-- The array of timers has its size, and the interval of timer `j` is `z`.
pub record Has (j : ℕ) (z : ℤ) (t : Timers) : Type 0 where
  pub size : length t.itimer ≡ timer_array_size
  pub interval_is : (timer_at t j).interval ≡ z

pub timer_stop-Has :
    (i : ℕ) (t : Timers)
    → i < timer_array_size
    → length t.itimer ≡ timer_array_size
    → Has i (pos 0) (timer_stop i t)
unfolding timer_stop
timer_stop-Has i t h size =
    let v : IntervalTimer = record (timer_at t i) { interval = pos 0 } in
    if_rule (Has i (pos 0)) (leb timer_array_size i) (λ p. absurd (ground arith))
      (λ p. record {
        size = length-set t.itimer i v ∙ size;
        interval_is = ap (λ r. r.interval) (get_or-set_self t.itimer i v idle_timer (omega arith));
      })

pub timer_stop-Has_ne :
    (i j : ℕ) (z : ℤ) (t : Timers) → i ≢ j → Has j z t → Has j z (timer_stop i t)
unfolding timer_stop
timer_stop-Has_ne i j z t d h =
    let v : IntervalTimer = record (timer_at t i) { interval = pos 0 } in
    if_rule (Has j z) (leb timer_array_size i) (λ p. h)
      (λ p. record {
        size = length-set t.itimer i v ∙ h.size;
        interval_is =
            ap (λ r. r.interval) (get_or-set_ne t.itimer i j v idle_timer d) ∙ h.interval_is;
      })

pub timer_start-Has :
    (i : ℕ) (s : Interval) (t : Timers)
    → i < timer_array_size
    → length t.itimer ≡ timer_array_size
    → Has i (pos (ticks s)) (timer_start i s t)
unfolding timer_start
timer_start-Has i s t h size =
    let v : IntervalTimer = record {
      interval = pos (ticks s);
      left = pos (ticks s);
      expire = false;
    } in
    if_rule (Has i (pos (ticks s))) (leb timer_array_size i) (λ p. absurd (ground arith))
      (λ p. record {
        size = length-set t.itimer i v ∙ size;
        interval_is = ap (λ r. r.interval) (get_or-set_self t.itimer i v idle_timer (omega arith));
      })

pub timer_start-Has_ne :
    (i j : ℕ) (z : ℤ) (s : Interval) (t : Timers) → i ≢ j → Has j z t → Has j z (timer_start i s t)
unfolding timer_start
timer_start-Has_ne i j z s t d h =
    let v : IntervalTimer = record {
      interval = pos (ticks s);
      left = pos (ticks s);
      expire = false;
    } in
    if_rule (Has j z) (leb timer_array_size i) (λ p. h)
      (λ p. record {
        size = length-set t.itimer i v ∙ h.size;
        interval_is =
            ap (λ r. r.interval) (get_or-set_ne t.itimer i j v idle_timer d) ∙ h.interval_is;
      })

-- A timer that is stopped stays so when any timer is stopped.
pub timer_stop-Has_stopped :
    (i j : ℕ) (t : Timers) → j < timer_array_size → Has j (pos 0) t → Has j (pos 0) (timer_stop i t)
timer_stop-Has_stopped i j t hj h = elim (ℕ_discrete i j) [
  | yes e ↦ rw e (timer_stop-Has j t hj h.size)
  | no d ↦ timer_stop-Has_ne i j (pos 0) t d h
]
