-- ===== src/Timer.antt =====
-- The interval timers: `ptp_timer` of esl/sw/dep/ptp_timer.cpp.
-- A tick is 7812.5 us, so that 128 of them are a second. A float interval is the fraction it stands
-- for, and its conversion to ticks is exact.
pub mod Update
pub mod Poll
pub mod Expiry
pub mod Stop
mod Examples
use xge_ptpv.Common.{
  ℕ, zero, suc, ◌+◌, ◌*◌, ◌/◌, ◌%◌, ◌^◌, Bool, true, false, List, [], ◌∷◌, get_or, set,
  if◌then◌else◌, leb, ltb, ◌==◌,
}
use xge_ptpv.Common.Int.{ℤ, pos, negsuc, ◌-ℤ◌, ltb_ℤ, int32}
use xge_ptpv.Datatypes.{IntervalTimer}

-- `TIMER_ARRAY_SIZE`
abbrev pub timer_array_size : ℕ
timer_array_size = 7

-- The timer's own fields, and the array that its callers hand it.
pub record Timers : Type 0 where
  pub elapsed : ℕ
  pub operator_warned_interval_too_small : Bool
  pub itimer : List IntervalTimer

abbrev pub idle_timer : IntervalTimer
idle_timer = record { interval = pos 0; left = pos 0; expire = false }

-- `itimer[i]`
abbrev pub timer_at : Timers → ℕ → IntervalTimer
timer_at t i = get_or t.itimer i idle_timer

abbrev write_timer : Timers → ℕ → IntervalTimer → Timers
write_timer t i v = record t { itimer = set t.itimer i v }

-- `catch_alarm`
unfoldable pub catch_alarm : Timers → Timers
catch_alarm t = record t { elapsed = (t.elapsed + 1) % 2 ^ 32 }

-- `x > 0`
abbrev pub is_positive : ℤ → Bool
is_positive z = ltb_ℤ (pos 0) z

-- The body of the loop of `timerUpdate`.
unfoldable pub update_one : ℤ → IntervalTimer → IntervalTimer
update_one delta t =
    let left = int32 (t.left -ℤ delta) in
    if is_positive t.interval
    then (if is_positive left
        then record t { left = left }
        else record t { left = t.interval; expire = true })
    else t

-- The loop of `timerUpdate`, over the first `n` timers.
unfoldable pub update_all : ℕ → ℤ → List IntervalTimer → List IntervalTimer
update_all zero delta ts = ts
update_all (suc n) delta [] = []
update_all (suc n) delta (t ∷ ts) = update_one delta t ∷ update_all n delta ts

-- `timerUpdate`
unfoldable pub timer_update : Timers → Timers
timer_update t =
    let delta = int32 (pos t.elapsed) in
    if is_positive delta
    then record t { elapsed = 0; itimer = update_all timer_array_size delta t.itimer }
    else record t { elapsed = 0 }

-- `timerStop`
unfoldable pub timer_stop : ℕ → Timers → Timers
timer_stop index t =
    if leb timer_array_size index
    then t
    else write_timer t index (record (timer_at t index) { interval = pos 0 })

-- A number of seconds, `numerator / denominator`.
pub record Interval : Type 0 where
  pub numerator : ℕ
  pub denominator : ℕ

-- `(int)((interval * 1E6) / US_TIMER_INTERVAL)`, at least 1
unfoldable pub ticks : Interval → ℕ
ticks i = let n = i.numerator * 128 / i.denominator in if n == 0 then 1 else n

-- `timerStart`
unfoldable pub timer_start : ℕ → Interval → Timers → Timers
timer_start index interval t =
    let left = ticks interval in
    if leb timer_array_size index
    then t
    else record (write_timer t index
        (record { interval = pos left; left = pos left; expire = false })) {
          operator_warned_interval_too_small =
              if interval.numerator * 128 / interval.denominator == 0
              then true
              else t.operator_warned_interval_too_small;
        }

-- The end of `timerExpired`: the latch is read and reset.
unfoldable pub read_expire : ℕ → Timers → Bool × Timers
read_expire index t =
    if leb timer_array_size index
    then (false, t)
    else (if (timer_at t index).expire
        then (true, write_timer t index (record (timer_at t index) { expire = false }))
        else (false, t))

-- `timerExpired`
unfoldable pub timer_expired : ℕ → Timers → Bool × Timers
timer_expired index t = read_expire index (timer_update t)

-- `timerStart_random`, where `rand` is the fraction that `getRand` returns.
unfoldable pub timer_start_random : ℕ → Interval → Interval → Timers → Timers
timer_start_random index interval rand t =
    timer_start index
      (record {
        numerator = rand.numerator * interval.numerator * 2;
        denominator = rand.denominator * interval.denominator;
      })
      t
