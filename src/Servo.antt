-- ===== src/Servo.antt =====
-- The clock servo: esl/sw/dep/servo.cpp, and what it calls of esl/sw/dep/sys.cpp. What goes to the
-- hardware is a value of `Command`. The displays and the messages to the operator are left out.
pub mod Filter
pub mod Paths
pub mod Offset
pub mod Rate
pub mod Stable
pub mod Exact
mod Examples
use xge_ptpv.Common.{
  ℕ, zero, suc, ◌+◌, ◌%◌, ◌^◌, Bool, true, false, not, ◌&&◌, ◌||◌, List, [], ◌∷◌, if◌then◌else◌,
  ltb, leb, ◌==◌,
}
use xge_ptpv.Common.Int.{
  ℤ, pos, negsuc, pos_part, neg_part, ◌+ℤ◌, ◌-ℤ◌, neg, quot, magnitude, residue, ltb_ℤ, int32,
  int64,
}
use xge_ptpv.Datatypes.{PtpClock, RunTimeOpts, TimeInternal}

-- `INITIAL_TICK`, which `LP_INITIAL_TICK` is too: `(uint32_t)(6.4 * 2^26 + 0.5)`
abbrev pub initial_tick : ℕ
initial_tick = 429_496_730

-- `ADJ_FREQ_MAX`: `(int32_t)(100 * 1e-6 * 6.4 * 2^26 + 0.5)`
abbrev pub adj_freq_max : ℕ
adj_freq_max = 42_950

-- `OFM_DELAY_LEN`
abbrev pub ofm_delay_len : ℕ
ofm_delay_len = 30

pub record Servo : Type 0 where
  pub m_initial_tick : ℕ
  pub m_update_offset_count : ℕ
  pub m_ofm_zline : List ℤ
  pub m_frequency_syntonized : Bool
  pub m_frequency_syntonized_z1 : Bool
  pub m_frequency_syntonized_z2 : Bool

-- A write of the tick increment, or a step of the clock by seconds and nanoseconds.
pub data Command : Type 0 where
  tick_inc : ℕ → Command
  set_rtc_value : ℤ → ℤ → Command

abbrev pub is_zero : ℤ → Bool
is_zero z = magnitude z == 0

-- `abs` of an int, which wraps for the least.
abbrev pub abs_int : ℤ → ℤ
abs_int z = int32 (pos (magnitude z))

-- `adjTickRate`: the increment is held between its bounds, and written as an unsigned number.
unfoldable pub adj_tick_rate : ℕ → ℤ → Command
adj_tick_rate initial tick =
    let max_tick = int32 (pos (initial + adj_freq_max)) in
    let min_tick = int32 (pos initial -ℤ pos adj_freq_max) in
    tick_inc (
      residue (2 ^ 32)
        (if ltb_ℤ max_tick tick then max_tick else if ltb_ℤ tick min_tick then min_tick else tick))

-- `adjTickRate_wrapper`
unfoldable pub adj_tick_rate_wrapper : RunTimeOpts → Servo → ℤ → List Command
adj_tick_rate_wrapper opts v adj =
    if opts.no_adjust
    then []
    else adj_tick_rate v.m_initial_tick
        (int32 (pos (residue (2 ^ 32) (pos v.m_initial_tick +ℤ adj))))
      ∷ []

-- `warn_operator_fast_slewing`, as `adjTickRate_wrapper` calls it.
unfoldable pub warn_fast : RunTimeOpts → ℤ → PtpClock → PtpClock
warn_fast opts adj c =
    if not opts.no_adjust && not c.warned_operator_fast_slewing && leb adj_freq_max (magnitude adj)
    then record c { warned_operator_fast_slewing = true }
    else c

-- `warn_operator_slow_slewing`
unfoldable pub warn_slow : PtpClock → PtpClock
warn_slow c =
    if c.warned_operator_slow_slewing
    then c
    else record c { warned_operator_slow_slewing = true; warned_operator_fast_slewing = true }

-- `servo_perform_clock_step`
unfoldable pub servo_perform_clock_step : RunTimeOpts → PtpClock → List Command
servo_perform_clock_step opts c =
    if opts.no_adjust
    then []
    else set_rtc_value (int64 (neg c.offset_from_master.seconds))
        (int32 (neg c.offset_from_master.nanoseconds))
      ∷ []

-- `ap < PI_UNIT` for an int, where `PI_UNIT` is 1.16, which becomes 1 as an int.
abbrev pub attenuation : ℤ → ℕ
attenuation a = if ltb_ℤ a (pos 2) then 1 else pos_part a

-- The accumulator, held between its bounds.
unfoldable pub clamp_drift : ℤ → ℤ
clamp_drift d =
    if ltb_ℤ (pos adj_freq_max) d
    then pos adj_freq_max
    else if ltb_ℤ d (neg (pos adj_freq_max))
    then neg (pos adj_freq_max)
    else d

-- The offset, in nanoseconds, is above `limit`, or there are whole seconds of it.
unfoldable pub is_beyond : ℤ → TimeInternal → Bool
is_beyond limit t = not (is_zero t.seconds) || ltb_ℤ limit (abs_int t.nanoseconds)

-- The first test of `updateClock`: a reset limit is set, and is exceeded.
unfoldable pub is_aborted : RunTimeOpts → PtpClock → Bool
is_aborted opts c = not (is_zero opts.max_reset) && is_beyond opts.max_reset c.offset_from_master

-- The second test: the clock is to be stepped.
unfoldable pub is_large : RunTimeOpts → Servo → PtpClock → Bool
is_large opts v c =
    is_beyond opts.max_delay c.offset_from_master
    || (not v.m_frequency_syntonized_z2 && v.m_frequency_syntonized_z1)

unfoldable pub with_drift : ℤ → PtpClock → PtpClock
with_drift d c = record c { exchange = record c.exchange { observed_drift = d } }

-- The most that the clock is slewed by, with the sign of the offset.
unfoldable pub full_speed : PtpClock → ℤ
full_speed c =
    if ltb_ℤ (pos 0) c.offset_from_master.nanoseconds
    then pos adj_freq_max
    else neg (pos adj_freq_max)

-- A large offset.
unfoldable pub jump : RunTimeOpts → Servo → PtpClock → PtpClock × List Command
jump opts v c =
    let adj = full_speed c in
    if opts.no_adjust
    then (c, [])
    else (if opts.no_reset_clock
        then (
          warn_fast opts (neg adj) (warn_slow (with_drift adj c)),
          adj_tick_rate_wrapper opts v (neg adj),
        )
        else (c, servo_perform_clock_step opts c))

-- The PI controller.
unfoldable pub control : RunTimeOpts → Servo → PtpClock → PtpClock × List Command
control opts v c =
    let offset = c.offset_from_master.nanoseconds in
    let drift = clamp_drift (int32 (c.observed_drift +ℤ quot offset (attenuation opts.ai))) in
    let adj = int32 (quot offset (attenuation opts.ap) +ℤ drift) in
    (
      warn_fast opts (int32 (neg adj)) (with_drift drift c),
      adj_tick_rate_wrapper opts v (int32 (neg adj)),
    )

-- `updateClock`
unfoldable pub update_clock : RunTimeOpts → Servo → PtpClock → PtpClock × List Command
update_clock opts v c =
    if is_aborted opts c
    then (c, [])
    else (if is_large opts v c then jump opts v c else control opts v c)
