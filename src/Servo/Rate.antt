-- ===== src/Servo/Rate.antt =====
-- The bounds of the drift and of the tick increment that `updateClock` sets.
use xge_ptpv.Common.{
  subst, sym, ℕ, ◌+◌, ◌^◌, ◌≤◌, ◌≡◌, refl, ◌∙◌, List, [], ◌∷◌, if◌then◌else◌, if_rule, arith,
}
use xge_ptpv.Common.Int.{ℤ, pos, ◌+ℤ◌, ◌-ℤ◌, neg, quot, magnitude, residue, ltb_ℤ, int32}
use xge_ptpv.Datatypes.{PtpClock, RunTimeOpts}
use xge_ptpv.Servo.{
  initial_tick, adj_freq_max, Servo, Command, tick_inc, set_rtc_value, adj_tick_rate,
  adj_tick_rate_wrapper, warn_fast, warn_slow, servo_perform_clock_step, attenuation, clamp_drift,
  is_aborted, is_large, with_drift, full_speed, jump, control, update_clock,
}

-- A tick increment within 100 ppm of the nominal one. A step of the clock is in bounds.
pub data InBounds : Command → Type 0 where
  tick :
      (n : ℕ)
      → initial_tick ≤ n + adj_freq_max
      → n ≤ initial_tick + adj_freq_max
      → InBounds (tick_inc n)
  step : (s n : ℤ) → InBounds (set_rtc_value s n)

pub data AllInBounds : List Command → Type 0 where
  none : AllInBounds []
  more : (c : Command) (cs : List Command) → InBounds c → AllInBounds cs → AllInBounds (c ∷ cs)

-- The increment, before it is written.
abbrev held : ℤ → ℤ
held t =
    let max_tick = int32 (pos (initial_tick + adj_freq_max)) in
    let min_tick = int32 (pos initial_tick -ℤ pos adj_freq_max) in
    if ltb_ℤ max_tick t then max_tick else if ltb_ℤ t min_tick then min_tick else t

held_bounds :
    (t : ℤ)
    → (initial_tick ≤ residue (2 ^ 32) (held t) + adj_freq_max)
      × (residue (2 ^ 32) (held t) ≤ initial_tick + adj_freq_max)
unfolding ◌-ℤ◌ int32
held_bounds t = ground arith

-- Whatever increment is asked for, the one that `adjTickRate` writes is within 100 ppm of the
-- nominal one.
pub adj_tick_rate-InBounds : (t : ℤ) → InBounds (adj_tick_rate initial_tick t)
unfolding adj_tick_rate
adj_tick_rate-InBounds t = tick (residue (2 ^ 32) (held t)) (held_bounds t).0 (held_bounds t).1

pub clamp_drift_bounds : (d : ℤ) → magnitude (clamp_drift d) ≤ adj_freq_max
unfolding clamp_drift neg
clamp_drift_bounds d = ground arith

wrapper-InBounds :
    (opts : RunTimeOpts) (v : Servo) (adj : ℤ)
    → v.m_initial_tick ≡ initial_tick
    → AllInBounds (adj_tick_rate_wrapper opts v adj)
unfolding adj_tick_rate_wrapper
wrapper-InBounds opts v adj e =
    let t = int32 (pos (residue (2 ^ 32) (pos v.m_initial_tick +ℤ adj))) in
    if_rule AllInBounds opts.no_adjust (λ p. none)
      (λ p.
        more _ [] (subst (λ i. InBounds (adj_tick_rate i t)) (sym e) (adj_tick_rate-InBounds t))
          none)

clock_step-InBounds :
    (opts : RunTimeOpts) (c : PtpClock) → AllInBounds (servo_perform_clock_step opts c)
unfolding servo_perform_clock_step
clock_step-InBounds opts c =
    if_rule AllInBounds opts.no_adjust (λ p. none) (λ p. more _ [] (step _ _) none)

-- What `updateClock` is to leave behind.
pub record IsSafe (r : PtpClock × List Command) : Type 0 where
  pub drift : magnitude r.0.observed_drift ≤ adj_freq_max
  pub commands : AllInBounds r.1

with_drift-drift : (d : ℤ) (c : PtpClock) → (with_drift d c).observed_drift ≡ d
unfolding with_drift
with_drift-drift d c = refl

full_speed_bounds : (c : PtpClock) → magnitude (full_speed c) ≤ adj_freq_max
unfolding full_speed neg
full_speed_bounds c = ground arith

warn_fast-drift :
    (opts : RunTimeOpts) (adj : ℤ) (c : PtpClock)
    → (warn_fast opts adj c).observed_drift ≡ c.observed_drift
unfolding warn_fast
warn_fast-drift opts adj c = ground arith

warn_slow-drift : (c : PtpClock) → (warn_slow c).observed_drift ≡ c.observed_drift
unfolding warn_slow
warn_slow-drift c = ground arith

held_drift : {a : ℤ} (d : ℤ) → magnitude d ≤ adj_freq_max → a ≡ d → magnitude a ≤ adj_freq_max
held_drift d h e = rw e h

module _ (opts : RunTimeOpts) (v : Servo) (c : PtpClock)
    (nominal : v.m_initial_tick ≡ initial_tick) where
  control-IsSafe : IsSafe (control opts v c)
  unfolding control
  control-IsSafe = record {
    drift =
        (let d = clamp_drift (
            int32
              (c.observed_drift +ℤ quot c.offset_from_master.nanoseconds (attenuation opts.ai))) in
          held_drift d (clamp_drift_bounds _)
            (warn_fast-drift opts _ (with_drift d c) ∙ with_drift-drift d c));
    commands = wrapper-InBounds opts v _ nominal;
  }

  jump-IsSafe : magnitude c.observed_drift ≤ adj_freq_max → IsSafe (jump opts v c)
  unfolding jump
  jump-IsSafe h =
      if_rule IsSafe opts.no_adjust (λ p. record { drift = h; commands = none })
        (λ p.
          if_rule IsSafe opts.no_reset_clock
            (λ q. record {
              drift = held_drift (full_speed c) (full_speed_bounds c) (
                  warn_fast-drift opts _ (warn_slow (with_drift (full_speed c) c))
                  ∙ warn_slow-drift (with_drift (full_speed c) c)
                  ∙ with_drift-drift (full_speed c) c);
              commands = wrapper-InBounds opts v _ nominal;
            })
            (λ q. record { drift = h; commands = clock_step-InBounds opts c }))

  -- `updateClock` keeps the drift within the 100 ppm that it may adjust by, and each tick increment
  -- that it writes is within 100 ppm of the nominal one, which the servo is to start from.
  pub update_clock-IsSafe :
      magnitude c.observed_drift ≤ adj_freq_max → IsSafe (update_clock opts v c)
  unfolding update_clock
  update_clock-IsSafe h =
      if_rule IsSafe (is_aborted opts c) (λ p. record { drift = h; commands = none })
        (λ p. if_rule IsSafe (is_large opts v c) (λ q. jump-IsSafe h) (λ q. control-IsSafe))
