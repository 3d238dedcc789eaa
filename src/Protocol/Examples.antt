-- ===== src/Protocol/Examples.antt =====
-- The theorems on port states at a master that loses to another.
use xge_ptpv.Common.{refl, sym, true, false, [], ◌∷◌}
use mathlib.Core.Bool.{false≢true}
use xge_ptpv.Common.Int.{pos}
use xge_ptpv.Datatypes.{IntervalTimer, PtpClock, ptp_master, ptp_slave, clock_of, sample_opts}
use xge_ptpv.Timer.{Timers, idle_timer, catch_alarm, timer_expired}
use xge_ptpv.Servo.{Servo, initial_tick}
use xge_ptpv.Protocol.{Engine, to_state}
use xge_ptpv.Protocol.Quiet.{RightTimers}
use xge_ptpv.Protocol.Reach.{with_timers, Reaches-RightTimers, here, moves, ticks, asks}

abbrev busy_timer : IntervalTimer
busy_timer = record { interval = pos 128; left = pos 5; expire = true }

-- Timers 0, 2 and 4 run.
abbrev master_timers : Timers
master_timers = record {
  elapsed = 0;
  operator_warned_interval_too_small = false;
  itimer =
      busy_timer ∷ idle_timer ∷ busy_timer ∷ idle_timer ∷ busy_timer ∷ idle_timer ∷ idle_timer ∷ [];
}

abbrev free_servo : Servo
free_servo = record {
  m_initial_tick = initial_tick;
  m_update_offset_count = 0;
  m_ofm_zline = [];
  m_frequency_syntonized = false;
  m_frequency_syntonized_z1 = false;
  m_frequency_syntonized_z2 = false;
}

abbrev master_clock : PtpClock
master_clock =
    let c = clock_of 1 in record c { port_ds = record c.port_ds { port_state = ptp_master } }

abbrev master : Engine
master = record {
  opts = sample_opts;
  clock = master_clock;
  timers = master_timers;
  servo = free_servo;
  master_has_sent_announce = true;
  written = [];
}

master-RightTimers : RightTimers ptp_master master_timers
master-RightTimers = record {
  size = refl;
  syncs = λ e. absurd (false≢true (sym e));
  announces = λ e. absurd (false≢true (sym e));
  waits = λ e. record { size = refl; interval_is = refl };
}

-- The master loses, a tick goes by, and its announce receipt timer is asked.
abbrev run : Engine
run =
    let slave = to_state ptp_slave master in
    let later = with_timers (catch_alarm slave.timers) slave in
    with_timers (timer_expired 3 later.timers).1 later

Reaches-RightTimers_example : RightTimers run.clock.port_state run.timers
Reaches-RightTimers_example =
    Reaches-RightTimers master run master-RightTimers
      (asks 3 _ (ticks _ (moves ptp_slave master here)))
