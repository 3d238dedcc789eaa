-- ===== src/Protocol.antt =====
-- The port state machine: `toState` of esl/sw/protocol.cpp. The IGMP refresh is left out.
pub mod Intervals
pub mod Quiet
pub mod States
pub mod Reach
mod Examples
use xge_ptpv.Common.{ℕ, suc, ◌+◌, ◌*◌, ◌^◌, Bool, true, false, List, [], if◌then◌else◌, ◌==◌}
use xge_ptpv.Common.Int.{ℤ, pos, negsuc}
use xge_ptpv.Datatypes.{
  PtpClock, RunTimeOpts, PortState, ptp_initializing, ptp_faulty, ptp_disabled, ptp_listening,
  ptp_pre_master, ptp_master, ptp_passive, ptp_uncalibrated, ptp_slave,
}
use xge_ptpv.Arith.{clear_time}
use xge_ptpv.Bmc.{p1, is_state}
use xge_ptpv.Timer.{Timers, Interval, timer_start, timer_stop}
use xge_ptpv.Servo.{Servo, Command}
use xge_ptpv.Servo.Offset.{p2p, e2e, Updated, init_clock}

abbrev pub pdelayreq_interval_timer : ℕ
pdelayreq_interval_timer = 0

abbrev pub delayreq_interval_timer : ℕ
delayreq_interval_timer = 1

abbrev pub sync_interval_timer : ℕ
sync_interval_timer = 2

abbrev pub announce_receipt_timer : ℕ
announce_receipt_timer = 3

abbrev pub announce_interval_timer : ℕ
announce_interval_timer = 4

abbrev pub operator_messages_timer : ℕ
operator_messages_timer = 5

-- What `toState` reads and changes; `written` is what the clock was last told.
pub record Engine : Type 0 where
  pub opts : RunTimeOpts
  pub clock : PtpClock
  pub timers : Timers
  pub servo : Servo
  pub master_has_sent_announce : Bool
  pub written : List Command

abbrev pub stop : ℕ → Engine → Engine
stop i e = record e { timers = timer_stop i e.timers }

abbrev pub start : ℕ → Interval → Engine → Engine
start i s e = record e { timers = timer_start i s e.timers }

abbrev pub enter : PortState → Engine → Engine
enter s e = record e {
  clock = record e.clock { port_ds = record e.clock.port_ds { port_state = s } };
}

-- `initClock`
unfoldable pub reset_servo : Engine → Engine
reset_servo e =
    let r = init_clock e.opts e.servo e.clock in
    record e { opts = r.0.opts; servo = r.0.servo; clock = r.0.clock; written = r.1 }

-- `pow(2, x)`
unfoldable pub pow2 : ℤ → Interval
pow2 (pos n) = record { numerator = 2 ^ n; denominator = 1 }
pow2 (negsuc n) = record { numerator = 1; denominator = 2 ^ suc n }

-- The announce receipt timeout.
unfoldable pub receipt_timeout : PtpClock → Interval
receipt_timeout c =
    let i = pow2 c.log_announce_interval in
    record i { numerator = c.announce_receipt_timeout * i.numerator }

-- The same in the listening state: a tenth of it, unless for slaves only.
unfoldable pub listening_timeout : PtpClock → Interval
listening_timeout c =
    let i = receipt_timeout c in
    if c.slave_only then i else record i { denominator = i.denominator * 10 }

-- The request timer of the delay mechanism in use.
unfoldable pub stop_requests : Engine → Engine
stop_requests e =
    if e.clock.delay_mechanism == e2e
    then stop delayreq_interval_timer e
    else if e.clock.delay_mechanism == p2p
    then stop pdelayreq_interval_timer e
    else e

-- The tasks on leaving a state.
unfoldable pub leave_state : PortState → Engine → Engine
leave_state ptp_master e =
    stop pdelayreq_interval_timer (stop announce_interval_timer (stop sync_interval_timer e))
leave_state ptp_slave e = reset_servo (stop_requests (stop announce_receipt_timer e))
leave_state ptp_passive e = stop announce_receipt_timer (stop pdelayreq_interval_timer e)
leave_state ptp_listening e = stop announce_receipt_timer e
leave_state s e = e

-- What a clock that comes to listen forgets.
unfoldable pub listen_anew : Engine → Engine
listen_anew e =
    let counted = if is_state e.clock.port_state ptp_listening then e else record e {
      clock = record e.clock { reset_count = e.clock.reset_count + 1 };
      master_has_sent_announce = false;
    } in
    record counted {
      clock = record counted.clock {
        port_ds = record counted.clock.port_ds {
          log_min_delay_req_interval = counted.opts.initial_delayreq;
        };
      };
    }

-- What a clock that becomes a slave forgets.
unfoldable pub slave_anew : Engine → Engine
slave_anew e = record e {
  clock = record e.clock {
    exchange = record e.clock.exchange {
      waiting_for_follow = false;
      waiting_for_delay_resp = false;
      delay_req_send_time = clear_time;
      delay_req_receive_time = clear_time;
      pdelay_req_send_time = clear_time;
      pdelay_req_receive_time = clear_time;
      pdelay_resp_send_time = clear_time;
      pdelay_resp_receive_time = clear_time;
    };
  };
}

abbrev with_first_waits : Engine → Engine
with_first_waits e = record e {
  clock = record e.clock { waiting_for_first_sync = true; waiting_for_first_delayresp = true };
}

abbrev with_p1 : Engine → Engine
with_p1 e = record e { clock = p1 e.clock e.opts }

-- `OPERATOR_MESSAGES_INTERVAL`
abbrev operator_messages_interval : Interval
operator_messages_interval = record { numerator = 300; denominator = 1 }

-- The tasks on entering a state.
unfoldable pub enter_state : PortState → Engine → Engine
enter_state ptp_initializing e = enter ptp_initializing e
enter_state ptp_faulty e = enter ptp_faulty e
enter_state ptp_disabled e = enter ptp_disabled e
enter_state ptp_listening e =
    let quiet =
      stop delayreq_interval_timer (
        stop pdelayreq_interval_timer
          (stop announce_interval_timer (stop sync_interval_timer e))) in
    let anew = listen_anew quiet in
    enter ptp_listening (start announce_receipt_timer (listening_timeout anew.clock) anew)
enter_state ptp_master e = enter ptp_master (
    start pdelayreq_interval_timer (pow2 e.clock.log_min_pdelay_req_interval) (
      start announce_interval_timer (pow2 e.clock.log_announce_interval)
        (start sync_interval_timer (pow2 e.clock.log_sync_interval) e)))
enter_state ptp_passive e = with_p1 (
    enter ptp_passive (
      start announce_receipt_timer (receipt_timeout e.clock)
        (start pdelayreq_interval_timer (pow2 e.clock.log_min_pdelay_req_interval) e)))
enter_state ptp_uncalibrated e = enter ptp_uncalibrated e
enter_state ptp_slave e =
    let anew = slave_anew (reset_servo e) in
    enter ptp_slave (
      with_first_waits (
        start announce_receipt_timer (receipt_timeout anew.clock)
          (start operator_messages_timer operator_messages_interval anew)))
enter_state ptp_pre_master e = e

-- `toState`
unfoldable pub to_state : PortState → Engine → Engine
to_state s e =
    let active = record e { clock = record e.clock { message_activity = true } } in
    enter_state s (leave_state active.clock.port_state active)
