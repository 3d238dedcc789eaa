-- ===== src/Protocol/Quiet.antt =====
-- Which timers may run in which port state, and the tasks of `toState` on leaving a state.
use xge_ptpv.Common.{ℕ, ◌<◌, ◌≡◌, ◌≢◌, refl, Bool, true, false, length, if_rule, ◌==◌, arith}
use xge_ptpv.Common.Int.{pos}
use xge_ptpv.Datatypes.{
  PortState, ptp_initializing, ptp_faulty, ptp_disabled, ptp_listening, ptp_pre_master, ptp_master,
  ptp_passive, ptp_uncalibrated, ptp_slave,
}
use xge_ptpv.Timer.{Timers, Interval, timer_start, timer_stop, timer_array_size}
use xge_ptpv.Servo.Offset.{p2p, e2e}
use xge_ptpv.Protocol.{
  Engine, stop, reset_servo, leave_state, stop_requests, sync_interval_timer,
  announce_interval_timer, announce_receipt_timer, delayreq_interval_timer,
  pdelayreq_interval_timer,
}
use xge_ptpv.Protocol.Intervals.{
  Has, timer_stop-Has, timer_stop-Has_ne, timer_start-Has_ne, timer_stop-Has_stopped,
}

-- The states in which Sync and Announce are sent, and those that wait for announces.
abbrev pub sends : PortState → Bool
sends ptp_master = true
sends s = false

abbrev pub hears : PortState → Bool
hears ptp_listening = true
hears ptp_passive = true
hears ptp_slave = true
hears s = false

abbrev pub IsStopped : ℕ → Timers → Type 0
IsStopped i t = Has i (pos 0) t

-- No Sync, no Announce, and no wait for announces is timed but where the state is for it.
pub record RightTimers (s : PortState) (t : Timers) : Type 0 where
  pub size : length t.itimer ≡ timer_array_size
  pub syncs : sends s ≡ false → IsStopped sync_interval_timer t
  pub announces : sends s ≡ false → IsStopped announce_interval_timer t
  pub waits : hears s ≡ false → IsStopped announce_receipt_timer t

-- None of the three is timed.
pub record Quiet (t : Timers) : Type 0 where
  pub size : length t.itimer ≡ timer_array_size
  pub syncs : IsStopped sync_interval_timer t
  pub announces : IsStopped announce_interval_timer t
  pub waits : IsStopped announce_receipt_timer t

-- Stopping any timer keeps the three as quiet as they are.
pub stop-Quiet : (i : ℕ) (t : Timers) → Quiet t → Quiet (timer_stop i t)
stop-Quiet i t q = record {
  size = (timer_stop-Has_stopped i sync_interval_timer t (omega arith) q.syncs).size;
  syncs = timer_stop-Has_stopped i sync_interval_timer t (omega arith) q.syncs;
  announces = timer_stop-Has_stopped i announce_interval_timer t (omega arith) q.announces;
  waits = timer_stop-Has_stopped i announce_receipt_timer t (omega arith) q.waits;
}

-- Starting another timer too.
pub start-Quiet :
    (i : ℕ) (s : Interval) (t : Timers)
    → i ≢ sync_interval_timer
    → i ≢ announce_interval_timer
    → i ≢ announce_receipt_timer
    → Quiet t
    → Quiet (timer_start i s t)
start-Quiet i s t a b c q =
    let first = timer_start-Has_ne i sync_interval_timer (pos 0) s t a q.syncs in
    record {
      size = first.size;
      syncs = first;
      announces = timer_start-Has_ne i announce_interval_timer (pos 0) s t b q.announces;
      waits = timer_start-Has_ne i announce_receipt_timer (pos 0) s t c q.waits;
    }

-- Stopping the timer of the wait makes a state that does not send quiet.
stop_wait-Quiet :
    (s : PortState) (t : Timers)
    → sends s ≡ false
    → RightTimers s t
    → Quiet (timer_stop announce_receipt_timer t)
stop_wait-Quiet s t e r = record {
  size = (timer_stop-Has announce_receipt_timer t (omega arith) r.size).size;
  syncs =
      timer_stop-Has_ne announce_receipt_timer sync_interval_timer (pos 0) t (omega arith)
        (r.syncs e);
  announces =
      timer_stop-Has_ne announce_receipt_timer announce_interval_timer (pos 0) t (omega arith)
        (r.announces e);
  waits = timer_stop-Has announce_receipt_timer t (omega arith) r.size;
}

-- Stopping the timers of the sender makes a state that does not hear quiet.
stop_sending-Quiet :
    (s : PortState) (t : Timers)
    → hears s ≡ false
    → RightTimers s t
    → Quiet (timer_stop announce_interval_timer (timer_stop sync_interval_timer t))
stop_sending-Quiet s t e r =
    let one = timer_stop-Has sync_interval_timer t (omega arith) r.size in
    let two =
      timer_stop-Has announce_interval_timer (timer_stop sync_interval_timer t) (omega arith)
        one.size in
    record {
      size = two.size;
      syncs =
          timer_stop-Has_ne announce_interval_timer sync_interval_timer (pos 0)
            (timer_stop sync_interval_timer t) (omega arith) one;
      announces = two;
      waits =
          timer_stop-Has_stopped announce_interval_timer announce_receipt_timer
            (timer_stop sync_interval_timer t) (omega arith)
            (timer_stop-Has_stopped sync_interval_timer announce_receipt_timer t (omega arith)
              (r.waits e));
    }

still-Quiet :
    (s : PortState) (t : Timers) → sends s ≡ false → hears s ≡ false → RightTimers s t → Quiet t
still-Quiet s t e h r = record {
  size = r.size;
  syncs = r.syncs e;
  announces = r.announces e;
  waits = r.waits h;
}

stop_requests-Quiet : (e : Engine) → Quiet e.timers → Quiet (stop_requests e).timers
unfolding stop_requests
stop_requests-Quiet e q =
    if_rule (λ (r : Engine). Quiet r.timers) (e.clock.delay_mechanism == e2e)
      (λ p. stop-Quiet delayreq_interval_timer e.timers q)
      (λ p.
        if_rule (λ (r : Engine). Quiet r.timers) (e.clock.delay_mechanism == p2p)
          (λ p. stop-Quiet pdelayreq_interval_timer e.timers q) (λ p. q))

pub stop-RightTimers :
    (i : ℕ) (s : PortState) (t : Timers)
    → i < timer_array_size
    → RightTimers s t
    → RightTimers s (timer_stop i t)
stop-RightTimers i s t h r = record {
  size = (timer_stop-Has i t h r.size).size;
  syncs = λ e. timer_stop-Has_stopped i sync_interval_timer t (omega arith) (r.syncs e);
  announces = λ e. timer_stop-Has_stopped i announce_interval_timer t (omega arith) (r.announces e);
  waits = λ e. timer_stop-Has_stopped i announce_receipt_timer t (omega arith) (r.waits e);
}

pub leave_state-Quiet :
    (s : PortState) (e : Engine) → RightTimers s e.timers → Quiet (leave_state s e).timers
unfolding leave_state reset_servo
leave_state-Quiet ptp_master e r =
    stop-Quiet pdelayreq_interval_timer _ (stop_sending-Quiet ptp_master e.timers refl r)
leave_state-Quiet ptp_slave e r =
    stop_requests-Quiet (stop announce_receipt_timer e) (stop_wait-Quiet ptp_slave e.timers refl r)
leave_state-Quiet ptp_passive e r =
    let t = timer_stop pdelayreq_interval_timer e.timers in
    stop_wait-Quiet ptp_passive t refl
      (stop-RightTimers pdelayreq_interval_timer ptp_passive e.timers (omega arith) r)
leave_state-Quiet ptp_listening e r = stop_wait-Quiet ptp_listening e.timers refl r
leave_state-Quiet ptp_initializing e r = still-Quiet ptp_initializing e.timers refl refl r
leave_state-Quiet ptp_faulty e r = still-Quiet ptp_faulty e.timers refl refl r
leave_state-Quiet ptp_disabled e r = still-Quiet ptp_disabled e.timers refl refl r
leave_state-Quiet ptp_pre_master e r = still-Quiet ptp_pre_master e.timers refl refl r
leave_state-Quiet ptp_uncalibrated e r = still-Quiet ptp_uncalibrated e.timers refl refl r
