-- ===== src/Protocol/States.antt =====
-- The tasks of `toState` on entering a state, and `toState` as a whole.
use xge_ptpv.Common.{subst, ◌≡◌, ◌≢◌, refl, sym, ◌∙◌, true, if_rule, arith}
use mathlib.Core.Bool.{false≢true}
use xge_ptpv.Common.Int.{pos}
use xge_ptpv.Datatypes.{
  PortState, ptp_initializing, ptp_faulty, ptp_disabled, ptp_listening, ptp_pre_master, ptp_master,
  ptp_passive, ptp_uncalibrated, ptp_slave,
}
use xge_ptpv.Bmc.{p1, is_state}
use xge_ptpv.Timer.{Timers, Interval, timer_start}
use xge_ptpv.Protocol.{
  Engine, stop, reset_servo, leave_state, enter_state, listen_anew, listening_timeout, slave_anew,
  to_state, sync_interval_timer, announce_interval_timer, announce_receipt_timer,
  delayreq_interval_timer, pdelayreq_interval_timer, operator_messages_timer,
}
use xge_ptpv.Protocol.Intervals.{timer_start-Has, timer_start-Has_ne}
use xge_ptpv.Protocol.Quiet.{hears, RightTimers, Quiet, stop-Quiet, start-Quiet, leave_state-Quiet}

Quiet-RightTimers : (s : PortState) (t : Timers) → Quiet t → RightTimers s t
Quiet-RightTimers s t q = record {
  size = q.size;
  syncs = λ e. q.syncs;
  announces = λ e. q.announces;
  waits = λ e. q.waits;
}

-- A state that hears starts the timer of the wait.
wait-RightTimers :
    (s : PortState) (i : Interval) (t : Timers)
    → hears s ≡ true
    → Quiet t
    → RightTimers s (timer_start announce_receipt_timer i t)
wait-RightTimers s i t h q = record {
  size = (timer_start-Has announce_receipt_timer i t (omega arith) q.size).size;
  syncs = λ e.
      timer_start-Has_ne announce_receipt_timer sync_interval_timer (pos 0) i t (omega arith)
        q.syncs;
  announces = λ e.
      timer_start-Has_ne announce_receipt_timer announce_interval_timer (pos 0) i t (omega arith)
        q.announces;
  waits = λ e. absurd (false≢true (sym e ∙ h));
}

-- A master starts the timers of the sender.
send-RightTimers :
    (i j k : Interval) (t : Timers)
    → Quiet t
    → RightTimers ptp_master (
        timer_start pdelayreq_interval_timer k
          (timer_start announce_interval_timer j (timer_start sync_interval_timer i t)))
send-RightTimers i j k t q =
    let w =
      timer_start-Has_ne sync_interval_timer announce_receipt_timer (pos 0) i t (omega arith)
        q.waits in
    let v =
      timer_start-Has_ne announce_interval_timer announce_receipt_timer (pos 0) j
        (timer_start sync_interval_timer i t) (omega arith) w in
    let u =
      timer_start-Has_ne pdelayreq_interval_timer announce_receipt_timer (pos 0) k
        (timer_start announce_interval_timer j (timer_start sync_interval_timer i t)) (omega arith)
        v in
    record {
      size = u.size;
      syncs = λ e. absurd (false≢true (sym e));
      announces = λ e. absurd (false≢true (sym e));
      waits = λ e. u;
    }

listen_anew-timers : (e : Engine) → (listen_anew e).timers ≡ e.timers
unfolding listen_anew
listen_anew-timers e =
    if_rule (λ (r : Engine). r.timers ≡ e.timers) (is_state e.clock.port_state ptp_listening)
      (λ p. refl) (λ p. refl)

enter_state-port_state :
    (s : PortState) (e : Engine) → s ≢ ptp_pre_master → (enter_state s e).clock.port_state ≡ s
unfolding enter_state p1
enter_state-port_state ptp_initializing e d = refl
enter_state-port_state ptp_faulty e d = refl
enter_state-port_state ptp_disabled e d = refl
enter_state-port_state ptp_uncalibrated e d = refl
enter_state-port_state ptp_pre_master e d = absurd (d refl)
enter_state-port_state ptp_master e d = refl
enter_state-port_state ptp_listening e d = refl
enter_state-port_state ptp_passive e d = refl
enter_state-port_state ptp_slave e d = refl

enter_state-RightTimers :
    (s : PortState) (e : Engine)
    → Quiet e.timers
    → RightTimers (enter_state s e).clock.port_state (enter_state s e).timers
unfolding enter_state reset_servo slave_anew p1
enter_state-RightTimers ptp_initializing e q = Quiet-RightTimers ptp_initializing e.timers q
enter_state-RightTimers ptp_faulty e q = Quiet-RightTimers ptp_faulty e.timers q
enter_state-RightTimers ptp_disabled e q = Quiet-RightTimers ptp_disabled e.timers q
enter_state-RightTimers ptp_uncalibrated e q = Quiet-RightTimers ptp_uncalibrated e.timers q
enter_state-RightTimers ptp_pre_master e q = Quiet-RightTimers e.clock.port_state e.timers q
enter_state-RightTimers ptp_master e q = send-RightTimers _ _ _ e.timers q
enter_state-RightTimers ptp_listening e q =
    let quiet =
      stop delayreq_interval_timer (
        stop pdelayreq_interval_timer
          (stop announce_interval_timer (stop sync_interval_timer e))) in
    let q' = stop-Quiet delayreq_interval_timer _ (
      stop-Quiet pdelayreq_interval_timer _
        (stop-Quiet announce_interval_timer _ (stop-Quiet sync_interval_timer e.timers q))) in
    wait-RightTimers ptp_listening (listening_timeout (listen_anew quiet).clock)
      (listen_anew quiet).timers refl (subst Quiet (sym (listen_anew-timers quiet)) q')
enter_state-RightTimers ptp_passive e q =
    wait-RightTimers ptp_passive _ _ refl
      (start-Quiet pdelayreq_interval_timer _ e.timers (omega arith) (omega arith) (omega arith) q)
enter_state-RightTimers ptp_slave e q =
    wait-RightTimers ptp_slave _ _ refl
      (start-Quiet operator_messages_timer _ e.timers (omega arith) (omega arith) (omega arith) q)

-- The timers of Sync and Announce run in no state but the master's, and the wait for announces in
-- none but listening, passive and slave: whatever the state and the next one, `toState` keeps this.
-- It ends in the state that it is to enter, but for the pre-master state, which it leaves aside.
pub to_state-RightTimers :
    (s : PortState) (e : Engine)
    → RightTimers e.clock.port_state e.timers
    → RightTimers (to_state s e).clock.port_state (to_state s e).timers
      × (s ≢ ptp_pre_master → (to_state s e).clock.port_state ≡ s)
unfolding to_state
to_state-RightTimers s e r =
    let active = record e { clock = record e.clock { message_activity = true } } in
    let left = leave_state e.clock.port_state active in
    (
      enter_state-RightTimers s left (leave_state-Quiet e.clock.port_state active r),
      enter_state-port_state s left,
    )
