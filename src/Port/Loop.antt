-- ===== src/Port/Loop.antt =====
-- `doInit` and `doState` of esl/sw/protocol.cpp, and a round of its main loop. The displays of a
-- debug build are left out.
use xge_ptpv.Common.{ℕ, Bool, true, false, not, ◌||◌, ◌==◌, if◌then◌else◌}
use xge_ptpv.Common.Int.{ℤ}
use xge_ptpv.Datatypes.{
  PtpClock, MsgHeader, PortState, ptp_initializing, ptp_faulty, ptp_disabled, ptp_listening,
  ptp_pre_master, ptp_master, ptp_passive, ptp_uncalibrated, ptp_slave,
}
use xge_ptpv.Bmc.{m1, init_data, is_state, bmc_exec, slave_only_clock_class}
use xge_ptpv.Timer.{timer_expired}
use xge_ptpv.Servo.Offset.{p2p, e2e}
use xge_ptpv.Msg.{msg_pack_header}
use xge_ptpv.Protocol.{
  Engine, to_state, reset_servo, announce_receipt_timer, operator_messages_timer,
  delayreq_interval_timer, pdelayreq_interval_timer, sync_interval_timer, announce_interval_timer,
}
use xge_ptpv.Port.{Outside, Port, on_clock, on_engine, fault}
use xge_ptpv.Port.Issue.{issue_announce, issue_sync, issue_delay_req, issue_pdelay_req}
use xge_ptpv.Port.Receive.{handle}

-- `if (timerExpired(i, itimer)) ...`
unfoldable pub on_expiry : ℕ → (Port → Port) → Port → Port
on_expiry i f p =
    let r = timer_expired i p.engine.timers in
    let q = on_engine (λ e. record e { timers = r.1 }) p in if r.0 then f q else q

-- The data sets of the clock as the options give them, in the engine.
abbrev pub initialised : Engine → Engine
initialised e = let r = init_data e.opts e.clock in record e { opts = r.0; clock = r.1 }

-- `initTimer`: the ticks that went by are forgotten.
abbrev pub restarted : Engine → Engine
restarted e = record e { timers = record e.timers { elapsed = 0 } }

abbrev pub leading : Engine → Engine
leading e = record e { clock = m1 e.opts e.clock }

-- `doInit`, where `is_connected` is what `netInit` returns.
unfoldable pub do_init : Bool → Port → Port
do_init is_connected p =
    if is_connected
    then (let q = on_engine (λ e. leading (reset_servo (restarted (initialised e)))) p in
        on_engine (to_state ptp_listening)
          (record q { msg_obuf = msg_pack_header q.msg_obuf q.engine.clock }))
    else fault p

-- The states in which announces lead to a state decision.
abbrev pub decides : PortState → Bool
decides ptp_listening = true
decides ptp_passive = true
decides ptp_slave = true
decides ptp_master = true
decides s = false

-- The state decision event.
unfoldable pub decide_state : Port → Port
decide_state p =
    if decides p.engine.clock.port_state
    then (if p.engine.clock.record_update
        then (let c = p.engine.clock in
            let noted = record c { foreign_ds = record c.foreign_ds { record_update = false } } in
            let r = bmc_exec noted.foreign p.engine.opts noted in
            let q = on_clock (λ c'. r.1) p in
            if is_state r.0 r.1.port_state then q else on_engine (to_state r.0) q)
        else p)
    else p

-- The clock may not become a master.
abbrev pub is_slave_only : PtpClock → Bool
is_slave_only c = c.slave_only || c.clock_quality.clock_class == slave_only_clock_class

-- No announce has come in time.
unfoldable pub lose_master : Port → Port
lose_master p =
    let q =
      on_clock
        (λ c. record c {
          foreign_ds = record c.foreign_ds { number_foreign_records = 0; foreign_record_i = 0 };
        })
        p in
    if not (is_slave_only q.engine.clock)
    then on_engine (λ e. to_state ptp_master (leading e)) q
    else on_engine (to_state ptp_listening) q

-- `reset_operator_messages`
abbrev pub reset_operator_messages : Port → Port
reset_operator_messages p =
    on_clock
      (λ c. record c { warned_operator_slow_slewing = false; warned_operator_fast_slewing = false })
      p

module _ (o : Outside) (manage : MsgHeader → ℤ → Bool → Port → Port) where
  -- The request of the delay mechanism in use, when its time has come.
  unfoldable pub request_delay : Port → Port
  request_delay p =
      if p.engine.clock.delay_mechanism == e2e
      then on_expiry delayreq_interval_timer (issue_delay_req o) p
      else if p.engine.clock.delay_mechanism == p2p
      then on_expiry pdelayreq_interval_timer (issue_pdelay_req o) p
      else p

  unfoldable pub request_peer_delay : Port → Port
  request_peer_delay p =
      if p.engine.clock.delay_mechanism == p2p
      then on_expiry pdelayreq_interval_timer (issue_pdelay_req o) p
      else p

  -- The states that wait for a master.
  unfoldable pub do_waiting : Port → Port
  do_waiting p = request_delay (
      on_expiry operator_messages_timer reset_operator_messages
        (on_expiry announce_receipt_timer lose_master (handle o manage p)))

  -- The first announce of a master is sent at once.
  unfoldable pub announce_first : Port → Port
  announce_first p =
      if p.engine.master_has_sent_announce
      then p
      else on_engine (λ e. record e { master_has_sent_announce = true }) (issue_announce o p)

  unfoldable pub do_master : Port → Port
  do_master p =
      let q = handle o manage (
        request_peer_delay (
          on_expiry announce_interval_timer (issue_announce o)
            (on_expiry sync_interval_timer (issue_sync o) (announce_first p)))) in
      if is_slave_only q.engine.clock then on_engine (to_state ptp_listening) q else q

  unfoldable pub do_in : PortState → Port → Port
  do_in ptp_faulty p = on_engine (to_state ptp_initializing) p
  do_in ptp_listening p = do_waiting p
  do_in ptp_uncalibrated p = do_waiting p
  do_in ptp_slave p = do_waiting p
  do_in ptp_passive p = do_waiting p
  do_in ptp_master p = do_master p
  do_in ptp_disabled p = handle o manage p
  do_in ptp_initializing p = p
  do_in ptp_pre_master p = p

  -- `doState`
  unfoldable pub do_state : Port → Port
  do_state p =
      let q = decide_state (on_clock (λ c. record c { message_activity = false }) p) in
      do_in q.engine.clock.port_state q

  -- A round of the loop of `protocolExec`, which ends when `doInit` fails.
  unfoldable pub round : Bool → Port → Port
  round is_connected p =
      if is_state p.engine.clock.port_state ptp_initializing
      then do_init is_connected p
      else do_state p
