-- ===== src/Port/Sync.antt =====
-- `handleSync` and `handleFollowUp` of esl/sw/protocol.cpp.
use xge_ptpv.Common.{◌/◌, ◌%◌, Bool, true, false, ◌==◌, if◌then◌else◌}
use xge_ptpv.Common.Int.{ℤ}
use xge_ptpv.Datatypes.{TimeInternal, MsgHeader, PortState, ptp_slave, ptp_uncalibrated}
use xge_ptpv.Arith.{add_time, integer64_to_internal_time, to_internal_time}
use xge_ptpv.Msg.{msg_unpack_sync, msg_unpack_follow_up}
use xge_ptpv.Servo.{update_clock}
use xge_ptpv.Servo.Offset.{p2p, e2e, update_offset}
use xge_ptpv.Protocol.{Engine, delayreq_interval_timer, pdelayreq_interval_timer, start, pow2}
use xge_ptpv.Port.{
  Outside, Port, on_clock, on_engine, on_exchange, next, receive_time, is_from_parent, if_long,
}

-- The request timer of the delay mechanism in use, on the first Sync from the master.
unfoldable pub arm_requests : Engine → Engine
arm_requests e =
    if e.clock.delay_mechanism == e2e
    then start delayreq_interval_timer (pow2 e.clock.log_min_delay_req_interval) e
    else if e.clock.delay_mechanism == p2p
    then start pdelayreq_interval_timer (pow2 e.clock.log_min_pdelay_req_interval) e
    else e

unfoldable pub first_sync : Port → Port
first_sync p =
    if p.engine.clock.waiting_for_first_sync
    then on_engine arm_requests (on_clock (λ c. record c { waiting_for_first_sync = false }) p)
    else p

-- `(flagField0 & PTP_TWO_STEP) == PTP_TWO_STEP`
abbrev pub is_two_step : MsgHeader → Bool
is_two_step h = h.flag_field0 / 2 % 2 == 1

-- `updateOffset` and `updateClock`, for a Sync that left at `origin`.
unfoldable pub sync_clock : TimeInternal → TimeInternal → Engine → Engine
sync_clock origin correction e =
    let u = update_offset origin e.clock.sync_receive_time e.opts e.servo e.clock correction in
    let r = update_clock u.opts u.servo u.clock in
    record e { opts = u.opts; servo = u.servo; clock = r.0; written = r.1 }

-- A Sync of two steps waits for its Follow_Up.
unfoldable pub await_follow_up : MsgHeader → Port → Port
await_follow_up header p =
    on_exchange
      (λ x. record x {
        waiting_for_follow = true;
        recv_sync_sequence_id = header.sequence_id;
        last_sync_correction_field = integer64_to_internal_time header.correction_field;
      })
      p

-- A Sync of one step is used at once.
unfoldable pub use_sync : MsgHeader → Port → Port
use_sync header p =
    on_engine
      (sync_clock (to_internal_time (msg_unpack_sync p.msg_ibuf).origin_timestamp)
        (integer64_to_internal_time header.correction_field))
      (on_exchange (λ x. record x { waiting_for_follow = false }) p)

-- A Sync from the parent, whose receive time is kept.
unfoldable pub sync_from_parent : Outside → MsgHeader → TimeInternal → Port → Port
sync_from_parent o header t p =
    let q = first_sync p in
    let r =
      next (on_exchange (λ x. record x { sync_receive_time = receive_time o header t q }) q) in
    if is_two_step header then await_follow_up header r else use_sync header r

-- The states that follow a master.
abbrev pub follows : PortState → Bool
follows ptp_uncalibrated = true
follows ptp_slave = true
follows s = false

-- `handleSync`
unfoldable pub handle_sync : Outside → MsgHeader → ℤ → TimeInternal → Bool → Port → Port
handle_sync o header length t is_from_self p =
    if_long 44 length
      (λ q.
        if follows q.engine.clock.port_state
        then (if is_from_self
            then q
            else if is_from_parent header q
            then sync_from_parent o header t q
            else q)
        else q)
      p

-- The Follow_Up of the Sync last received.
unfoldable pub use_follow_up : MsgHeader → Port → Port
use_follow_up header p =
    let c = p.engine.clock in
    on_engine
      (sync_clock (to_internal_time (msg_unpack_follow_up p.msg_ibuf).precise_origin_timestamp) (
        add_time (integer64_to_internal_time header.correction_field) c.last_sync_correction_field))
      (on_exchange (λ x. record x { waiting_for_follow = false }) p)

-- The conditions on a Follow_Up, one after another.
unfoldable pub accepts_follow_up : MsgHeader → Port → Bool
accepts_follow_up header p =
    if is_from_parent header p
    then (if p.engine.clock.waiting_for_follow
        then p.engine.clock.recv_sync_sequence_id == header.sequence_id
        else false)
    else false

-- `handleFollowUp`
unfoldable pub handle_follow_up : MsgHeader → ℤ → Bool → Port → Port
handle_follow_up header length is_from_self p =
    if_long 44 length
      (λ q.
        if is_from_self
        then q
        else (if follows q.engine.clock.port_state
            then (if accepts_follow_up header q then use_follow_up header q else q)
            else q))
      p
