-- ===== src/Port/Peer.antt =====
-- `handlePDelayReq`, `handlePDelayResp` and `handlePDelayRespFollowUp` of esl/sw/protocol.cpp: the
-- peer delay mechanism.
use xge_ptpv.Common.{◌^◌, Bool, true, false, ◌&&◌, ◌==◌, if◌then◌else◌}
use xge_ptpv.Common.Int.{ℤ, residue}
use xge_ptpv.Datatypes.{
  PtpClock, TimeInternal, MsgHeader, MsgPDelayResp, PortState, ptp_slave, ptp_master, ptp_passive,
}
use xge_ptpv.Arith.{clear_time, add_time, integer64_to_internal_time, to_internal_time}
use xge_ptpv.Foreign.{same_port}
use xge_ptpv.Msg.{msg_unpack_header, msg_unpack_pdelay_resp, msg_unpack_pdelay_resp_follow_up}
use xge_ptpv.Servo.Offset.{p2p}
use xge_ptpv.Servo.Paths.{update_peer_delay}
use xge_ptpv.Port.{Outside, Port, on_clock, on_exchange, next, receive_time, if_long}
use xge_ptpv.Port.Issue.{issue_pdelay_resp}
use xge_ptpv.Port.Delay.{is_last}
use xge_ptpv.Port.Sync.{is_two_step}

-- The states that answer, and those that take a follow-up.
abbrev pub answers_peers : PortState → Bool
answers_peers ptp_slave = true
answers_peers ptp_master = true
answers_peers ptp_passive = true
answers_peers s = false

abbrev pub takes_follow_ups : PortState → Bool
takes_follow_ups ptp_slave = true
takes_follow_ups ptp_master = true
takes_follow_ups s = false

-- The answer to a request that came in at `t`: the clock of one step puts the nanoseconds into the
-- header, which is the port's, and sends no time.
unfoldable pub answer_pdelay_req : Outside → MsgHeader → TimeInternal → Port → Port
answer_pdelay_req o header t p =
    let one_step = p.engine.opts.one_step in
    let answered = record header {
      reserved2 = if one_step then residue (2 ^ 32) t.nanoseconds else 0;
    } in
    issue_pdelay_resp o (if one_step then clear_time else t) answered (
      on_clock
        (λ c. record c {
          msg_tmp_header = answered;
          exchange = record c.exchange { pdelay_req_header = msg_unpack_header p.msg_ibuf };
        })
        p)

-- `handlePDelayReq`
unfoldable pub handle_pdelay_req : Outside → MsgHeader → ℤ → TimeInternal → Bool → Port → Port
handle_pdelay_req o header length t is_from_self p =
    if p.engine.clock.delay_mechanism == p2p
    then if_long 54 length
        (λ q.
          if answers_peers q.engine.clock.port_state
          then (if is_from_self
              then q
              else answer_pdelay_req o header (receive_time o header t q) (next q))
          else q)
        p
    else p

-- The times of a response of two steps, and its sequence number.
unfoldable pub keep_response : MsgHeader → MsgPDelayResp → TimeInternal → Port → Port
keep_response header resp t p =
    on_exchange
      (λ x. record x {
        pdelay_resp_receive_time = t;
        pdelay_req_receive_time = to_internal_time resp.request_receipt_timestamp;
        last_pdelay_resp_correction_field = integer64_to_internal_time header.correction_field;
        recv_pdelay_resp_sequence_id = header.sequence_id;
      })
      p

-- A response of one step measures the delay at once.
unfoldable pub use_response : MsgHeader → TimeInternal → Port → Port
use_response header t p =
    let q = on_exchange (λ x. record x { pdelay_resp_receive_time = t }) p in
    on_exchange (λ x. record x { recv_pdelay_resp_sequence_id = header.sequence_id })
      (on_clock
        (λ c.
          update_peer_delay q.engine.opts c (integer64_to_internal_time header.correction_field)
            false)
        q)

-- A response that came in at `t`, if it answers this port's last request.
unfoldable pub take_response : MsgHeader → TimeInternal → Port → Port
take_response header t p =
    let resp = msg_unpack_pdelay_resp p.msg_ibuf in
    if is_last p.engine.clock.sent_pdelay_req_sequence_id header
      && same_port p.engine.clock.port_identity resp.requesting_port_identity
    then (if is_two_step header then keep_response header resp t p else use_response header t p)
    else p

-- `handlePDelayResp`
unfoldable pub handle_pdelay_resp : Outside → MsgHeader → ℤ → TimeInternal → Port → Port
handle_pdelay_resp o header length t p =
    if p.engine.clock.delay_mechanism == p2p
    then if_long 54 length
        (λ q.
          if answers_peers q.engine.clock.port_state
          then take_response header (receive_time o header t q) (next q)
          else q)
        p
    else p

-- The last time of the exchange, with which the delay is measured.
unfoldable pub use_response_follow_up : MsgHeader → Port → Port
use_response_follow_up header p =
    let origin =
      to_internal_time (msg_unpack_pdelay_resp_follow_up p.msg_ibuf).response_origin_timestamp in
    let correction =
      add_time (integer64_to_internal_time header.correction_field)
        p.engine.clock.last_pdelay_resp_correction_field in
    on_clock (λ c. update_peer_delay p.engine.opts c correction true)
      (on_exchange (λ x. record x { pdelay_resp_send_time = origin }) p)

-- The condition on a follow-up: it is of the last request, and of the response received.
unfoldable pub is_follow_up : MsgHeader → PtpClock → Bool
is_follow_up header c =
    is_last c.sent_pdelay_req_sequence_id header
    && header.sequence_id == c.recv_pdelay_resp_sequence_id

-- `handlePDelayRespFollowUp`
unfoldable pub handle_pdelay_resp_follow_up : MsgHeader → ℤ → Port → Port
handle_pdelay_resp_follow_up header length p =
    if p.engine.clock.delay_mechanism == p2p
    then if_long 54 length
        (λ q.
          if takes_follow_ups q.engine.clock.port_state
          then (if is_follow_up header q.engine.clock then use_response_follow_up header q else q)
          else q)
        p
    else p
