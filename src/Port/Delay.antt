-- ===== src/Port/Delay.antt =====
-- `handleDelayReq` and `handleDelayResp` of esl/sw/protocol.cpp: the end-to-end delay mechanism.
use xge_ptpv.Common.{ℕ, ◌+◌, Bool, false, ◌&&◌, ◌==◌, if◌then◌else◌}
use xge_ptpv.Common.Int.{ℤ}
use xge_ptpv.Datatypes.{TimeInternal, MsgHeader, MsgDelayResp, ptp_slave, ptp_master}
use xge_ptpv.Arith.{integer64_to_internal_time, to_internal_time}
use xge_ptpv.Bmc.{is_state}
use xge_ptpv.Foreign.{same_port}
use xge_ptpv.Msg.{msg_unpack_header, msg_unpack_delay_resp}
use xge_ptpv.Servo.Offset.{e2e}
use xge_ptpv.Servo.Paths.{update_delay}
use xge_ptpv.Protocol.{Engine}
use xge_ptpv.Port.{
  Outside, Port, on_engine, on_exchange, next, receive_time, is_from_parent, if_long,
}
use xge_ptpv.Port.Issue.{issue_delay_resp}

-- A master answers with the time that the request came in.
unfoldable pub answer_delay_req : Outside → MsgHeader → TimeInternal → Port → Port
answer_delay_req o header t p =
    let request = msg_unpack_header p.msg_ibuf in
    issue_delay_resp o (receive_time o header t p) request
      (next (on_exchange (λ x. record x { delay_req_header = request }) p))

-- `handleDelayReq`
unfoldable pub handle_delay_req : Outside → MsgHeader → ℤ → TimeInternal → Port → Port
handle_delay_req o header length t p =
    if p.engine.clock.delay_mechanism == e2e
    then if_long 44 length
        (λ q.
          if is_state q.engine.clock.port_state ptp_master
          then answer_delay_req o header t q
          else q)
        p
    else p

-- `sequence - 1 == header->sequenceId`, which C computes on ints: it holds of no header when the
-- next sequence number is 0.
abbrev pub is_last : ℕ → MsgHeader → Bool
is_last sequence header = sequence == header.sequence_id + 1

-- The conditions on a Delay_Resp: it answers this port's last request, and comes from its parent.
unfoldable pub answers : MsgHeader → MsgDelayResp → Port → Bool
answers header resp p =
    same_port p.engine.clock.port_identity resp.requesting_port_identity
    && is_last p.engine.clock.sent_delay_req_sequence_id header
    && is_from_parent header p

-- The delay is updated with the times of the exchange.
unfoldable pub measure_delay : MsgHeader → MsgDelayResp → Engine → Engine
measure_delay header resp e =
    let c = record e.clock {
      exchange = record e.clock.exchange {
        waiting_for_delay_resp = false;
        delay_req_receive_time = to_internal_time resp.receive_timestamp;
      };
    } in
    let r = update_delay e.opts c (integer64_to_internal_time header.correction_field) in
    record e { opts = r.0; clock = r.1 }

-- The interval of the requests, by the master or by the options.
unfoldable pub take_interval : MsgHeader → Engine → Engine
take_interval header e = record e {
  clock = record e.clock {
    waiting_for_first_delayresp = false;
    port_ds = record e.clock.port_ds {
      log_min_delay_req_interval =
          if e.opts.ignore_delayreq_interval_master
          then e.opts.subsequent_delayreq
          else header.log_message_interval;
    };
  };
}

-- The slave's case.
unfoldable pub delay_resp_to_slave : MsgHeader → Port → Port
delay_resp_to_slave header p =
    let resp = msg_unpack_delay_resp p.msg_ibuf in
    if answers header resp p
    then (if p.engine.clock.waiting_for_delay_resp
        then on_engine (λ e. take_interval header (measure_delay header resp e)) p
        else p)
    else p

-- `handleDelayResp`
unfoldable pub handle_delay_resp : MsgHeader → ℤ → Port → Port
handle_delay_resp header length p =
    if p.engine.clock.delay_mechanism == e2e
    then if_long 54 length
        (λ q.
          if is_state q.engine.clock.port_state ptp_slave then delay_resp_to_slave header q else q)
        p
    else p
