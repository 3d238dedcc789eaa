-- ===== src/Port/Exchanges.antt =====
-- The handlers of the delay mechanisms, and the switch on the message type: they leave the state of
-- the port, but for a fault, and its default data set, and the timers stay those of the state.
use xge_ptpv.Common.{◌≢◌, refl, Bool, true, false, ◌&&◌, ◌==◌, if_rule}
use xge_ptpv.Common.Int.{ℤ, pos, ltb_ℤ}
use xge_ptpv.Datatypes.{
  MsgHeader, MsgDelayResp, TimeInternal, ptp_master, ptp_slave, ptp_uncalibrated,
}
use xge_ptpv.Arith.{add_time, integer64_to_internal_time, to_internal_time}
use xge_ptpv.Bmc.{is_state}
use xge_ptpv.Foreign.{same_port}
use xge_ptpv.Msg.{msg_unpack_delay_resp, msg_unpack_pdelay_resp, msg_unpack_pdelay_resp_follow_up}
use xge_ptpv.Servo.Offset.{p2p, e2e}
use xge_ptpv.Protocol.{Engine}
use xge_ptpv.Port.{Outside, Port, on_exchange, next, receive_time}
use xge_ptpv.Port.Delay.{
  answer_delay_req, handle_delay_req, answers, measure_delay, take_interval, delay_resp_to_slave,
  handle_delay_resp, is_last,
}
use xge_ptpv.Port.Peer.{
  answers_peers, takes_follow_ups, answer_pdelay_req, handle_pdelay_req, keep_response,
  use_response, take_response, handle_pdelay_resp, use_response_follow_up, is_follow_up,
  handle_pdelay_resp_follow_up,
}
use xge_ptpv.Port.Sync.{is_two_step}
use xge_ptpv.Port.Receive.{
  MessageType, dispatch, sync, delay_req, pdelay_req, pdelay_resp, follow_up, delay_resp,
  pdelay_resp_follow_up, announce, signaling, management, unrecognized,
}
use xge_ptpv.Port.Frame.{Framed, Frame, Frame-refl, Frame-trans, Frame-clock, Frame-fault}
use xge_ptpv.Port.Keeps.{update_delay-Same, update_peer_delay-Same}
use xge_ptpv.Port.Sends.{issue_delay_resp-Frame, issue_pdelay_resp-Frame}
use xge_ptpv.Port.Heard.{handle_announce-Frame}
use xge_ptpv.Port.Handlers.{handle_sync-Frame, handle_follow_up-Frame}

handle_delay_req-Frame :
    (o : Outside) (h : MsgHeader) (length : ℤ) (t : TimeInternal) (p : Port)
    → Framed p (handle_delay_req o h length t p)
unfolding handle_delay_req answer_delay_req
handle_delay_req-Frame o h length t p =
    if_rule (Framed p) (p.engine.clock.delay_mechanism == e2e)
      (λ e.
        if_rule (Framed p) (ltb_ℤ length (pos 44)) (λ k. Frame-fault p.engine)
          (λ k.
            if_rule (Framed p) (is_state p.engine.clock.port_state ptp_master)
              (λ f.
                Frame-trans p.engine _ _ (Frame-clock p.engine _ refl refl refl)
                  (issue_delay_resp-Frame o _ _ _))
              (λ f. Frame-refl p.engine)))
      (λ e. Frame-refl p.engine)

take_delay-Frame :
    (h : MsgHeader) (r : MsgDelayResp) (e : Engine)
    → Frame e (take_interval h (measure_delay h r e))
unfolding take_interval measure_delay
take_delay-Frame h r e =
    let s = update_delay-Same e.opts _ (integer64_to_internal_time h.correction_field) in
    Frame-clock e _ refl s.state s.default

handle_delay_resp-Frame :
    (h : MsgHeader) (length : ℤ) (p : Port) → Framed p (handle_delay_resp h length p)
unfolding handle_delay_resp delay_resp_to_slave
handle_delay_resp-Frame h length p =
    if_rule (Framed p) (p.engine.clock.delay_mechanism == e2e)
      (λ e.
        if_rule (Framed p) (ltb_ℤ length (pos 54)) (λ k. Frame-fault p.engine)
          (λ k.
            if_rule (Framed p) (is_state p.engine.clock.port_state ptp_slave)
              (λ f.
                if_rule (Framed p) (answers h (msg_unpack_delay_resp p.msg_ibuf) p)
                  (λ g.
                    if_rule (Framed p) p.engine.clock.waiting_for_delay_resp
                      (λ w. take_delay-Frame h _ p.engine) (λ w. Frame-refl p.engine))
                  (λ g. Frame-refl p.engine))
              (λ f. Frame-refl p.engine)))
      (λ e. Frame-refl p.engine)

handle_pdelay_req-Frame :
    (o : Outside) (h : MsgHeader) (length : ℤ) (t : TimeInternal) (own : Bool) (p : Port)
    → Framed p (handle_pdelay_req o h length t own p)
unfolding handle_pdelay_req answer_pdelay_req
handle_pdelay_req-Frame o h length t own p =
    if_rule (Framed p) (p.engine.clock.delay_mechanism == p2p)
      (λ e.
        if_rule (Framed p) (ltb_ℤ length (pos 54)) (λ k. Frame-fault p.engine)
          (λ k.
            if_rule (Framed p) (answers_peers p.engine.clock.port_state)
              (λ f.
                if_rule (Framed p) own (λ g. Frame-refl p.engine)
                  (λ g.
                    Frame-trans p.engine _ _ (Frame-clock p.engine _ refl refl refl)
                      (issue_pdelay_resp-Frame o _ _ _)))
              (λ f. Frame-refl p.engine)))
      (λ e. Frame-refl p.engine)

use_response-Frame : (h : MsgHeader) (t : TimeInternal) (p : Port) → Framed p (use_response h t p)
unfolding use_response
use_response-Frame h t p =
    let q = on_exchange (λ x. record x { pdelay_resp_receive_time = t }) p in
    let s =
      update_peer_delay-Same p.engine.opts q.engine.clock
        (integer64_to_internal_time h.correction_field) false in
    Frame-clock p.engine _ refl s.state s.default

take_response-Frame : (h : MsgHeader) (t : TimeInternal) (p : Port) → Framed p (take_response h t p)
unfolding take_response keep_response
take_response-Frame h t p =
    if_rule (Framed p)
      (is_last p.engine.clock.sent_pdelay_req_sequence_id h
        && same_port p.engine.clock.port_identity
            (msg_unpack_pdelay_resp p.msg_ibuf).requesting_port_identity)
      (λ e.
        if_rule (Framed p) (is_two_step h) (λ f. Frame-clock p.engine _ refl refl refl)
          (λ f. use_response-Frame h t p))
      (λ e. Frame-refl p.engine)

handle_pdelay_resp-Frame :
    (o : Outside) (h : MsgHeader) (length : ℤ) (t : TimeInternal) (p : Port)
    → Framed p (handle_pdelay_resp o h length t p)
unfolding handle_pdelay_resp
handle_pdelay_resp-Frame o h length t p =
    if_rule (Framed p) (p.engine.clock.delay_mechanism == p2p)
      (λ e.
        if_rule (Framed p) (ltb_ℤ length (pos 54)) (λ k. Frame-fault p.engine)
          (λ k.
            if_rule (Framed p) (answers_peers p.engine.clock.port_state)
              (λ f. take_response-Frame h (receive_time o h t p) (next p))
              (λ f. Frame-refl p.engine)))
      (λ e. Frame-refl p.engine)

use_response_follow_up-Frame : (h : MsgHeader) (p : Port) → Framed p (use_response_follow_up h p)
unfolding use_response_follow_up
use_response_follow_up-Frame h p =
    let origin =
      to_internal_time (msg_unpack_pdelay_resp_follow_up p.msg_ibuf).response_origin_timestamp in
    let q = on_exchange (λ x. record x { pdelay_resp_send_time = origin }) p in
    let s =
      update_peer_delay-Same p.engine.opts q.engine.clock
        (add_time (integer64_to_internal_time h.correction_field)
          p.engine.clock.last_pdelay_resp_correction_field)
        true in
    Frame-clock p.engine _ refl s.state s.default

handle_pdelay_resp_follow_up-Frame :
    (h : MsgHeader) (length : ℤ) (p : Port) → Framed p (handle_pdelay_resp_follow_up h length p)
unfolding handle_pdelay_resp_follow_up
handle_pdelay_resp_follow_up-Frame h length p =
    if_rule (Framed p) (p.engine.clock.delay_mechanism == p2p)
      (λ e.
        if_rule (Framed p) (ltb_ℤ length (pos 54)) (λ k. Frame-fault p.engine)
          (λ k.
            if_rule (Framed p) (takes_follow_ups p.engine.clock.port_state)
              (λ f.
                if_rule (Framed p) (is_follow_up h p.engine.clock)
                  (λ g. use_response_follow_up-Frame h p) (λ g. Frame-refl p.engine))
              (λ f. Frame-refl p.engine)))
      (λ e. Frame-refl p.engine)

module _ (o : Outside) (manage : MsgHeader → ℤ → Bool → Port → Port) where
  pub dispatch-Frame :
      (k : MessageType) (h : MsgHeader) (length : ℤ) (t : TimeInternal) (own : Bool) (p : Port)
      → p.engine.clock.port_state ≢ ptp_uncalibrated
      → k ≢ management
      → Framed p (dispatch o manage k h length t own p)
  unfolding dispatch
  dispatch-Frame sync h length t own p u m = handle_sync-Frame o h length t own p
  dispatch-Frame delay_req h length t own p u m = handle_delay_req-Frame o h length t p
  dispatch-Frame pdelay_req h length t own p u m = handle_pdelay_req-Frame o h length t own p
  dispatch-Frame pdelay_resp h length t own p u m = handle_pdelay_resp-Frame o h length t p
  dispatch-Frame follow_up h length t own p u m = handle_follow_up-Frame h length own p
  dispatch-Frame delay_resp h length t own p u m = handle_delay_resp-Frame h length p
  dispatch-Frame pdelay_resp_follow_up h length t own p u m =
      handle_pdelay_resp_follow_up-Frame h length p
  dispatch-Frame announce h length t own p u m = handle_announce-Frame h length own p u
  dispatch-Frame management h length t own p u m = absurd (m refl)
  dispatch-Frame signaling h length t own p u m = Frame-refl p.engine
  dispatch-Frame unrecognized h length t own p u m = Frame-refl p.engine
