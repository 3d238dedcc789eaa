-- ===== src/Port/Issue.antt =====
-- The messages that a port sends: the issue functions of esl/sw/protocol.cpp. A message is packed
-- into `msgObuf` over what the one before left there.
use xge_ptpv.Common.{ℕ, ◌+◌, ◌%◌, ◌^◌, Bool, true, ◌&&◌, ◌∷◌, if◌then◌else◌, ◌==◌}
use xge_ptpv.Common.Int.{pos, int32}
use xge_ptpv.Datatypes.{TimeInternal, Timestamp, MsgHeader}
use xge_ptpv.Arith.{time, add_time, from_internal_time}
use xge_ptpv.Timer.{timer_start_random}
use xge_ptpv.Msg.{
  Buffer, msg_pack_announce, msg_pack_sync, msg_pack_follow_up, msg_pack_delay_req,
  msg_pack_pdelay_req, msg_pack_delay_resp, msg_pack_pdelay_resp, msg_pack_pdelay_resp_follow_up,
}
use xge_ptpv.Protocol.{delayreq_interval_timer, pow2}
use xge_ptpv.Port.{
  Outside, Port, TimestampIdentity, timestamp_identity, on_engine, on_exchange, next, fault,
  read_rtc,
}

-- The buffer is packed and handed to `netSend`.
unfoldable pub send : ℕ → ℕ → Buffer → Port → Port
send len type buf p = record p {
  msg_obuf = buf;
  sent = record { octets = buf; length = len; message_type = type } ∷ p.sent;
}

-- A sequence number, of 16 bits.
abbrev pub succ16 : ℕ → ℕ
succ16 n = (n + 1) % 2 ^ 16

-- A timestamp's time with the outbound latency.
abbrev pub egress_time : TimestampIdentity → Port → TimeInternal
egress_time t p =
    add_time (time (pos t.seconds) (int32 (pos t.nanoseconds))) p.engine.opts.outbound_latency

-- The timestamp of the message just sent.
abbrev pub sent_stamp : Outside → Port → TimestampIdentity
sent_stamp o p = timestamp_identity (o.tx_stamp p.asked)

abbrev pub is_stamp_of : ℕ → ℕ → TimestampIdentity → Bool
is_stamp_of type sequence t = t.message_type == type && t.sequence_id == sequence

abbrev pub null_timestamp : Timestamp
null_timestamp = record { seconds_field = record { lsb = 0; msb = 0 }; nanoseconds_field = 0 }

module _ (o : Outside) where
  -- A message sent: what follows a success, or the faulty state.
  unfoldable pub transmit : ℕ → ℕ → Buffer → (Port → Port) → Port → Port
  transmit len type buf success p =
      let tried = next (send len type buf p) in
      if o.net_send p.asked then success tried else fault tried

  unfoldable pub issue_announce : Port → Port
  issue_announce p =
      transmit 64 0xb (msg_pack_announce p.msg_obuf p.engine.clock)
        (on_exchange
          λ x. record x { sent_announce_sequence_id = succ16 x.sent_announce_sequence_id })
        p

  unfoldable pub issue_followup : TimeInternal → Port → Port
  issue_followup t p =
      transmit 44 0x8
        (msg_pack_follow_up p.msg_obuf (from_internal_time t o.uninitialised) p.engine.clock)
        (λ q. q) p

  -- A two-step clock reads the timestamp of its Sync, and follows up when it is that one's.
  unfoldable pub follow_sync : Port → Port
  follow_sync p =
      let t = sent_stamp o p in
      if p.engine.clock.two_step_flag
      then (if is_stamp_of 0x0 p.engine.clock.sent_sync_sequence_id t
          then issue_followup (egress_time t p) (next p)
          else next p)
      else p

  unfoldable pub issue_sync : Port → Port
  issue_sync p =
      let q = next p in
      transmit 44 0x0
        (msg_pack_sync p.msg_obuf (from_internal_time (read_rtc o p) o.uninitialised)
          p.engine.clock)
        (λ r.
          on_exchange (λ x. record x { sent_sync_sequence_id = succ16 x.sent_sync_sequence_id })
            (follow_sync r))
        q

  -- The timestamp of a Delay_Req, when it is that one's.
  unfoldable pub stamp_delay_req : Port → Port
  stamp_delay_req p =
      let t = sent_stamp o p in
      if is_stamp_of 0x1 p.engine.clock.sent_delay_req_sequence_id t
      then on_exchange
          (λ x. record x { waiting_for_delay_resp = true; delay_req_send_time = egress_time t p })
          (next p)
      else next p

  -- The timer of the next Delay_Req, at random.
  unfoldable pub rearm_delay_req : Port → Port
  rearm_delay_req p = next (
      on_engine
        (λ e. record e {
          timers =
              timer_start_random delayreq_interval_timer (pow2 e.clock.log_min_delay_req_interval)
                (o.rand p.asked) e.timers;
        })
        p)

  unfoldable pub issue_delay_req : Port → Port
  issue_delay_req p =
      transmit 44 0x1 (msg_pack_delay_req p.msg_obuf null_timestamp p.engine.clock)
        (λ q. rearm_delay_req (
          on_exchange
            (λ x. record x { sent_delay_req_sequence_id = succ16 x.sent_delay_req_sequence_id })
            (stamp_delay_req q)))
        p

  -- The timestamp of a Pdelay_Req, when it is that one's.
  unfoldable pub stamp_pdelay_req : Port → Port
  stamp_pdelay_req p =
      let t = sent_stamp o p in
      if is_stamp_of 0x2 p.engine.clock.sent_pdelay_req_sequence_id t
      then on_exchange (λ x. record x { pdelay_req_send_time = egress_time t p }) (next p)
      else next p

  unfoldable pub issue_pdelay_req : Port → Port
  issue_pdelay_req p =
      transmit 54 0x2 (msg_pack_pdelay_req p.msg_obuf null_timestamp p.engine.clock)
        (λ q.
          on_exchange
            (λ x. record x { sent_pdelay_req_sequence_id = succ16 x.sent_pdelay_req_sequence_id })
            (stamp_pdelay_req q))
        p

  unfoldable pub issue_pdelay_resp_follow_up : TimeInternal → MsgHeader → Port → Port
  issue_pdelay_resp_follow_up t header p =
      transmit 54 0xa
        (msg_pack_pdelay_resp_follow_up p.msg_obuf header (from_internal_time t o.uninitialised)
          p.engine.clock)
        (λ q. q) p

  -- A two-step clock follows its Pdelay_Resp up, for the request whose header it keeps.
  unfoldable pub follow_pdelay_resp : MsgHeader → Port → Port
  follow_pdelay_resp header p =
      let t = sent_stamp o p in
      if p.engine.clock.two_step_flag
      then (if is_stamp_of 0x3 header.sequence_id t
          then issue_pdelay_resp_follow_up (egress_time t p) p.engine.clock.pdelay_req_header
              (next p)
          else next p)
      else p

  unfoldable pub issue_pdelay_resp : TimeInternal → MsgHeader → Port → Port
  issue_pdelay_resp t header p =
      transmit 54 0x3
        (msg_pack_pdelay_resp p.msg_obuf header (from_internal_time t o.uninitialised)
          p.engine.clock)
        (follow_pdelay_resp header) p

  unfoldable pub issue_delay_resp : TimeInternal → MsgHeader → Port → Port
  issue_delay_resp t header p =
      transmit 54 0x9
        (msg_pack_delay_resp p.msg_obuf header (from_internal_time t o.uninitialised)
          p.engine.clock)
        (λ q. q) p
