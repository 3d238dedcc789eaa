-- ===== src/Port/Receive.antt =====
-- `handle` of esl/sw/protocol.cpp: what comes in, checked and handed to its handler. The packet
-- displays are left out. `handleManagement` is the parameter `manage`, since the packing of its
-- answers is not modelled as a whole.
use xge_ptpv.Common.{ℕ, Bool, true, ◌==◌, ltb, if◌then◌else◌}
use xge_ptpv.Common.Int.{ℤ, pos_part}
use xge_ptpv.Datatypes.{TimeInternal, MsgHeader, PtpClock}
use xge_ptpv.Arith.{clear_time, is_negative}
use xge_ptpv.Servo.{is_zero}
use xge_ptpv.Foreign.{same_port}
use xge_ptpv.Msg.{Buffer, msg_unpack_header}
use xge_ptpv.Port.{Outside, Port, Receipt, on_clock, next, fault, read_rtc, if_long}
use xge_ptpv.Port.Announce.{handle_announce}
use xge_ptpv.Port.Sync.{handle_sync, handle_follow_up}
use xge_ptpv.Port.Delay.{handle_delay_req, handle_delay_resp}
use xge_ptpv.Port.Peer.{handle_pdelay_req, handle_pdelay_resp, handle_pdelay_resp_follow_up}

-- `memcpy(msb_buf, pHead, messageLength)`
abbrev pub received : Receipt → Buffer → Buffer
received r b j = if ltb j (pos_part r.length) then r.octets j else b j

abbrev pub is_own : MsgHeader → PtpClock → Bool
is_own header c = same_port c.port_identity header.source_port_identity

-- PTP Messages
pub data MessageType : Type 0 where
  sync delay_req pdelay_req pdelay_resp follow_up delay_resp pdelay_resp_follow_up : MessageType
  announce signaling management unrecognized : MessageType

unfoldable pub message_type_of : ℕ → MessageType
message_type_of n =
    if n == 0x0
    then sync
    else if n == 0x1
    then delay_req
    else if n == 0x2
    then pdelay_req
    else if n == 0x3
    then pdelay_resp
    else if n == 0x8
    then follow_up
    else if n == 0x9
    then delay_resp
    else if n == 0xa
    then pdelay_resp_follow_up
    else if n == 0xb
    then announce
    else if n == 0xc
    then signaling
    else if n == 0xd
    then management
    else unrecognized

module _ (o : Outside) (manage : MsgHeader → ℤ → Bool → Port → Port) where
  -- The switch on the message type. `handleSignaling` is empty.
  unfoldable pub dispatch : MessageType → MsgHeader → ℤ → TimeInternal → Bool → Port → Port
  dispatch sync header length t is_from_self p = handle_sync o header length t is_from_self p
  dispatch delay_req header length t is_from_self p = handle_delay_req o header length t p
  dispatch pdelay_req header length t is_from_self p =
      handle_pdelay_req o header length t is_from_self p
  dispatch pdelay_resp header length t is_from_self p = handle_pdelay_resp o header length t p
  dispatch follow_up header length t is_from_self p = handle_follow_up header length is_from_self p
  dispatch delay_resp header length t is_from_self p = handle_delay_resp header length p
  dispatch pdelay_resp_follow_up header length t is_from_self p =
      handle_pdelay_resp_follow_up header length p
  dispatch announce header length t is_from_self p = handle_announce header length is_from_self p
  dispatch management header length t is_from_self p = manage header length is_from_self p
  dispatch signaling header length t is_from_self p = p
  dispatch unrecognized header length t is_from_self p = p

  -- A message long enough to have a header: other versions and domains are ignored.
  unfoldable pub accept : ℤ → TimeInternal → Port → Port
  accept length t p =
      let header = msg_unpack_header p.msg_ibuf in
      let q = on_clock (λ c. record c { msg_tmp_header = header }) p in
      let c = q.engine.clock in
      if header.version_ptp == c.version_number
      then (if header.domain_number == c.domain_number
          then dispatch (message_type_of header.message_type) header length t (is_own header c) q
          else q)
      else q

  -- What `netRecv` brings. The clock is read for an event message.
  unfoldable pub take : Port → Port
  take p =
      let r = o.net_recv p.asked in
      let q = next (record p { msg_ibuf = received r p.msg_ibuf }) in
      let is_event = ltb r.message_type 8 in
      let t = if is_event then read_rtc o q else clear_time in
      let active =
        on_clock (λ c. record c { message_activity = true }) (if is_event then next q else q) in
      if is_negative r.length
      then fault q
      else (if is_zero r.length then q else if_long 34 r.length (accept r.length t) active)

  -- `handle`: `netSelect` is asked unless there is activity.
  unfoldable pub handle : Port → Port
  handle p =
      if p.engine.clock.message_activity
      then take p
      else (let ret = o.net_select p.asked in
          if is_negative ret then fault (next p) else if is_zero ret then next p else take (next p))
