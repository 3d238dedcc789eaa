-- ===== src/Port/Request.antt =====
-- A delay request, its answer, and what becomes of it at the port that asked.
use xge_ptpv.Common.{
  ℕ, ◌-◌, ◌↔◌, ◌^◌, ◌<◌, ◌≡◌, ◌≢◌, refl, sym, ◌∙◌, ap, subst, Bool, true, ◌&&◌, List, [], ◌∷◌,
  if_rule, if_true, length, arith,
}
use xge_ptpv.Common.Int.{int32}
use xge_ptpv.Datatypes.{PtpClock, MsgHeader, MsgDelayResp, TimeInternal, Timestamp, PortIdentity}
use xge_ptpv.Arith.{from_internal_time}
use xge_ptpv.Foreign.{same_port}
use xge_ptpv.Foreign.Search.{same_port_iff}
use xge_ptpv.Msg.{
  Buffer, eight, msg_unpack_header, msg_unpack_delay_resp, msg_pack_delay_req, msg_pack_delay_resp,
}
use xge_ptpv.Msg.RoundTrip.{PortFits, TimestampFits, responses}
use xge_ptpv.Msg.Headers.{HeaderFits, RequestFits, IsFrom}
use xge_ptpv.Port.{Outside, Port, Packet, next, receive_time}
use xge_ptpv.Port.Issue.{
  null_timestamp, succ16, send, transmit, stamp_delay_req, rearm_delay_req, issue_delay_req,
  issue_delay_resp, is_stamp_of, sent_stamp,
}
use xge_ptpv.Port.Delay.{answer_delay_req, answers, is_last}

abbrev first : List Packet → Buffer
first [] = λ i. 0
first (q ∷ qs) = q.octets

-- The octets sent last.
abbrev pub latest : Port → Buffer
latest p = first p.sent

-- What a timestamp leaves as it is.
record Stamped (p q : Port) : Type 0 where
  identity : q.engine.clock.port_identity ≡ p.engine.clock.port_identity
  parent : q.engine.clock.parent_port_identity ≡ p.engine.clock.parent_port_identity
  sequence : q.engine.clock.sent_delay_req_sequence_id ≡ p.engine.clock.sent_delay_req_sequence_id
  sent : q.sent ≡ p.sent

stamp_delay_req-Stamped : (o : Outside) (p : Port) → Stamped p (stamp_delay_req o p)
unfolding stamp_delay_req
stamp_delay_req-Stamped o p =
    if_rule (Stamped p) (is_stamp_of 0x1 p.engine.clock.sent_delay_req_sequence_id (sent_stamp o p))
      (λ e. record { identity = refl; parent = refl; sequence = refl; sent = refl })
      (λ e. record { identity = refl; parent = refl; sequence = refl; sent = refl })

-- What a request leaves at the port that sends it.
record Asked (p q : Port) : Type 0 where
  identity : q.engine.clock.port_identity ≡ p.engine.clock.port_identity
  parent : q.engine.clock.parent_port_identity ≡ p.engine.clock.parent_port_identity
  sequence :
      q.engine.clock.sent_delay_req_sequence_id ≡ succ16 p.engine.clock.sent_delay_req_sequence_id
  octets : latest q ≡ msg_pack_delay_req p.msg_obuf null_timestamp p.engine.clock

issue_delay_req-Asked :
    (o : Outside) (p : Port) → o.net_send p.asked ≡ true → Asked p (issue_delay_req o p)
unfolding issue_delay_req transmit send rearm_delay_req
issue_delay_req-Asked o p s =
    let q = next (send 44 0x1 (msg_pack_delay_req p.msg_obuf null_timestamp p.engine.clock) p) in
    let k = stamp_delay_req-Stamped o q in
    subst (Asked p) (sym (if_true (o.net_send p.asked) _ _ s)) (record {
      identity = k.identity;
      parent = k.parent;
      sequence = ap succ16 k.sequence;
      octets = ap (λ l. first l) k.sent;
    })

latest-issue_delay_resp :
    (o : Outside) (h : MsgHeader) (t : TimeInternal) (p : Port)
    → latest (issue_delay_resp o t h p)
      ≡ msg_pack_delay_resp p.msg_obuf h (from_internal_time t o.uninitialised) p.engine.clock
unfolding issue_delay_resp transmit send
latest-issue_delay_resp o h t p =
    let b =
      msg_pack_delay_resp p.msg_obuf h (from_internal_time t o.uninitialised) p.engine.clock in
    if_rule (λ q. latest q ≡ b) (o.net_send p.asked) (λ e. refl) (λ e. refl)

-- What is read of a request is within its widths.
delay_req-RequestFits :
    (buf : Buffer) (t : Timestamp) (c : PtpClock)
    → HeaderFits c
    → c.sent_delay_req_sequence_id < 2 ^ 16
    → RequestFits (msg_unpack_header (msg_pack_delay_req buf t c))
unfolding msg_unpack_header msg_pack_delay_req int32
delay_req-RequestFits buf t c h s = record {
  domain_lt = ground arith;
  sequence_lt = ground arith;
  msb_fits = ground arith;
  lsb_lt = ground arith;
}

-- The last sequence number is that of the header unless it has wrapped around.
is_last_iff :
    (n : ℕ) (h : MsgHeader)
    → n < 2 ^ 16
    → h.sequence_id ≡ n
    → (is_last (succ16 n) h ≡ true) ↔ (n ≢ 2 ^ 16 - 1)
is_last_iff n h l e = ground arith

and_mid : (a b c : Bool) → a ≡ true → c ≡ true → (a && b && c) ≡ b
and_mid a b c h k = ground arith

same_port_eq : (x y : PortIdentity) → x ≡ y → same_port x y ≡ true
same_port_eq x y e = (same_port_iff x y (ap (λ i. length i.clock_identity) e)).1 e

-- The headers of a request and of its answer, among those of `Msg.Headers`.
delay_req-IsFrom :
    (buf : Buffer) (t : Timestamp) (c : PtpClock)
    → HeaderFits c
    → c.sent_delay_req_sequence_id < 2 ^ 16
    → IsFrom c 0x1 44 c.sent_delay_req_sequence_id c.domain_number
        (msg_unpack_header (msg_pack_delay_req buf t c))
unfolding msg_unpack_header msg_pack_delay_req
delay_req-IsFrom buf t c h s =
    ground (arith, eight c.port_identity.clock_identity h.port.identity_length)

delay_resp-IsFrom :
    (buf : Buffer) (r : MsgHeader) (t : Timestamp) (c : PtpClock)
    → HeaderFits c
    → RequestFits r
    → IsFrom c 0x9 54 r.sequence_id r.domain_number
        (msg_unpack_header (msg_pack_delay_resp buf r t c))
unfolding msg_unpack_header msg_pack_delay_resp
delay_resp-IsFrom buf r t c h f =
    ground (arith, eight c.port_identity.clock_identity h.port.identity_length)

-- The conditions on an answer come down to its sequence number.
answers-is_last :
    (h : MsgHeader) (resp : MsgDelayResp) (p : Port)
    → resp.requesting_port_identity ≡ p.engine.clock.port_identity
    → h.source_port_identity ≡ p.engine.clock.parent_port_identity
    → answers h resp p ≡ is_last p.engine.clock.sent_delay_req_sequence_id h
unfolding answers
answers-is_last h resp p e f =
    and_mid _ _ _ (same_port_eq p.engine.clock.port_identity resp.requesting_port_identity (sym e))
      (same_port_eq p.engine.clock.parent_port_identity h.source_port_identity (sym f))

-- The port that answers, having received the octets of a request.
abbrev pub given : Buffer → Port → Port
given buf q = record q { msg_ibuf = buf }

module _ (o o' : Outside) (p q : Port) (header : MsgHeader) (t : TimeInternal) where
  -- The port that has asked, and the octets of the answer.
  abbrev pub asking : Port
  asking = issue_delay_req o p

  abbrev pub answer : Buffer
  answer = latest (answer_delay_req o' header t (given (latest asking) q))

  -- The time that the answer carries.
  abbrev pub answered : Timestamp
  answered =
      from_internal_time (receive_time o' header t (given (latest asking) q)) o'.uninitialised

  abbrev request : MsgHeader
  request = msg_unpack_header (latest asking)

  abbrev noted : PtpClock
  noted = record q.engine.clock {
    exchange = record q.engine.clock.exchange { delay_req_header = request };
  }

  answer-octets : answer ≡ msg_pack_delay_resp q.msg_obuf request answered noted
  unfolding answer_delay_req
  answer-octets = latest-issue_delay_resp o' request _ _

  -- A port sends a Delay_Req, and its parent answers the octets that were sent: the answer carries
  -- the time that the parent found, and the port takes it for the answer to its request exactly
  -- when the sequence number of the request was not 65535. The sending succeeds, and what the
  -- headers and the timestamp take is within its widths.
  pub answers-answer :
      HeaderFits p.engine.clock
      → HeaderFits q.engine.clock
      → p.engine.clock.sent_delay_req_sequence_id < 2 ^ 16
      → TimestampFits answered
      → o.net_send p.asked ≡ true
      → p.engine.clock.parent_port_identity ≡ q.engine.clock.port_identity
      → ((answers (msg_unpack_header answer) (msg_unpack_delay_resp answer) asking ≡ true)
          ↔ (p.engine.clock.sent_delay_req_sequence_id ≢ 2 ^ 16 - 1))
        × ((msg_unpack_delay_resp answer).receive_timestamp ≡ answered)
  answers-answer hp hq n ht s parent =
      let a = issue_delay_req-Asked o p s in
      let n₀ = p.engine.clock.sent_delay_req_sequence_id in
      let asked =
        subst
          (λ b. IsFrom p.engine.clock 0x1 44 n₀ p.engine.clock.domain_number (msg_unpack_header b))
          (sym a.octets) (delay_req-IsFrom p.msg_obuf null_timestamp p.engine.clock hp n) in
      let fits =
        subst (λ b. RequestFits (msg_unpack_header b)) (sym a.octets)
          (delay_req-RequestFits p.msg_obuf null_timestamp p.engine.clock hp n) in
      let noted-HeaderFits : HeaderFits noted = record {
        version_lt = hq.version_lt;
        domain_lt = hq.domain_lt;
        port = hq.port;
      } in
      let head =
        subst
          (λ b. IsFrom noted 0x9 54 request.sequence_id request.domain_number (msg_unpack_header b))
          (sym answer-octets)
          (delay_resp-IsFrom q.msg_obuf request answered noted noted-HeaderFits fits) in
      let body =
        ap msg_unpack_delay_resp answer-octets
        ∙ (responses q.msg_obuf request answered noted ht
            (subst PortFits (sym asked.source) hp.port)).0 in
      let resp = msg_unpack_delay_resp answer in
      let who = ap (λ r. r.requesting_port_identity) body ∙ asked.source ∙ sym a.identity in
      let by = head.source ∙ sym parent ∙ sym a.parent in
      let only = answers-is_last (msg_unpack_header answer) resp asking who by in
      let last =
        is_last_iff n₀ (msg_unpack_header answer) n (head.sequence_id ∙ asked.sequence_id) in
      let all = only ∙ ap (λ k. is_last k (msg_unpack_header answer)) a.sequence in
      ((λ e. last.0 (sym all ∙ e), λ d. all ∙ last.1 d), ap (λ r. r.receive_timestamp) body)
