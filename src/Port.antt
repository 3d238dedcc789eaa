-- ===== src/Port.antt =====
-- The port of a clock: the engine with its message buffers, what it has sent, and what it asks of
-- the world outside. esl/sw/protocol.cpp, and the reading of times from the registers of
-- esl/sw/dep/sys.cpp. Each question to the outside is numbered, so that its answers may differ; the
-- waits of SystemC are left out.
pub mod Issue
pub mod Announce
pub mod Sync
pub mod Delay
pub mod Peer
pub mod Receive
pub mod Frame
pub mod Keeps
pub mod Sends
pub mod Heard
pub mod Handlers
pub mod Exchanges
pub mod Rounds
pub mod Deciding
pub mod Safety
pub mod Runs
pub mod Guards
pub mod Ingress
pub mod Request
mod Examples
pub mod Loop
use Prim.Native.Nat.{bit_or}
use xge_ptpv.Common.{
  ℕ, ◌+◌, ◌*◌, ◌/◌, ◌%◌, ◌^◌, Bool, true, false, ◌&&◌, List, ◌∷◌, [], if◌then◌else◌, ◌==◌, get_or,
}
use xge_ptpv.Common.Int.{ℤ, pos, ◌-ℤ◌, int32, int64, ltb_ℤ}
use xge_ptpv.Datatypes.{
  PtpClock, RunTimeOpts, TimeInternal, Timestamp, PortIdentity, MsgHeader, Exchange, PortState,
  ptp_initializing, ptp_faulty, ptp_disabled,
}
use xge_ptpv.Arith.{time, sub_time}
use xge_ptpv.Timer.{Interval}
use xge_ptpv.Foreign.{same_port}
use xge_ptpv.Msg.{Buffer}
use xge_ptpv.Protocol.{Engine, to_state}

pub record TimestampIdentity : Type 0 where
  pub seconds : ℕ
  pub nanoseconds : ℕ
  pub frac_nanoseconds : ℕ
  pub source_port_identity : List ℕ
  pub flag_field : List ℕ
  pub major_sdo_id : ℕ
  pub message_type : ℕ
  pub minor_version_ptp : ℕ
  pub version_ptp : ℕ
  pub sequence_id : ℕ

-- The words of 32 bits that the registers of the clock and of the timestamp unit are read as.
pub record TimestampRegisters : Type 0 where
  pub ts0 : ℕ
  pub ts1 : ℕ
  pub ts2 : ℕ
  pub spf0 : ℕ
  pub spf1 : ℕ
  pub spf2 : ℕ
  pub tvid : ℕ

-- `(data >> shift) & 0xff` and its like.
abbrev pub bits : ℕ → ℕ → ℕ → ℕ
bits shift width word = word / 2 ^ shift % 2 ^ width

-- `getTxTimestampIdentity` and `getRxTimestampIdentity`: the operands of each `|` share no bit.
unfoldable pub timestamp_identity : TimestampRegisters → TimestampIdentity
timestamp_identity r = record {
  seconds = r.ts0 * 2 ^ 16 + bits 16 16 r.ts1;
  nanoseconds = bits 0 16 r.ts1 * 2 ^ 16 + bits 16 16 r.ts2;
  frac_nanoseconds = bits 0 16 r.ts2;
  source_port_identity =
      bits 24 8 r.spf0
      ∷ bits 16 8 r.spf0
      ∷ bits 8 8 r.spf0
      ∷ bits 0 8 r.spf0
      ∷ bits 24 8 r.spf1
      ∷ bits 16 8 r.spf1
      ∷ bits 8 8 r.spf1
      ∷ bits 0 8 r.spf1
      ∷ bits 24 8 r.spf2
      ∷ bits 16 8 r.spf2
      ∷ [];
  flag_field = bits 8 8 r.spf2 ∷ bits 0 8 r.spf2 ∷ [];
  major_sdo_id = bits 28 4 r.tvid;
  message_type = bits 24 4 r.tvid;
  minor_version_ptp = bits 20 4 r.tvid;
  version_ptp = bits 16 4 r.tvid;
  sequence_id = bits 0 16 r.tvid;
}

-- `getRtcValue`, of the three words of the current time.
unfoldable pub rtc_value : ℕ → ℕ → ℕ → TimeInternal
rtc_value tm0 tm1 tm2 =
    time (pos (tm0 * 2 ^ 16 + bits 16 16 tm1))
      (int32 (pos (bits 0 16 tm1 * 2 ^ 16 + bits 16 16 tm2)))

-- The identity that a timestamp names.
abbrev pub stamped_port : TimestampIdentity → PortIdentity
stamped_port t =
    let b : ℕ → ℕ = λ i. get_or t.source_port_identity i 0 in
    record {
      clock_identity = b 0 ∷ b 1 ∷ b 2 ∷ b 3 ∷ b 4 ∷ b 5 ∷ b 6 ∷ b 7 ∷ [];
      port_number = b 8 * 2 ^ 8 + b 9;
    }

-- `compareRxIdentity`
unfoldable pub compare_rx_identity : TimestampIdentity → MsgHeader → Bool
compare_rx_identity t h =
    if t.message_type == h.message_type
    then (if t.sequence_id == h.sequence_id
        then same_port (stamped_port t) h.source_port_identity
        else false)
    else false

-- The time that a message came in, by the header or by the registers, without the latency.
unfoldable pub ingress_time :
    MsgHeader → TimeInternal → RunTimeOpts → TimestampIdentity → TimeInternal
ingress_time header t opts stamp =
    if opts.emb_ingress_time
    then (let ns = int32 (pos header.reserved2) in
        if ltb_ℤ ns t.nanoseconds then time t.seconds ns else time (int64 (t.seconds -ℤ pos 1)) ns)
    else (if compare_rx_identity stamp header
        then time (pos stamp.seconds) (int32 (pos stamp.nanoseconds))
        else t)

-- `getPreciseRxTime`
unfoldable pub get_precise_rx_time :
    MsgHeader → TimeInternal → RunTimeOpts → TimestampIdentity → TimeInternal
get_precise_rx_time header t opts stamp =
    sub_time (ingress_time header t opts stamp) opts.inbound_latency

-- What `netRecv` leaves: its result, the message type, and the octets that it copies.
pub record Receipt : Type 0 where
  pub length : ℤ
  pub message_type : ℕ
  pub octets : Buffer

-- What is asked of the hardware and the host, by the number of the question: what `netSelect` and
-- `netRecv` bring, whether `netSend` sends, the words of the registers, `getRand`, and what a local
-- `Timestamp` holds before it is written.
pub record Outside : Type 0 where
  pub net_select : ℕ → ℤ
  pub net_recv : ℕ → Receipt
  pub net_send : ℕ → Bool
  pub rtc : ℕ → ℕ × ℕ × ℕ
  pub tx_stamp : ℕ → TimestampRegisters
  pub rx_stamp : ℕ → TimestampRegisters
  pub rand : ℕ → Interval
  pub uninitialised : Timestamp

-- A message handed to `netSend`.
pub record Packet : Type 0 where
  pub octets : Buffer
  pub length : ℕ
  pub message_type : ℕ

-- `sent` begins with the latest; `asked` counts the questions so far.
pub record Port : Type 0 where
  pub engine : Engine
  pub msg_ibuf : Buffer
  pub msg_obuf : Buffer
  pub sent : List Packet
  pub asked : ℕ

abbrev pub on_engine : (Engine → Engine) → Port → Port
on_engine f p = record p { engine = f p.engine }

abbrev pub on_clock : (PtpClock → PtpClock) → Port → Port
on_clock f p = record p { engine = record p.engine { clock = f p.engine.clock } }

abbrev pub on_exchange : (Exchange → Exchange) → Port → Port
on_exchange f p = on_clock (λ c. record c { exchange = f c.exchange }) p

-- A question has been asked.
abbrev pub next : Port → Port
next p = record p { asked = p.asked + 1 }

abbrev pub fault : Port → Port
fault p = on_engine (to_state ptp_faulty) p

-- `getRtcValue`
abbrev pub read_rtc : Outside → Port → TimeInternal
read_rtc o p = let r = o.rtc p.asked in rtc_value r.0 r.1 r.2

-- `getPreciseRxTime` of the port's own options.
abbrev pub receive_time : Outside → MsgHeader → TimeInternal → Port → TimeInternal
receive_time o header t p =
    get_precise_rx_time header t p.engine.opts (timestamp_identity (o.rx_stamp p.asked))

-- `!memcmp(parentPortIdentity ...) && portNumber == portNumber`
abbrev pub is_from_parent : MsgHeader → Port → Bool
is_from_parent header p = same_port p.engine.clock.parent_port_identity header.source_port_identity

-- The states in which most handlers disregard what comes in.
abbrev pub is_down : PortState → Bool
is_down ptp_initializing = true
is_down ptp_faulty = true
is_down ptp_disabled = true
is_down s = false

-- A message shorter than its kind is faulty.
abbrev pub if_long : ℕ → ℤ → (Port → Port) → Port → Port
if_long least length f p = if ltb_ℤ length (pos least) then fault p else f p
