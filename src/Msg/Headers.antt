-- ===== src/Msg/Headers.antt =====
-- The header that a receiver reads of each kind of message.
use xge_ptpv.Common.{ℕ, ◌^◌, ◌<◌, ◌≡◌, arith}
use xge_ptpv.Common.Int.{pos, Fits32, int32, int32-residue}
use xge_ptpv.Datatypes.{PtpClock, MsgHeader, Timestamp}
use xge_ptpv.Msg.{
  Buffer, eight, msg_unpack_header, msg_pack_announce, msg_pack_sync, msg_pack_follow_up,
  msg_pack_delay_req, msg_pack_delay_resp, msg_pack_pdelay_req, msg_pack_pdelay_resp,
  msg_pack_pdelay_resp_follow_up,
}
use xge_ptpv.Msg.RoundTrip.{PortFits}

-- What the header takes from the clock is within its widths.
pub record HeaderFits (c : PtpClock) : Type 0 where
  pub version_lt : c.version_number < 2 ^ 4
  pub domain_lt : c.domain_number < 2 ^ 8
  pub port : PortFits c.port_identity

-- A header of this type, length and sequence number, sent by the clock's port in its domain.
pub record IsFrom (c : PtpClock) (type len sequence domain : ℕ) (h : MsgHeader) : Type 0 where
  pub message_type : h.message_type ≡ type
  pub version : h.version_ptp ≡ c.version_number
  pub message_length : h.message_length ≡ len
  pub domain_number : h.domain_number ≡ domain
  pub source : h.source_port_identity ≡ c.port_identity
  pub sequence_id : h.sequence_id ≡ sequence

module _ (buf : Buffer) (t : Timestamp) (c : PtpClock) (h : HeaderFits c) where
  -- Each message that a clock starts is read as one of its kind, of its length and from its port,
  -- with the sequence number next to be used, when that number and what the header takes from the
  -- clock are within their widths.
  pub own_headers :
      c.sent_sync_sequence_id < 2 ^ 16
      → c.sent_announce_sequence_id < 2 ^ 16
      → c.sent_delay_req_sequence_id < 2 ^ 16
      → c.sent_pdelay_req_sequence_id < 2 ^ 16
      → IsFrom c 0x0 44 c.sent_sync_sequence_id c.domain_number
          (msg_unpack_header (msg_pack_sync buf t c))
        × IsFrom c 0x8 44 c.sent_sync_sequence_id c.domain_number
            (msg_unpack_header (msg_pack_follow_up buf t c))
        × IsFrom c 0xb 64 c.sent_announce_sequence_id c.domain_number
            (msg_unpack_header (msg_pack_announce buf c))
        × IsFrom c 0x1 44 c.sent_delay_req_sequence_id c.domain_number
            (msg_unpack_header (msg_pack_delay_req buf t c))
        × IsFrom c 0x2 54 c.sent_pdelay_req_sequence_id c.domain_number
            (msg_unpack_header (msg_pack_pdelay_req buf t c))
  unfolding msg_unpack_header msg_pack_sync msg_pack_follow_up msg_pack_announce msg_pack_delay_req
      msg_pack_pdelay_req
  own_headers s a d p = (
    ground (arith, eight c.port_identity.clock_identity h.port.identity_length),
    ground (arith, eight c.port_identity.clock_identity h.port.identity_length),
    ground (arith, eight c.port_identity.clock_identity h.port.identity_length),
    ground (arith, eight c.port_identity.clock_identity h.port.identity_length),
    ground (arith, eight c.port_identity.clock_identity h.port.identity_length),
  )

-- What a response takes from the request's header is within its widths.
pub record RequestFits (r : MsgHeader) : Type 0 where
  pub domain_lt : r.domain_number < 2 ^ 8
  pub sequence_lt : r.sequence_id < 2 ^ 16
  pub msb_fits : Fits32 r.correction_field.msb
  pub lsb_lt : r.correction_field.lsb < 2 ^ 32

module _ (buf : Buffer) (request : MsgHeader) (t : Timestamp) (c : PtpClock) (h : HeaderFits c)
    (r : RequestFits request) where
  -- The answer to a request is read as one of its kind from the answering port, with the sequence
  -- number of the request, but for the follow-up, which has that of the Pdelay_Req that the clock
  -- keeps; Delay_Resp and the follow-up return the request's correction field, Pdelay_Resp has none. What the headers take from the clock and the request is within its widths.
  pub response_headers :
      c.pdelay_req_header.sequence_id < 2 ^ 16
      → IsFrom c 0x9 54 request.sequence_id request.domain_number
          (msg_unpack_header (msg_pack_delay_resp buf request t c))
        × IsFrom c 0x3 54 request.sequence_id request.domain_number
            (msg_unpack_header (msg_pack_pdelay_resp buf request t c))
        × IsFrom c 0xa 54 c.pdelay_req_header.sequence_id c.domain_number
            (msg_unpack_header (msg_pack_pdelay_resp_follow_up buf request t c))
        × ((msg_unpack_header (msg_pack_delay_resp buf request t c)).correction_field
            ≡ request.correction_field)
        × ((msg_unpack_header (msg_pack_pdelay_resp_follow_up buf request t c)).correction_field
            ≡ request.correction_field)
        × ((msg_unpack_header (msg_pack_pdelay_resp buf request t c)).correction_field
            ≡ record { lsb = 0; msb = pos 0 })
  unfolding msg_unpack_header msg_pack_delay_resp msg_pack_pdelay_resp
      msg_pack_pdelay_resp_follow_up int32
  response_headers s = (
    ground (arith, eight c.port_identity.clock_identity h.port.identity_length),
    ground (arith, eight c.port_identity.clock_identity h.port.identity_length),
    ground (arith, eight c.port_identity.clock_identity h.port.identity_length),
    ground (arith, int32-residue request.correction_field.msb r.msb_fits),
    ground (arith, int32-residue request.correction_field.msb r.msb_fits),
    ground (arith),
  )
