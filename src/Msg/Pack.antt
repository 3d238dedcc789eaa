-- ===== src/Msg/Pack.antt =====
-- The packing functions. Each starts from `msgPackHeader` on the same buffer.
use Prim.Native.Nat.{bit_and, bit_or}
use xge_ptpv.Common.{ℕ, ◌+◌, if◌then◌else◌, ◌^◌}
use xge_ptpv.Common.Int.{residue}
use xge_ptpv.Datatypes.{PtpClock, MsgHeader, Timestamp}
use xge_ptpv.Msg.Octets.{Buffer, ◌▷◌, put8, put16, put32, put_int8, clear, put_identity}

abbrev ptp_two_step : ℕ
ptp_two_step = 0x02

unfoldable pub msg_pack_header : Buffer → PtpClock → Buffer
unfolding put8 put16 clear put_identity
msg_pack_header buf c =
    buf
    ▷ put8 0 0x10
    ▷ put8 1 c.version_number
    ▷ put8 4 c.domain_number
    ▷ (if c.two_step_flag then put8 6 ptp_two_step else λ b. b)
    ▷ clear 8 8
    ▷ put_identity 20 c.port_identity.clock_identity
    ▷ put16 28 c.port_identity.port_number
    ▷ put8 33 0x7f

-- The two statements on octet 0: the low nibble becomes the message type.
unfoldable pub put_type : ℕ → Buffer → Buffer
unfolding put8
put_type type b = b ▷ put8 0 (bit_and (b 0) 0xf0) ▷ λ b'. put8 0 (bit_or (b' 0) type) b'

unfoldable pub put_timestamp : ℕ → Timestamp → Buffer → Buffer
unfolding put16 put32
put_timestamp i t b =
    b
    ▷ put16 i t.seconds_field.msb
    ▷ put32 (i + 2) t.seconds_field.lsb
    ▷ put32 (i + 6) t.nanoseconds_field

-- The header's `correctionField`, copied.
unfoldable pub put_correction : MsgHeader → Buffer → Buffer
unfolding put32
put_correction header b =
    b
    ▷ put32 8 (residue (2 ^ 32) header.correction_field.msb)
    ▷ put32 12 header.correction_field.lsb

-- The header's `sourcePortIdentity`, as the requesting port's.
unfoldable pub put_requester : MsgHeader → Buffer → Buffer
unfolding put_identity put16
put_requester header b =
    b
    ▷ put_identity 44 header.source_port_identity.clock_identity
    ▷ put16 52 header.source_port_identity.port_number

unfoldable pub msg_pack_sync : Buffer → Timestamp → PtpClock → Buffer
unfolding msg_pack_header put_type put16 put8 put_int8 clear put_timestamp
msg_pack_sync buf origin c =
    msg_pack_header buf c
    ▷ put_type 0x00
    ▷ put16 2 44
    ▷ put16 30 c.sent_sync_sequence_id
    ▷ put8 32 0x00
    ▷ put_int8 33 c.log_sync_interval
    ▷ clear 8 8
    ▷ put_timestamp 34 origin

unfoldable pub msg_pack_announce : Buffer → PtpClock → Buffer
unfolding msg_pack_header put_type put16 put8 put_int8 clear put_identity
msg_pack_announce buf c =
    msg_pack_header buf c
    ▷ put_type 0x0b
    ▷ put16 2 64
    ▷ put16 30 c.sent_announce_sequence_id
    ▷ put8 32 0x05
    ▷ put_int8 33 c.log_announce_interval
    ▷ clear 34 10
    ▷ put16 44 (residue (2 ^ 16) c.current_utc_offset)
    ▷ put8 47 c.grandmaster_priority1
    ▷ put8 48 c.clock_quality.clock_class
    ▷ put8 49 c.clock_quality.clock_accuracy
    ▷ put16 50 c.clock_quality.offset_scaled_log_variance
    ▷ put8 52 c.grandmaster_priority2
    ▷ put_identity 53 c.grandmaster_identity
    ▷ put16 61 c.steps_removed
    ▷ put8 63 c.time_source

unfoldable pub msg_pack_follow_up : Buffer → Timestamp → PtpClock → Buffer
unfolding msg_pack_header put_type put16 put8 put_int8 put_timestamp
msg_pack_follow_up buf precise_origin c =
    msg_pack_header buf c
    ▷ put_type 0x08
    ▷ put16 2 44
    ▷ put16 30 c.sent_sync_sequence_id
    ▷ put8 32 0x02
    ▷ put_int8 33 c.log_sync_interval
    ▷ put_timestamp 34 precise_origin

unfoldable pub msg_pack_pdelay_req : Buffer → Timestamp → PtpClock → Buffer
unfolding msg_pack_header put_type put16 put8 clear put_timestamp
msg_pack_pdelay_req buf origin c =
    msg_pack_header buf c
    ▷ put_type 0x02
    ▷ put16 2 54
    ▷ put16 30 c.sent_pdelay_req_sequence_id
    ▷ put8 32 0x05
    ▷ put8 33 0x7f
    ▷ clear 8 8
    ▷ put_timestamp 34 origin
    ▷ clear 44 10

unfoldable pub msg_pack_delay_req : Buffer → Timestamp → PtpClock → Buffer
unfolding msg_pack_header put_type put16 put8 clear put_timestamp
msg_pack_delay_req buf origin c =
    msg_pack_header buf c
    ▷ put_type 0x01
    ▷ put16 2 44
    ▷ put16 30 c.sent_delay_req_sequence_id
    ▷ put8 32 0x01
    ▷ put8 33 0x7f
    ▷ clear 8 8
    ▷ put_timestamp 34 origin

unfoldable pub msg_pack_delay_resp : Buffer → MsgHeader → Timestamp → PtpClock → Buffer
unfolding msg_pack_header put_type put16 put8 put_int8 clear put_correction put_timestamp
    put_requester
msg_pack_delay_resp buf header receive c =
    msg_pack_header buf c
    ▷ put_type 0x09
    ▷ put16 2 54
    ▷ put8 4 header.domain_number
    ▷ clear 8 8
    ▷ put_correction header
    ▷ put16 30 header.sequence_id
    ▷ put8 32 0x03
    ▷ put_int8 33 c.log_min_delay_req_interval
    ▷ put_timestamp 34 receive
    ▷ put_requester header

unfoldable pub msg_pack_pdelay_resp : Buffer → MsgHeader → Timestamp → PtpClock → Buffer
unfolding msg_pack_header put_type put16 put32 put8 clear put_timestamp put_requester
msg_pack_pdelay_resp buf header receipt c =
    msg_pack_header buf c
    ▷ put_type 0x03
    ▷ put16 2 54
    ▷ put8 4 header.domain_number
    ▷ clear 8 8
    ▷ put32 16 header.reserved2
    ▷ put16 30 header.sequence_id
    ▷ put8 32 0x05
    ▷ put8 33 0x7f
    ▷ put_timestamp 34 receipt
    ▷ put_requester header

unfoldable pub msg_pack_pdelay_resp_follow_up : Buffer → MsgHeader → Timestamp → PtpClock → Buffer
unfolding msg_pack_header put_type put16 put8 put_correction put_timestamp put_requester
msg_pack_pdelay_resp_follow_up buf header response_origin c =
    msg_pack_header buf c
    ▷ put_type 0x0a
    ▷ put16 2 54
    ▷ put16 30 c.pdelay_req_header.sequence_id
    ▷ put8 32 0x05
    ▷ put8 33 0x7f
    ▷ put_correction header
    ▷ put_timestamp 34 response_origin
    ▷ put_requester header
