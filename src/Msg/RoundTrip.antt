-- ===== src/Msg/RoundTrip.antt =====
-- The bodies of the messages, packed and unpacked.
use xge_ptpv.Common.{◌^◌, ◌<◌, ◌≡◌, length, arith}
use xge_ptpv.Common.Int.{Fits16, int16-residue}
use xge_ptpv.Datatypes.{PtpClock, MsgHeader, MsgAnnounce, Timestamp, PortIdentity}
use xge_ptpv.Msg.{
  Buffer, eight, msg_pack_announce, msg_unpack_announce, msg_pack_sync, msg_unpack_sync,
  msg_pack_follow_up, msg_unpack_follow_up, msg_pack_delay_resp, msg_unpack_delay_resp,
  msg_pack_pdelay_resp, msg_unpack_pdelay_resp, msg_pack_pdelay_resp_follow_up,
  msg_unpack_pdelay_resp_follow_up,
}

-- The fields that an announce carries are within their widths.
pub record AnnounceFits (c : PtpClock) : Type 0 where
  pub utc : Fits16 c.current_utc_offset
  pub priority1_lt : c.grandmaster_priority1 < 2 ^ 8
  pub class_lt : c.clock_quality.clock_class < 2 ^ 8
  pub accuracy_lt : c.clock_quality.clock_accuracy < 2 ^ 8
  pub variance_lt : c.clock_quality.offset_scaled_log_variance < 2 ^ 16
  pub priority2_lt : c.grandmaster_priority2 < 2 ^ 8
  pub identity_length : length c.grandmaster_identity ≡ 8
  pub steps_lt : c.steps_removed < 2 ^ 16
  pub source_lt : c.time_source < 2 ^ 8

abbrev pub announced : PtpClock → MsgAnnounce
announced c = record {
  origin_timestamp = record { seconds_field = record { lsb = 0; msb = 0 }; nanoseconds_field = 0 };
  current_utc_offset = c.current_utc_offset;
  grandmaster_priority1 = c.grandmaster_priority1;
  grandmaster_clock_quality = c.clock_quality;
  grandmaster_priority2 = c.grandmaster_priority2;
  grandmaster_identity = c.grandmaster_identity;
  steps_removed = c.steps_removed;
  time_source = c.time_source;
}

-- An announce whose fields are within their widths is unpacked as it was packed: the clock's own
-- quality, and the grandmaster's identity and priorities.
pub msg_unpack_announce-msg_pack_announce :
    (buf : Buffer) (c : PtpClock)
    → AnnounceFits c
    → msg_unpack_announce (msg_pack_announce buf c) ≡ announced c
unfolding msg_unpack_announce msg_pack_announce
msg_unpack_announce-msg_pack_announce buf c h = ground (
  arith,
  eight c.grandmaster_identity h.identity_length,
  int16-residue c.current_utc_offset h.utc,
)

pub record TimestampFits (t : Timestamp) : Type 0 where
  pub lsb_lt : t.seconds_field.lsb < 2 ^ 32
  pub msb_lt : t.seconds_field.msb < 2 ^ 16
  pub nanoseconds_lt : t.nanoseconds_field < 2 ^ 32

pub record PortFits (p : PortIdentity) : Type 0 where
  pub identity_length : length p.clock_identity ≡ 8
  pub number_lt : p.port_number < 2 ^ 16

-- Sync and Follow_Up carry the timestamp that was packed, when it is within its widths.
pub msg_unpack_sync-msg_pack_sync :
    (buf : Buffer) (t : Timestamp) (c : PtpClock)
    → TimestampFits t
    → ((msg_unpack_sync (msg_pack_sync buf t c)).origin_timestamp ≡ t)
      × ((msg_unpack_follow_up (msg_pack_follow_up buf t c)).precise_origin_timestamp ≡ t)
unfolding msg_unpack_sync msg_pack_sync msg_unpack_follow_up msg_pack_follow_up
msg_unpack_sync-msg_pack_sync buf t c h = (ground arith, ground arith)

-- The three responses carry the timestamp that was packed, and name the port whose request they
-- answer, when both are within their widths.
pub responses :
    (buf : Buffer) (request : MsgHeader) (t : Timestamp) (c : PtpClock)
    → TimestampFits t
    → PortFits request.source_port_identity
    → (msg_unpack_delay_resp (msg_pack_delay_resp buf request t c)
        ≡ record { receive_timestamp = t; requesting_port_identity = request.source_port_identity })
      × (msg_unpack_pdelay_resp (msg_pack_pdelay_resp buf request t c) ≡ record {
        request_receipt_timestamp = t;
        requesting_port_identity = request.source_port_identity;
      })
      × (msg_unpack_pdelay_resp_follow_up (msg_pack_pdelay_resp_follow_up buf request t c)
          ≡ record {
            response_origin_timestamp = t;
            requesting_port_identity = request.source_port_identity;
          })
unfolding msg_unpack_delay_resp msg_pack_delay_resp msg_unpack_pdelay_resp msg_pack_pdelay_resp
    msg_unpack_pdelay_resp_follow_up msg_pack_pdelay_resp_follow_up
responses buf request t c ht hp = (
  ground (arith, eight request.source_port_identity.clock_identity hp.identity_length),
  ground (arith, eight request.source_port_identity.clock_identity hp.identity_length),
  ground (arith, eight request.source_port_identity.clock_identity hp.identity_length),
)
