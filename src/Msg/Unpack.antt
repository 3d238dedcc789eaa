-- ===== src/Msg/Unpack.antt =====
-- The unpacking functions. Each sets every field of its target.
use xge_ptpv.Common.{◌*◌, ◌/◌, ◌%◌}
use xge_ptpv.Common.Int.{pos, int8, int16, int32}
use xge_ptpv.Datatypes.{
  MsgHeader, MsgAnnounce, MsgSync, MsgFollowUp, MsgDelayResp, MsgPDelayResp, MsgPDelayRespFollowUp,
  Timestamp, PortIdentity,
}
use xge_ptpv.Msg.Octets.{Buffer, get16, get32, get_identity}

unfoldable pub msg_unpack_header : Buffer → MsgHeader
msg_unpack_header b = record {
  transport_specific = b 0 / 16;
  message_type = b 0 % 16;
  reserved0 = b 1 / 16 * 16;
  version_ptp = b 1 % 16;
  message_length = get16 b 2;
  domain_number = b 4;
  reserved1 = b 5;
  flag_field0 = b 6;
  flag_field1 = b 7;
  correction_field = record { msb = int32 (pos (get32 b 8)); lsb = get32 b 12 };
  reserved2 = get32 b 16;
  source_port_identity = record { clock_identity = get_identity b 20; port_number = get16 b 28 };
  sequence_id = get16 b 30;
  control_field = b 32;
  log_message_interval = int8 (pos (b 33));
}

abbrev get_timestamp : Buffer → Timestamp
get_timestamp b = record {
  seconds_field = record { msb = get16 b 34; lsb = get32 b 36 };
  nanoseconds_field = get32 b 40;
}

abbrev get_requester : Buffer → PortIdentity
get_requester b = record { clock_identity = get_identity b 44; port_number = get16 b 52 }

unfoldable pub msg_unpack_sync : Buffer → MsgSync
msg_unpack_sync b = record { origin_timestamp = get_timestamp b }

unfoldable pub msg_unpack_announce : Buffer → MsgAnnounce
msg_unpack_announce b = record {
  origin_timestamp = get_timestamp b;
  current_utc_offset = int16 (pos (get16 b 44));
  grandmaster_priority1 = b 47;
  grandmaster_clock_quality = record {
    clock_class = b 48;
    clock_accuracy = b 49;
    offset_scaled_log_variance = get16 b 50;
  };
  grandmaster_priority2 = b 52;
  grandmaster_identity = get_identity b 53;
  steps_removed = get16 b 61;
  time_source = b 63;
}

unfoldable pub msg_unpack_follow_up : Buffer → MsgFollowUp
msg_unpack_follow_up b = record { precise_origin_timestamp = get_timestamp b }

unfoldable pub msg_unpack_delay_resp : Buffer → MsgDelayResp
msg_unpack_delay_resp b = record {
  receive_timestamp = get_timestamp b;
  requesting_port_identity = get_requester b;
}

unfoldable pub msg_unpack_pdelay_resp : Buffer → MsgPDelayResp
msg_unpack_pdelay_resp b = record {
  request_receipt_timestamp = get_timestamp b;
  requesting_port_identity = get_requester b;
}

unfoldable pub msg_unpack_pdelay_resp_follow_up : Buffer → MsgPDelayRespFollowUp
msg_unpack_pdelay_resp_follow_up b = record {
  response_origin_timestamp = get_timestamp b;
  requesting_port_identity = get_requester b;
}
