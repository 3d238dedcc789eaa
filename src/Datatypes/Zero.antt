-- ===== src/Datatypes/Zero.antt =====
-- Records of zero bytes: the foreign master table is allocated zeroed.
use xge_ptpv.Common.{◌∷◌, []}
use xge_ptpv.Common.Int.{pos}
use xge_ptpv.Datatypes.Message.{Timestamp, PortIdentity, MsgHeader, MsgAnnounce}
use xge_ptpv.Datatypes.Clock.{ForeignMasterRecord}

abbrev zero_timestamp : Timestamp
zero_timestamp = record { seconds_field = record { lsb = 0; msb = 0 }; nanoseconds_field = 0 }

abbrev pub zero_port : PortIdentity
zero_port = record { clock_identity = 0 ∷ 0 ∷ 0 ∷ 0 ∷ 0 ∷ 0 ∷ 0 ∷ 0 ∷ []; port_number = 0 }

abbrev pub zero_header : MsgHeader
zero_header = record {
  transport_specific = 0;
  message_type = 0;
  reserved0 = 0;
  version_ptp = 0;
  message_length = 0;
  domain_number = 0;
  reserved1 = 0;
  flag_field0 = 0;
  flag_field1 = 0;
  correction_field = record { lsb = 0; msb = pos 0 };
  reserved2 = 0;
  source_port_identity = zero_port;
  sequence_id = 0;
  control_field = 0;
  log_message_interval = pos 0;
}

abbrev pub zero_announce : MsgAnnounce
zero_announce = record {
  origin_timestamp = zero_timestamp;
  current_utc_offset = pos 0;
  grandmaster_priority1 = 0;
  grandmaster_clock_quality = record {
    clock_class = 0;
    clock_accuracy = 0;
    offset_scaled_log_variance = 0;
  };
  grandmaster_priority2 = 0;
  grandmaster_identity = zero_port.clock_identity;
  steps_removed = 0;
  time_source = 0;
}

abbrev pub zero_record : ForeignMasterRecord
zero_record = record {
  foreign_master_port_identity = zero_port;
  foreign_master_announce_messages = 0;
  announce = zero_announce;
  header = zero_header;
}
