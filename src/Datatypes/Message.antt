-- ===== src/Datatypes/Message.antt =====
-- Times, identities and the fields of the messages.
use xge_ptpv.Common.{ℕ, List}
use xge_ptpv.Common.Int.{ℤ}

-- Octets in network order, CLOCK_IDENTITY_LENGTH of them.
abbrev pub ClockIdentity : Type 0
ClockIdentity = List ℕ

pub record UInteger48 : Type 0 where
  pub lsb : ℕ
  pub msb : ℕ

pub record Integer64 : Type 0 where
  pub lsb : ℕ
  pub msb : ℤ

pub record Timestamp : Type 0 where
  pub seconds_field : UInteger48
  pub nanoseconds_field : ℕ

pub record TimeInternal : Type 0 where
  pub seconds : ℤ
  pub nanoseconds : ℤ

pub record PortIdentity : Type 0 where
  pub clock_identity : ClockIdentity
  pub port_number : ℕ

pub record ClockQuality : Type 0 where
  pub clock_class : ℕ
  pub clock_accuracy : ℕ
  pub offset_scaled_log_variance : ℕ

pub record MsgHeader : Type 0 where
  pub transport_specific : ℕ
  pub message_type : ℕ
  pub reserved0 : ℕ
  pub version_ptp : ℕ
  pub message_length : ℕ
  pub domain_number : ℕ
  pub reserved1 : ℕ
  pub flag_field0 : ℕ
  pub flag_field1 : ℕ
  pub correction_field : Integer64
  pub reserved2 : ℕ
  pub source_port_identity : PortIdentity
  pub sequence_id : ℕ
  pub control_field : ℕ
  pub log_message_interval : ℤ

pub record MsgAnnounce : Type 0 where
  pub origin_timestamp : Timestamp
  pub current_utc_offset : ℤ
  pub grandmaster_priority1 : ℕ
  pub grandmaster_clock_quality : ClockQuality
  pub grandmaster_priority2 : ℕ
  pub grandmaster_identity : ClockIdentity
  pub steps_removed : ℕ
  pub time_source : ℕ

pub record MsgSync : Type 0 where
  pub origin_timestamp : Timestamp

pub record MsgFollowUp : Type 0 where
  pub precise_origin_timestamp : Timestamp

pub record MsgDelayResp : Type 0 where
  pub receive_timestamp : Timestamp
  pub requesting_port_identity : PortIdentity

pub record MsgPDelayResp : Type 0 where
  pub request_receipt_timestamp : Timestamp
  pub requesting_port_identity : PortIdentity

pub record MsgPDelayRespFollowUp : Type 0 where
  pub response_origin_timestamp : Timestamp
  pub requesting_port_identity : PortIdentity
