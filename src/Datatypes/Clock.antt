-- ===== src/Datatypes/Clock.antt =====
-- `PtpClock` and the records that it holds.
use xge_ptpv.Common.{ℕ, Bool, List}
use xge_ptpv.Common.Int.{ℤ}
use xge_ptpv.Datatypes.Message.{
  ClockIdentity, TimeInternal, PortIdentity, ClockQuality, MsgHeader, MsgAnnounce,
}

-- PTP states
pub data PortState : Type 0 where
  ptp_initializing ptp_faulty ptp_disabled ptp_listening ptp_pre_master ptp_master : PortState
  ptp_passive ptp_uncalibrated ptp_slave : PortState

pub record IntervalTimer : Type 0 where
  pub interval : ℤ
  pub left : ℤ
  pub expire : Bool

pub record ForeignMasterRecord : Type 0 where
  pub foreign_master_port_identity : PortIdentity
  pub foreign_master_announce_messages : ℕ
  pub announce : MsgAnnounce
  pub header : MsgHeader

pub record OffsetFromMasterFilter : Type 0 where
  pub nsec_prev : ℤ
  pub y : ℤ

pub record OneWayDelayFilter : Type 0 where
  pub nsec_prev : ℤ
  pub y : ℤ
  pub s_exp : ℤ

-- Default data set
pub record DefaultDataSet : Type 0 where
  pub two_step_flag : Bool
  pub clock_identity : ClockIdentity
  pub number_ports : ℕ
  pub clock_quality : ClockQuality
  pub priority1 : ℕ
  pub priority2 : ℕ
  pub domain_number : ℕ
  pub slave_only : Bool

-- Current data set
pub record CurrentDataSet : Type 0 where
  pub steps_removed : ℕ
  pub offset_from_master : TimeInternal
  pub mean_path_delay : TimeInternal

-- Parent data set
pub record ParentDataSet : Type 0 where
  pub parent_port_identity : PortIdentity
  pub parent_stats : Bool
  pub observed_parent_offset_scaled_log_variance : ℕ
  pub observed_parent_clock_phase_change_rate : ℤ
  pub grandmaster_identity : ClockIdentity
  pub grandmaster_clock_quality : ClockQuality
  pub grandmaster_priority1 : ℕ
  pub grandmaster_priority2 : ℕ

-- Global time properties data set
pub record TimePropertiesDataSet : Type 0 where
  pub current_utc_offset : ℤ
  pub current_utc_offset_valid : Bool
  pub leap59 : Bool
  pub leap61 : Bool
  pub time_traceable : Bool
  pub frequency_traceable : Bool
  pub ptp_timescale : Bool
  pub time_source : ℕ

-- Port configuration data set
pub record PortDataSet : Type 0 where
  pub port_identity : PortIdentity
  pub port_state : PortState
  pub log_min_delay_req_interval : ℤ
  pub peer_mean_path_delay : TimeInternal
  pub log_announce_interval : ℤ
  pub announce_receipt_timeout : ℕ
  pub log_sync_interval : ℤ
  pub delay_mechanism : ℕ
  pub log_min_pdelay_req_interval : ℤ
  pub version_number : ℕ

-- Foreign master data set
pub record ForeignMasterDataSet : Type 0 where
  pub foreign : List ForeignMasterRecord
  pub number_foreign_records : ℕ
  pub max_foreign_records : ℕ
  pub foreign_record_i : ℕ
  pub foreign_record_best : ℕ
  pub record_update : Bool

-- The times of the exchanges in progress, and what the servo keeps of them
pub record Exchange : Type 0 where
  pub observed_drift : ℤ
  pub pdelay_req_receive_time : TimeInternal
  pub pdelay_req_send_time : TimeInternal
  pub pdelay_resp_receive_time : TimeInternal
  pub pdelay_resp_send_time : TimeInternal
  pub sync_receive_time : TimeInternal
  pub delay_req_send_time : TimeInternal
  pub delay_req_receive_time : TimeInternal
  pub pdelay_ms : TimeInternal
  pub pdelay_sm : TimeInternal
  pub delay_ms : TimeInternal
  pub delay_sm : TimeInternal
  pub last_sync_correction_field : TimeInternal
  pub last_pdelay_resp_correction_field : TimeInternal
  pub pdelay_req_header : MsgHeader
  pub delay_req_header : MsgHeader
  pub sent_pdelay_req_sequence_id : ℕ
  pub sent_delay_req_sequence_id : ℕ
  pub sent_sync_sequence_id : ℕ
  pub sent_announce_sequence_id : ℕ
  pub recv_sync_sequence_id : ℕ
  pub recv_pdelay_resp_sequence_id : ℕ
  pub waiting_for_follow : Bool
  pub waiting_for_delay_resp : Bool
  pub ofm_filt : OffsetFromMasterFilter
  pub owd_filt : OneWayDelayFilter
  pub discarded_packet_count : ℤ

-- `itimer` is kept with the timers that it is handed to.
pub record PtpClock : Type 0 where
  pub default_ds : DefaultDataSet
  pub open default_ds use *
  pub current_ds : CurrentDataSet
  pub open current_ds use *
  pub parent_ds : ParentDataSet
  pub open parent_ds use *
  pub time_properties_ds : TimePropertiesDataSet
  pub open time_properties_ds use *
  pub port_ds : PortDataSet
  pub open port_ds use *
  pub foreign_ds : ForeignMasterDataSet
  pub open foreign_ds use *
  pub exchange : Exchange
  pub open exchange use *
  pub msg_tmp_header : MsgHeader
  pub msg_tmp_announce : MsgAnnounce
  pub message_activity : Bool
  pub port_uuid_field : List ℕ
  pub reset_count : ℕ
  pub warned_operator_slow_slewing : Bool
  pub warned_operator_fast_slewing : Bool
  pub waiting_for_first_sync : Bool
  pub waiting_for_first_delayresp : Bool
