-- ===== src/Datatypes/Samples.antt =====
-- Values that the examples start from.
use xge_ptpv.Common.{ℕ, true, false, List, [], ◌∷◌}
use xge_ptpv.Common.Int.{pos}
use xge_ptpv.Datatypes.Message.{PortIdentity, TimeInternal, MsgHeader, MsgAnnounce, ClockQuality}
use xge_ptpv.Datatypes.Clock.{ForeignMasterRecord, PtpClock, ptp_listening}
use xge_ptpv.Datatypes.Options.{RunTimeOpts}
use xge_ptpv.Datatypes.Zero.{zero_header, zero_announce, zero_port}

-- A clock identity that ends in `n`.
abbrev pub identity_of : ℕ → List ℕ
identity_of n = 0 ∷ 27 ∷ 25 ∷ 255 ∷ 254 ∷ 1 ∷ 2 ∷ n ∷ []

abbrev pub port_of : ℕ → PortIdentity
port_of n = record { clock_identity = identity_of n; port_number = 1 }

abbrev pub sample_quality : ClockQuality
sample_quality = record {
  clock_class = 248;
  clock_accuracy = 254;
  offset_scaled_log_variance = 0x436A;
}

abbrev pub zero_time : TimeInternal
zero_time = record { seconds = pos 0; nanoseconds = pos 0 }

abbrev pub sample_opts : RunTimeOpts
sample_opts = record {
  announce_interval = pos 1;
  announce_receipt_timeout = 6;
  sync_interval = pos 0;
  clock_quality = sample_quality;
  priority1 = 128;
  priority2 = 128;
  domain_number = 0;
  slave_only = false;
  current_utc_offset = pos 0;
  no_reset_clock = false;
  max_reset = pos 0;
  max_delay = pos 300_000;
  orig_max_delay = pos 0;
  max_delay_auto_tune = false;
  discarded_packet_threshold = pos 60;
  no_adjust = false;
  ap = pos 3;
  ai = pos 17;
  s = 6;
  inbound_latency = zero_time;
  outbound_latency = zero_time;
  max_foreign_records = 5;
  delay_mechanism = 2;
  offset_first_updated = false;
  initial_delayreq = pos 0;
  subsequent_delayreq = pos 0;
  ignore_delayreq_interval_master = false;
  one_step = false;
  emb_ingress_time = true;
}

-- The announce of grandmaster `n`.
abbrev pub announce_of : ℕ → MsgAnnounce
announce_of n = record zero_announce {
  grandmaster_priority1 = 128;
  grandmaster_clock_quality = sample_quality;
  grandmaster_priority2 = 128;
  grandmaster_identity = identity_of n;
}

abbrev pub header_of : ℕ → MsgHeader
header_of n = record zero_header { source_port_identity = port_of n }

abbrev pub record_of : ℕ → ForeignMasterRecord
record_of n = record {
  foreign_master_port_identity = port_of n;
  foreign_master_announce_messages = 0;
  announce = announce_of n;
  header = header_of n;
}

-- A listening clock of identity `n` that has heard from clocks 7 and 9.
abbrev pub clock_of : ℕ → PtpClock
clock_of n = record {
  default_ds = record {
    two_step_flag = true;
    clock_identity = identity_of n;
    number_ports = 1;
    clock_quality = sample_quality;
    priority1 = 128;
    priority2 = 128;
    domain_number = 0;
    slave_only = false;
  };
  current_ds = record {
    steps_removed = 0;
    offset_from_master = zero_time;
    mean_path_delay = zero_time;
  };
  parent_ds = record {
    parent_port_identity = zero_port;
    parent_stats = false;
    observed_parent_offset_scaled_log_variance = 0;
    observed_parent_clock_phase_change_rate = pos 0;
    grandmaster_identity = identity_of n;
    grandmaster_clock_quality = sample_quality;
    grandmaster_priority1 = 128;
    grandmaster_priority2 = 128;
  };
  time_properties_ds = record {
    current_utc_offset = pos 37;
    current_utc_offset_valid = false;
    leap59 = false;
    leap61 = false;
    time_traceable = false;
    frequency_traceable = false;
    ptp_timescale = false;
    time_source = 160;
  };
  port_ds = record {
    port_identity = port_of n;
    port_state = ptp_listening;
    log_min_delay_req_interval = pos 0;
    peer_mean_path_delay = zero_time;
    log_announce_interval = pos 1;
    announce_receipt_timeout = 6;
    log_sync_interval = pos 0;
    delay_mechanism = 2;
    log_min_pdelay_req_interval = pos 1;
    version_number = 2;
  };
  foreign_ds = record {
    foreign = record_of 7 ∷ record_of 9 ∷ record_of 0 ∷ [];
    number_foreign_records = 2;
    max_foreign_records = 3;
    foreign_record_i = 2;
    foreign_record_best = 0;
    record_update = false;
  };
  exchange = record {
    observed_drift = pos 0;
    pdelay_req_receive_time = zero_time;
    pdelay_req_send_time = zero_time;
    pdelay_resp_receive_time = zero_time;
    pdelay_resp_send_time = zero_time;
    sync_receive_time = zero_time;
    delay_req_send_time = zero_time;
    delay_req_receive_time = zero_time;
    pdelay_ms = zero_time;
    pdelay_sm = zero_time;
    delay_ms = zero_time;
    delay_sm = zero_time;
    last_sync_correction_field = zero_time;
    last_pdelay_resp_correction_field = zero_time;
    pdelay_req_header = zero_header;
    delay_req_header = zero_header;
    sent_pdelay_req_sequence_id = 1;
    sent_delay_req_sequence_id = 2;
    sent_sync_sequence_id = 3;
    sent_announce_sequence_id = 4;
    recv_sync_sequence_id = 0;
    recv_pdelay_resp_sequence_id = 0;
    waiting_for_follow = false;
    waiting_for_delay_resp = false;
    ofm_filt = record { nsec_prev = pos 0; y = pos 0 };
    owd_filt = record { nsec_prev = pos 0; y = pos 0; s_exp = pos 0 };
    discarded_packet_count = pos 0;
  };
  msg_tmp_header = zero_header;
  msg_tmp_announce = zero_announce;
  message_activity = false;
  port_uuid_field = 0 ∷ 27 ∷ 25 ∷ 1 ∷ 2 ∷ n ∷ [];
  reset_count = 0;
  warned_operator_slow_slewing = false;
  warned_operator_fast_slewing = false;
  waiting_for_first_sync = false;
  waiting_for_first_delayresp = false;
}
