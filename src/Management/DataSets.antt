-- ===== src/Management/DataSets.antt =====
-- The handlers of esl/sw/management.cpp that show a data set.
use xge_ptpv.Common.{◌+◌, ◌*◌, ◌/◌, if◌then◌else◌}
use xge_ptpv.Common.Int.{pos}
use xge_ptpv.Datatypes.{Integer64}
use xge_ptpv.Bmc.{li61, li59, utcv, ptpt, ttra, ftra}
use xge_ptpv.Management.Message.{
  Handler, only_get, mm_default_data_set, mm_current_data_set, mm_parent_data_set,
  mm_time_properties_data_set, mm_port_data_set,
}
use xge_ptpv.Management.Settable.{set_field}

abbrev no_interval : Integer64
no_interval = record { lsb = 0; msb = pos 0 }

-- `handleMMDefaultDataSet`: the flag of a two-step clock is 0 or 1, and is shifted out.
unfoldable pub handle_mm_default_data_set : Handler
handle_mm_default_data_set = only_get 0x2000 (λ c. mm_default_data_set (record {
  so_tsc = (if c.slave_only then 1 else 0) * 2 + (if c.two_step_flag then 1 else 0) / 2;
  number_ports = c.number_ports;
  priority1 = c.priority1;
  clock_quality = c.clock_quality;
  priority2 = c.priority2;
  clock_identity = c.clock_identity;
  domain_number = c.domain_number;
}))

-- `handleMMCurrentDataSet`: the two times are not filled in.
unfoldable pub handle_mm_current_data_set : Handler
handle_mm_current_data_set = only_get 0x2001 (λ c. mm_current_data_set (record {
  steps_removed = c.steps_removed;
  offset_from_master = no_interval;
  mean_path_delay = no_interval;
}))

-- `handleMMParentDataSet`
unfoldable pub handle_mm_parent_data_set : Handler
handle_mm_parent_data_set = only_get 0x2002 (λ c. mm_parent_data_set (record {
  parent_port_identity = c.parent_port_identity;
  ps = c.parent_stats;
  observed_parent_offset_scaled_log_variance = c.observed_parent_offset_scaled_log_variance;
  observed_parent_clock_phase_change_rate = c.observed_parent_clock_phase_change_rate;
  grandmaster_priority1 = c.grandmaster_priority1;
  grandmaster_clock_quality = c.grandmaster_clock_quality;
  grandmaster_priority2 = c.grandmaster_priority2;
  grandmaster_identity = c.grandmaster_identity;
}))

-- `handleMMTimePropertiesDataSet`
unfoldable pub handle_mm_time_properties_data_set : Handler
handle_mm_time_properties_data_set = only_get 0x2003 (λ c. mm_time_properties_data_set (record {
  current_utc_offset = c.current_utc_offset;
  ftra_ttra_ptp_utcv_li59_li61 =
      set_field c.frequency_traceable ftra
      + set_field c.time_traceable ttra
      + set_field c.ptp_timescale ptpt
      + set_field c.current_utc_offset_valid utcv
      + set_field c.leap59 li59
      + set_field c.leap61 li61;
  time_source = c.time_source;
}))

-- `handleMMPortDataSet`: the peer delay is not filled in.
unfoldable pub handle_mm_port_data_set : Handler
handle_mm_port_data_set = only_get 0x2004 (λ c. mm_port_data_set (record {
  port_identity = c.port_identity;
  port_state = c.port_state;
  log_min_delay_req_interval = c.log_min_delay_req_interval;
  peer_mean_path_delay = no_interval;
  log_announce_interval = c.log_announce_interval;
  announce_receipt_timeout = c.announce_receipt_timeout;
  log_sync_interval = c.log_sync_interval;
  delay_mechanism = c.delay_mechanism;
  log_min_pdelay_req_interval = c.log_min_pdelay_req_interval;
  version_number = c.version_number;
}))
