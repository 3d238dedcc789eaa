-- ===== src/Datatypes/Options.antt =====
-- `RunTimeOpts`: the options that the modelled code reads or writes.
use xge_ptpv.Common.{ℕ, Bool}
use xge_ptpv.Common.Int.{ℤ}
use xge_ptpv.Datatypes.Message.{ClockQuality, TimeInternal}

pub record RunTimeOpts : Type 0 where
  pub announce_interval : ℤ
  pub announce_receipt_timeout : ℕ
  pub sync_interval : ℤ
  pub clock_quality : ClockQuality
  pub priority1 : ℕ
  pub priority2 : ℕ
  pub domain_number : ℕ
  pub slave_only : Bool
  pub current_utc_offset : ℤ
  pub no_reset_clock : Bool
  pub max_reset : ℤ
  pub max_delay : ℤ
  pub orig_max_delay : ℤ
  pub max_delay_auto_tune : Bool
  pub discarded_packet_threshold : ℤ
  pub no_adjust : Bool
  pub ap : ℤ
  pub ai : ℤ
  pub s : ℕ
  pub inbound_latency : TimeInternal
  pub outbound_latency : TimeInternal
  pub max_foreign_records : ℕ
  pub delay_mechanism : ℕ
  pub offset_first_updated : Bool
  pub initial_delayreq : ℤ
  pub subsequent_delayreq : ℤ
  pub ignore_delayreq_interval_master : Bool
  pub one_step : Bool
  pub emb_ingress_time : Bool
