-- ===== src/Management/Settable.antt =====
-- The handlers of esl/sw/management.cpp that set a value: each is given the data of the message that
-- came in. The bits of one octet are put together with `+`, since no two are at one position.
use xge_ptpv.Common.{ℕ, ◌+◌, ◌^◌, Bool, if◌then◌else◌}
use xge_ptpv.Common.Int.{ℤ}
use xge_ptpv.Bmc.{is_set, li61, li59, utcv, ttra, ftra}
use xge_ptpv.Management.Message.{
  Handler, set_or_get, refuse, response, mm_priority1, mm_priority2, mm_domain, mm_slave_only,
  mm_log_announce_interval, mm_announce_receipt_timeout, mm_log_sync_interval, mm_version_number,
  mm_clock_accuracy, mm_utc_properties, mm_traceability_properties, mm_delay_mechanism,
  mm_log_min_pdelay_req_interval,
}

-- `SET_FIELD`
abbrev pub set_field : Bool → ℕ → ℕ
set_field b bitpos = if b then 2 ^ bitpos else 0

-- `handleMMPriority1`
unfoldable pub handle_mm_priority1 : ℕ → Handler
handle_mm_priority1 v =
    set_or_get 0x2005 (λ c. record c { default_ds = record c.default_ds { priority1 = v } })
      (λ c. mm_priority1 c.priority1)

-- `handleMMPriority2`
unfoldable pub handle_mm_priority2 : ℕ → Handler
handle_mm_priority2 v =
    set_or_get 0x2006 (λ c. record c { default_ds = record c.default_ds { priority2 = v } })
      (λ c. mm_priority2 c.priority2)

-- `handleMMDomain`
unfoldable pub handle_mm_domain : ℕ → Handler
handle_mm_domain v =
    set_or_get 0x2007 (λ c. record c { default_ds = record c.default_ds { domain_number = v } })
      (λ c. mm_domain c.domain_number)

-- `handleMMSlaveOnly`, which has no case for a response.
unfoldable pub handle_mm_slave_only : Bool → Handler
handle_mm_slave_only so incoming outgoing c = elim (incoming.action_field) [
  | response ↦ refuse 0x2008 incoming outgoing c
  | _ ↦
      set_or_get 0x2008 (λ c. record c { default_ds = record c.default_ds { slave_only = so } })
        (λ c. mm_slave_only c.slave_only) incoming outgoing c
]

-- `handleMMLogAnnounceInterval`
unfoldable pub handle_mm_log_announce_interval : ℤ → Handler
handle_mm_log_announce_interval v =
    set_or_get 0x2009 (λ c. record c { port_ds = record c.port_ds { log_announce_interval = v } })
      (λ c. mm_log_announce_interval c.log_announce_interval)

-- `handleMMAnnounceReceiptTimeout`
unfoldable pub handle_mm_announce_receipt_timeout : ℕ → Handler
handle_mm_announce_receipt_timeout v =
    set_or_get 0x200A
      (λ c. record c { port_ds = record c.port_ds { announce_receipt_timeout = v } })
      (λ c. mm_announce_receipt_timeout c.announce_receipt_timeout)

-- `handleMMLogSyncInterval`
unfoldable pub handle_mm_log_sync_interval : ℤ → Handler
handle_mm_log_sync_interval v =
    set_or_get 0x200B (λ c. record c { port_ds = record c.port_ds { log_sync_interval = v } })
      (λ c. mm_log_sync_interval c.log_sync_interval)

-- `handleMMVersionNumber`
unfoldable pub handle_mm_version_number : ℕ → Handler
handle_mm_version_number v =
    set_or_get 0x200C (λ c. record c { port_ds = record c.port_ds { version_number = v } })
      (λ c. mm_version_number c.version_number)

-- `handleMMClockAccuracy`
unfoldable pub handle_mm_clock_accuracy : ℕ → Handler
handle_mm_clock_accuracy v =
    set_or_get 0x2010
      (λ c. record c {
        default_ds = record c.default_ds {
          clock_quality = record c.clock_quality { clock_accuracy = v };
        };
      })
      (λ c. mm_clock_accuracy c.clock_quality.clock_accuracy)

-- `handleMMUtcProperties`
unfoldable pub handle_mm_utc_properties : ℤ → ℕ → Handler
handle_mm_utc_properties offset flags =
    set_or_get 0x2011
      (λ c. record c {
        time_properties_ds = record c.time_properties_ds {
          current_utc_offset = offset;
          current_utc_offset_valid = is_set flags utcv;
          leap59 = is_set flags li59;
          leap61 = is_set flags li61;
        };
      })
      (λ c. mm_utc_properties c.current_utc_offset (
        set_field c.current_utc_offset_valid utcv
        + set_field c.leap59 li59
        + set_field c.leap61 li61))

-- `handleMMTraceabilityProperties`
unfoldable pub handle_mm_traceability_properties : ℕ → Handler
handle_mm_traceability_properties flags =
    set_or_get 0x2012
      (λ c. record c {
        time_properties_ds = record c.time_properties_ds {
          frequency_traceable = is_set flags ftra;
          time_traceable = is_set flags ttra;
        };
      })
      (λ c.
        mm_traceability_properties
          (set_field c.frequency_traceable ftra + set_field c.time_traceable ttra))

-- `handleMMDelayMechanism`
unfoldable pub handle_mm_delay_mechanism : ℕ → Handler
handle_mm_delay_mechanism v =
    set_or_get 0x6000 (λ c. record c { port_ds = record c.port_ds { delay_mechanism = v } })
      (λ c. mm_delay_mechanism c.delay_mechanism)

-- `handleMMLogMinPdelayReqInterval`
unfoldable pub handle_mm_log_min_pdelay_req_interval : ℤ → Handler
handle_mm_log_min_pdelay_req_interval v =
    set_or_get 0x6001
      (λ c. record c { port_ds = record c.port_ds { log_min_pdelay_req_interval = v } })
      (λ c. mm_log_min_pdelay_req_interval c.log_min_pdelay_req_interval)
