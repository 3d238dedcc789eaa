-- ===== src/Management/Answers.antt =====
-- What a manager learns from the answers of esl/sw/management.cpp.
use xge_ptpv.Common.{
  ℕ, ◌+◌, ◌*◌, ◌/◌, ◌%◌, ◌^◌, ◌≡◌, refl, ap, ◌∙◌, Bool, Option, none, some, arith,
}
use xge_ptpv.Datatypes.{PtpClock}
use xge_ptpv.Bmc.{is_set, li61, li59, utcv, ttra, ftra}
use xge_ptpv.Management.{
  Handler, MsgManagement, get, set, response, DataField, set_or_get, init_outgoing, tlv_management,
  set_field, mm_priority1, mm_priority2, mm_domain, mm_slave_only, mm_log_announce_interval,
  mm_announce_receipt_timeout, mm_log_sync_interval, mm_version_number, mm_clock_accuracy,
  mm_utc_properties, mm_traceability_properties, mm_delay_mechanism, mm_log_min_pdelay_req_interval,
  handle_mm_priority1, handle_mm_priority2, handle_mm_domain, handle_mm_slave_only,
  handle_mm_log_announce_interval, handle_mm_announce_receipt_timeout, handle_mm_log_sync_interval,
  handle_mm_version_number, handle_mm_clock_accuracy, handle_mm_utc_properties,
  handle_mm_traceability_properties, handle_mm_delay_mechanism,
  handle_mm_log_min_pdelay_req_interval,
}
use xge_ptpv.Management.Switch.{
  ManagementId, DataOf, handle_tlv, id_initialize, id_unsupported, id_unknown, id_default_data_set,
  id_current_data_set, id_parent_data_set, id_time_properties_data_set, id_port_data_set,
  id_priority1, id_priority2, id_domain, id_slave_only, id_log_announce_interval,
  id_announce_receipt_timeout, id_log_sync_interval, id_version_number, id_clock_accuracy,
  id_utc_properties, id_traceability_properties, id_delay_mechanism, id_log_min_pdelay_req_interval,
  id_null_management, id_save_in_non_volatile_storage, id_reset_non_volatile_storage,
  id_enable_port, id_disable_port, id_time,
}

-- The data of an answer to a message that sets, for the identifiers that can be set: of the octets
-- of flags, the bits that mean something.
abbrev pub settled : (id : ManagementId) → DataOf id → Option DataField
settled id_priority1 d = some (mm_priority1 d)
settled id_priority2 d = some (mm_priority2 d)
settled id_domain d = some (mm_domain d)
settled id_slave_only d = some (mm_slave_only d)
settled id_log_announce_interval d = some (mm_log_announce_interval d)
settled id_announce_receipt_timeout d = some (mm_announce_receipt_timeout d)
settled id_log_sync_interval d = some (mm_log_sync_interval d)
settled id_version_number d = some (mm_version_number d)
settled id_clock_accuracy d = some (mm_clock_accuracy d)
settled id_utc_properties d = some (mm_utc_properties d.0 (d.1 % 8))
settled id_traceability_properties d = some (mm_traceability_properties (d / 16 % 4 * 16))
settled id_delay_mechanism d = some (mm_delay_mechanism d)
settled id_log_min_pdelay_req_interval d = some (mm_log_min_pdelay_req_interval d)
settled _ d = none

-- A bit that is read and written again.
bit : (n i : ℕ) → set_field (is_set n i) i ≡ n / 2 ^ i % 2 * 2 ^ i
bit n i = ground arith

utc_bits :
    (n : ℕ)
    → set_field (is_set n utcv) utcv
        + set_field (is_set n li59) li59
        + set_field (is_set n li61) li61
      ≡ n % 8
utc_bits n = omega (arith, bit n utcv, bit n li59, bit n li61)

traceability_bits :
    (n : ℕ) → set_field (is_set n ftra) ftra + set_field (is_set n ttra) ttra ≡ n / 16 % 4 * 16
traceability_bits n = omega (arith, bit n ftra, bit n ttra)

some_inj : (x y : DataField) → some x ≡ some y → x ≡ y
some_inj x y e = ap (λ o. elim o [ some z ↦ z | none ↦ x ]) e

-- The answer of `h` shows `x`, and so does that of `later` to any message that asks for it then.
abbrev pub Shows : Handler → Handler → MsgManagement → MsgManagement → PtpClock → DataField → Type 0
Shows h later incoming outgoing c x =
    let r = h incoming outgoing c in
    (r.1.action_field ≡ response)
    × (r.1.tlv.tlv_type ≡ tlv_management)
    × (r.1.tlv.data_field ≡ x)
    × ((asking out : MsgManagement)
        → asking.action_field ≡ get
        → let g = later asking out r.0 in (g.0 ≡ r.0) × (g.1.tlv.data_field ≡ x))

module _ (incoming outgoing : MsgManagement) (c : PtpClock) (e : incoming.action_field ≡ set) where
  set_or_get-Shows :
      (id : ℕ) (change change' : PtpClock → PtpClock) (shown : PtpClock → DataField) (x : DataField)
      → shown (change c) ≡ x
      → Shows (set_or_get id change shown) (set_or_get id change' shown) incoming outgoing c x
  unfolding set_or_get init_outgoing
  set_or_get-Shows id change change' shown x s =
      rw e (refl, refl, s, λ asking out g. rw g (refl, s))

  slave_only-Shows :
      (so later : Bool) (x : DataField)
      → mm_slave_only so ≡ x
      → Shows (handle_mm_slave_only so) (handle_mm_slave_only later) incoming outgoing c x
  unfolding handle_mm_slave_only set_or_get init_outgoing
  slave_only-Shows so later x s = rw e (refl, refl, s, λ asking out g. rw g (refl, s))

  -- A message that sets a value by an identifier that can be set is answered with a response which
  -- shows that value (of the octets of flags, the bits that mean something), and any later message
  -- that asks for it, whatever data it carries, gets the same value and leaves the clock as it is.
  pub handle_tlv-Shows :
      (id : ManagementId) (d later : DataOf id) (x : DataField)
      → settled id d ≡ some x
      → Shows (handle_tlv id d) (handle_tlv id later) incoming outgoing c x
  unfolding handle_tlv handle_mm_priority1 handle_mm_priority2 handle_mm_domain
      handle_mm_log_announce_interval handle_mm_announce_receipt_timeout handle_mm_log_sync_interval
      handle_mm_version_number handle_mm_clock_accuracy handle_mm_utc_properties
      handle_mm_traceability_properties handle_mm_delay_mechanism
      handle_mm_log_min_pdelay_req_interval
  handle_tlv-Shows id_priority1 d later x s = set_or_get-Shows _ _ _ _ x (some_inj _ x s)
  handle_tlv-Shows id_priority2 d later x s = set_or_get-Shows _ _ _ _ x (some_inj _ x s)
  handle_tlv-Shows id_domain d later x s = set_or_get-Shows _ _ _ _ x (some_inj _ x s)
  handle_tlv-Shows id_slave_only d later x s = slave_only-Shows d later x (some_inj _ x s)
  handle_tlv-Shows id_log_announce_interval d later x s =
      set_or_get-Shows _ _ _ _ x (some_inj _ x s)
  handle_tlv-Shows id_announce_receipt_timeout d later x s =
      set_or_get-Shows _ _ _ _ x (some_inj _ x s)
  handle_tlv-Shows id_log_sync_interval d later x s = set_or_get-Shows _ _ _ _ x (some_inj _ x s)
  handle_tlv-Shows id_version_number d later x s = set_or_get-Shows _ _ _ _ x (some_inj _ x s)
  handle_tlv-Shows id_clock_accuracy d later x s = set_or_get-Shows _ _ _ _ x (some_inj _ x s)
  handle_tlv-Shows id_utc_properties d later x s =
      set_or_get-Shows _ _ _ _ x (ap (mm_utc_properties d.0) (utc_bits d.1) ∙ some_inj _ x s)
  handle_tlv-Shows id_traceability_properties d later x s =
      set_or_get-Shows _ _ _ _ x
        (ap mm_traceability_properties (traceability_bits d) ∙ some_inj _ x s)
  handle_tlv-Shows id_delay_mechanism d later x s = set_or_get-Shows _ _ _ _ x (some_inj _ x s)
  handle_tlv-Shows id_log_min_pdelay_req_interval d later x s =
      set_or_get-Shows _ _ _ _ x (some_inj _ x s)
  handle_tlv-Shows id_default_data_set d later x s = grind arith
  handle_tlv-Shows id_current_data_set d later x s = grind arith
  handle_tlv-Shows id_parent_data_set d later x s = grind arith
  handle_tlv-Shows id_time_properties_data_set d later x s = grind arith
  handle_tlv-Shows id_port_data_set d later x s = grind arith
  handle_tlv-Shows id_null_management d later x s = grind arith
  handle_tlv-Shows id_save_in_non_volatile_storage d later x s = grind arith
  handle_tlv-Shows id_reset_non_volatile_storage d later x s = grind arith
  handle_tlv-Shows id_enable_port d later x s = grind arith
  handle_tlv-Shows id_disable_port d later x s = grind arith
  handle_tlv-Shows id_time d later x s = grind arith
  handle_tlv-Shows id_initialize d later x s = grind arith
  handle_tlv-Shows (id_unsupported n) d later x s = grind arith
  handle_tlv-Shows (id_unknown n) d later x s = grind arith
