-- ===== src/Management/Refusal.antt =====
-- What the handlers of esl/sw/management.cpp refuse.
use xge_ptpv.Common.{ℕ, ◌≡◌, refl, sym, subst, Bool, true, false, arith}
use xge_ptpv.Datatypes.{PtpClock}
use xge_ptpv.Management.{
  Handler, MsgManagement, Action, get, set, response, command, acknowledge, unknown_action,
  set_or_get, only_get, init_outgoing, refuse, error_action, handle_error_management_message,
  mm_error_status, not_supported, no_such_id, DataField, tlv_management_error_status,
  handle_mm_priority1, handle_mm_priority2, handle_mm_domain, handle_mm_log_announce_interval,
  handle_mm_announce_receipt_timeout, handle_mm_log_sync_interval, handle_mm_version_number,
  handle_mm_clock_accuracy, handle_mm_utc_properties, handle_mm_traceability_properties,
  handle_mm_delay_mechanism, handle_mm_log_min_pdelay_req_interval, handle_mm_default_data_set,
  handle_mm_current_data_set, handle_mm_parent_data_set, handle_mm_time_properties_data_set,
  handle_mm_port_data_set, handle_mm_null_management, handle_mm_enable_port, handle_mm_disable_port,
  handle_mm_time, handle_mm_slave_only, handle_mm_initialize,
}
use xge_ptpv.Management.Table.{
  id_code, is_supported, error_of, is_set_or_get, is_get, is_null, is_only_set_or_get,
  is_initialize, is_command,
}
use xge_ptpv.Management.Switch.{
  ManagementId, DataOf, handle_tlv, is_issued, id_unsupported, id_unknown, id_priority1,
  id_priority2, id_domain, id_log_announce_interval, id_announce_receipt_timeout,
  id_log_sync_interval, id_version_number, id_clock_accuracy, id_utc_properties,
  id_traceability_properties, id_delay_mechanism, id_log_min_pdelay_req_interval,
  id_default_data_set, id_current_data_set, id_parent_data_set, id_time_properties_data_set,
  id_port_data_set, id_null_management, id_save_in_non_volatile_storage,
  id_reset_non_volatile_storage, id_enable_port, id_disable_port, id_time, id_slave_only,
  id_initialize,
}

-- The clock is left alone, and an error status is sent that names the error and the identifier.
abbrev RefusedWith : MsgManagement → PtpClock → ℕ → ℕ → PtpClock × MsgManagement → Type 0
RefusedWith incoming c id error r =
    (r.0 ≡ c)
    × (r.1.tlv.tlv_type ≡ tlv_management_error_status)
    × (r.1.tlv.management_id ≡ error)
    × (r.1.tlv.data_field ≡ mm_error_status id)
    × (r.1.action_field ≡ error_action incoming.action_field)
    × (is_issued r.1 ≡ true)

abbrev pub Refused : Handler → MsgManagement → MsgManagement → PtpClock → ℕ → ℕ → Type 0
Refused h incoming outgoing c id error = RefusedWith incoming c id error (h incoming outgoing c)

module _ (incoming outgoing : MsgManagement) (c : PtpClock) where
  abbrev RefusedAs : Handler → ℕ → Type 0
  RefusedAs h id = Refused h incoming outgoing c id not_supported

  refuse-RefusedAs : (id : ℕ) → RefusedAs (refuse id) id
  unfolding refuse handle_error_management_message init_outgoing is_issued
  refuse-RefusedAs id = (refl, refl, refl, refl, refl, refl)

  from_refuse :
      (id : ℕ) (r : PtpClock × MsgManagement)
      → r ≡ refuse id incoming outgoing c
      → RefusedWith incoming c id not_supported r
  from_refuse id r e = subst (RefusedWith incoming c id not_supported) (sym e) (refuse-RefusedAs id)

  set_or_get-RefusedAs :
      (id : ℕ) (change : PtpClock → PtpClock) (shown : PtpClock → DataField) (a : Action)
      → incoming.action_field ≡ a
      → is_set_or_get a ≡ false
      → RefusedAs (set_or_get id change shown) id
  unfolding set_or_get
  set_or_get-RefusedAs id change shown get e f = grind arith
  set_or_get-RefusedAs id change shown set e f = grind arith
  set_or_get-RefusedAs id change shown response e f = grind arith
  set_or_get-RefusedAs id change shown command e f = from_refuse id _ (rw e refl)
  set_or_get-RefusedAs id change shown acknowledge e f = from_refuse id _ (rw e refl)
  set_or_get-RefusedAs id change shown unknown_action e f = from_refuse id _ (rw e refl)

  only_get-RefusedAs :
      (id : ℕ) (shown : PtpClock → DataField) (a : Action)
      → incoming.action_field ≡ a
      → is_get a ≡ false
      → RefusedAs (only_get id shown) id
  unfolding only_get
  only_get-RefusedAs id shown get e f = grind arith
  only_get-RefusedAs id shown set e f = from_refuse id _ (rw e refl)
  only_get-RefusedAs id shown response e f = grind arith
  only_get-RefusedAs id shown command e f = from_refuse id _ (rw e refl)
  only_get-RefusedAs id shown acknowledge e f = from_refuse id _ (rw e refl)
  only_get-RefusedAs id shown unknown_action e f = from_refuse id _ (rw e refl)

  null_management-RefusedAs :
      (a : Action)
      → incoming.action_field ≡ a
      → is_null a ≡ false
      → RefusedAs handle_mm_null_management 0
  unfolding handle_mm_null_management
  null_management-RefusedAs get e f = grind arith
  null_management-RefusedAs set e f = grind arith
  null_management-RefusedAs response e f = from_refuse 0 _ (rw e refl)
  null_management-RefusedAs command e f = grind arith
  null_management-RefusedAs acknowledge e f = from_refuse 0 _ (rw e refl)
  null_management-RefusedAs unknown_action e f = from_refuse 0 _ (rw e refl)

  time-RefusedAs :
      (a : Action)
      → incoming.action_field ≡ a
      → is_set_or_get a ≡ false
      → RefusedAs handle_mm_time 0x200F
  unfolding handle_mm_time
  time-RefusedAs get e f = grind arith
  time-RefusedAs set e f = grind arith
  time-RefusedAs response e f = grind arith
  time-RefusedAs command e f = from_refuse 0x200F _ (rw e refl)
  time-RefusedAs acknowledge e f = from_refuse 0x200F _ (rw e refl)
  time-RefusedAs unknown_action e f = from_refuse 0x200F _ (rw e refl)

  slave_only-RefusedAs :
      (d : Bool) (a : Action)
      → incoming.action_field ≡ a
      → is_only_set_or_get a ≡ false
      → RefusedAs (handle_mm_slave_only d) 0x2008
  unfolding handle_mm_slave_only set_or_get
  slave_only-RefusedAs d get e f = grind arith
  slave_only-RefusedAs d set e f = grind arith
  slave_only-RefusedAs d response e f = from_refuse 0x2008 _ (rw e refl)
  slave_only-RefusedAs d command e f = from_refuse 0x2008 _ (rw e refl)
  slave_only-RefusedAs d acknowledge e f = from_refuse 0x2008 _ (rw e refl)
  slave_only-RefusedAs d unknown_action e f = from_refuse 0x2008 _ (rw e refl)

  initialize-RefusedAs :
      (d : ℕ) (a : Action)
      → incoming.action_field ≡ a
      → is_initialize a ≡ false
      → RefusedAs (handle_mm_initialize d) 5
  unfolding handle_mm_initialize
  initialize-RefusedAs d get e f = from_refuse 5 _ (rw e refl)
  initialize-RefusedAs d set e f = from_refuse 5 _ (rw e refl)
  initialize-RefusedAs d response e f = from_refuse 5 _ (rw e refl)
  initialize-RefusedAs d command e f = grind arith
  initialize-RefusedAs d acknowledge e f = grind arith
  initialize-RefusedAs d unknown_action e f = from_refuse 5 _ (rw e refl)

  enable_port-RefusedAs :
      (a : Action)
      → incoming.action_field ≡ a
      → is_command a ≡ false
      → RefusedAs handle_mm_enable_port 0x200D
  unfolding handle_mm_enable_port
  enable_port-RefusedAs get e f = from_refuse 0x200D _ (rw e refl)
  enable_port-RefusedAs set e f = from_refuse 0x200D _ (rw e refl)
  enable_port-RefusedAs response e f = from_refuse 0x200D _ (rw e refl)
  enable_port-RefusedAs command e f = grind arith
  enable_port-RefusedAs acknowledge e f = from_refuse 0x200D _ (rw e refl)
  enable_port-RefusedAs unknown_action e f = from_refuse 0x200D _ (rw e refl)

  disable_port-RefusedAs :
      (a : Action)
      → incoming.action_field ≡ a
      → is_command a ≡ false
      → RefusedAs handle_mm_disable_port 0x200E
  unfolding handle_mm_disable_port
  disable_port-RefusedAs get e f = from_refuse 0x200E _ (rw e refl)
  disable_port-RefusedAs set e f = from_refuse 0x200E _ (rw e refl)
  disable_port-RefusedAs response e f = from_refuse 0x200E _ (rw e refl)
  disable_port-RefusedAs command e f = grind arith
  disable_port-RefusedAs acknowledge e f = from_refuse 0x200E _ (rw e refl)
  disable_port-RefusedAs unknown_action e f = from_refuse 0x200E _ (rw e refl)

  error_status-Refused :
      (id error : ℕ)
      → Refused
          (λ incoming outgoing c. (c, handle_error_management_message incoming outgoing c id error))
          incoming
          outgoing
          c
          id
          error
  unfolding handle_error_management_message init_outgoing is_issued
  error_status-Refused id error = (refl, refl, refl, refl, refl, refl)

  -- A message whose action the identifier does not have, or whose identifier has no handler, is
  -- refused.
  pub handle_tlv_unsupported :
      (id : ManagementId) (d : DataOf id)
      → is_supported id incoming.action_field ≡ false
      → Refused (handle_tlv id d) incoming outgoing c (id_code id) (error_of id)
  unfolding handle_tlv handle_mm_priority1 handle_mm_priority2 handle_mm_domain
      handle_mm_log_announce_interval handle_mm_announce_receipt_timeout handle_mm_log_sync_interval
      handle_mm_version_number handle_mm_clock_accuracy handle_mm_utc_properties
      handle_mm_traceability_properties handle_mm_delay_mechanism
      handle_mm_log_min_pdelay_req_interval handle_mm_default_data_set handle_mm_current_data_set
      handle_mm_parent_data_set handle_mm_time_properties_data_set handle_mm_port_data_set
  handle_tlv_unsupported id_priority1 d f = set_or_get-RefusedAs _ _ _ _ refl f
  handle_tlv_unsupported id_priority2 d f = set_or_get-RefusedAs _ _ _ _ refl f
  handle_tlv_unsupported id_domain d f = set_or_get-RefusedAs _ _ _ _ refl f
  handle_tlv_unsupported id_log_announce_interval d f = set_or_get-RefusedAs _ _ _ _ refl f
  handle_tlv_unsupported id_announce_receipt_timeout d f = set_or_get-RefusedAs _ _ _ _ refl f
  handle_tlv_unsupported id_log_sync_interval d f = set_or_get-RefusedAs _ _ _ _ refl f
  handle_tlv_unsupported id_version_number d f = set_or_get-RefusedAs _ _ _ _ refl f
  handle_tlv_unsupported id_clock_accuracy d f = set_or_get-RefusedAs _ _ _ _ refl f
  handle_tlv_unsupported id_utc_properties d f = set_or_get-RefusedAs _ _ _ _ refl f
  handle_tlv_unsupported id_traceability_properties d f = set_or_get-RefusedAs _ _ _ _ refl f
  handle_tlv_unsupported id_delay_mechanism d f = set_or_get-RefusedAs _ _ _ _ refl f
  handle_tlv_unsupported id_log_min_pdelay_req_interval d f = set_or_get-RefusedAs _ _ _ _ refl f
  handle_tlv_unsupported id_default_data_set d f = only_get-RefusedAs _ _ _ refl f
  handle_tlv_unsupported id_current_data_set d f = only_get-RefusedAs _ _ _ refl f
  handle_tlv_unsupported id_parent_data_set d f = only_get-RefusedAs _ _ _ refl f
  handle_tlv_unsupported id_time_properties_data_set d f = only_get-RefusedAs _ _ _ refl f
  handle_tlv_unsupported id_port_data_set d f = only_get-RefusedAs _ _ _ refl f
  handle_tlv_unsupported id_null_management d f = null_management-RefusedAs _ refl f
  handle_tlv_unsupported id_save_in_non_volatile_storage d f = refuse-RefusedAs 3
  handle_tlv_unsupported id_reset_non_volatile_storage d f = refuse-RefusedAs 4
  handle_tlv_unsupported id_enable_port d f = enable_port-RefusedAs _ refl f
  handle_tlv_unsupported id_disable_port d f = disable_port-RefusedAs _ refl f
  handle_tlv_unsupported id_time d f = time-RefusedAs _ refl f
  handle_tlv_unsupported id_slave_only d f = slave_only-RefusedAs d _ refl f
  handle_tlv_unsupported id_initialize d f = initialize-RefusedAs d _ refl f
  handle_tlv_unsupported (id_unsupported n) d f = error_status-Refused n not_supported
  handle_tlv_unsupported (id_unknown n) d f = error_status-Refused n no_such_id
