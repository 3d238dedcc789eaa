-- ===== src/Management/Switch.antt =====
-- The switch of `handleManagement` in esl/sw/protocol.cpp on the identifier of the TLV, and its
-- decision to send.
use xge_ptpv.Common.{Option, none, some, ◌||◌, ℕ, ◌==◌, Bool, true, false, if◌then◌else◌}
use xge_ptpv.Common.Int.{ℤ}
use xge_ptpv.Management.{
  Handler, MsgManagement, Action, response, acknowledge, handle_error_management_message,
  not_supported, no_such_id, tlv_management, tlv_management_error_status, handle_mm_initialize,
  handle_mm_default_data_set, handle_mm_current_data_set, handle_mm_parent_data_set,
  handle_mm_time_properties_data_set, handle_mm_port_data_set, handle_mm_priority1,
  handle_mm_priority2, handle_mm_domain, handle_mm_slave_only, handle_mm_log_announce_interval,
  handle_mm_announce_receipt_timeout, handle_mm_log_sync_interval, handle_mm_version_number,
  handle_mm_clock_accuracy, handle_mm_utc_properties, handle_mm_traceability_properties,
  handle_mm_delay_mechanism, handle_mm_log_min_pdelay_req_interval, handle_mm_null_management,
  handle_mm_save_in_non_volatile_storage, handle_mm_reset_non_volatile_storage,
  handle_mm_enable_port, handle_mm_disable_port, handle_mm_time,
}

-- The identifiers with a handler, and the others: those of the standard, and the rest.
pub data ManagementId : Type 0 where
  id_initialize id_default_data_set id_current_data_set id_parent_data_set
        id_time_properties_data_set id_port_data_set id_priority1 id_priority2 id_domain
        id_slave_only id_log_announce_interval id_announce_receipt_timeout id_log_sync_interval
        id_version_number id_clock_accuracy id_utc_properties id_traceability_properties
        id_delay_mechanism id_log_min_pdelay_req_interval id_null_management
        id_save_in_non_volatile_storage id_reset_non_volatile_storage id_enable_port id_disable_port
        id_time :
      ManagementId
  id_unsupported id_unknown : ℕ → ManagementId

-- The numbers of the standard that the switch lists without a handler.
abbrev pub is_listed : ℕ → Bool
is_listed n =
    n == 0x6
    || (n == 0x7
        || (n == 0x2013
            || (n == 0x2014
                || (n == 0x2015
                    || (n == 0x2016
                        || (n == 0x2017
                            || (n == 0x2018
                                || (n == 0x2019
                                    || (n == 0x201a
                                        || (n == 0x201b
                                            || (n == 0x201c
                                                || (n == 0x201d
                                                    || (n == 0x201e
                                                        || (n == 0x201f
                                                            || (n == 0x2020
                                                            || (n == 0x2021
                                                            || (n == 0x4000
                                                            || (n == 0x4001
                                                            || (n == 0x4002)))))))))))))))))))

-- The last cases.
unfoldable pub without_handler : ℕ → ManagementId
without_handler n = if is_listed n then id_unsupported n else id_unknown n

-- The case of the switch for a number. `none` stands for the two handlers of texts,
-- `CLOCK_DESCRIPTION` and `USER_DESCRIPTION`.
unfoldable pub management_id_of : ℕ → Option ManagementId
management_id_of n =
    if n == 0x0000
    then some id_null_management
    else if n == 0x0003
    then some id_save_in_non_volatile_storage
    else if n == 0x0004
    then some id_reset_non_volatile_storage
    else if n == 0x0005
    then some id_initialize
    else if n == 0x2000
    then some id_default_data_set
    else if n == 0x2001
    then some id_current_data_set
    else if n == 0x2002
    then some id_parent_data_set
    else if n == 0x2003
    then some id_time_properties_data_set
    else if n == 0x2004
    then some id_port_data_set
    else if n == 0x2005
    then some id_priority1
    else if n == 0x2006
    then some id_priority2
    else if n == 0x2007
    then some id_domain
    else if n == 0x2008
    then some id_slave_only
    else if n == 0x2009
    then some id_log_announce_interval
    else if n == 0x200a
    then some id_announce_receipt_timeout
    else if n == 0x200b
    then some id_log_sync_interval
    else if n == 0x200c
    then some id_version_number
    else if n == 0x200d
    then some id_enable_port
    else if n == 0x200e
    then some id_disable_port
    else if n == 0x200f
    then some id_time
    else if n == 0x2010
    then some id_clock_accuracy
    else if n == 0x2011
    then some id_utc_properties
    else if n == 0x2012
    then some id_traceability_properties
    else if n == 0x6000
    then some id_delay_mechanism
    else if n == 0x6001
    then some id_log_min_pdelay_req_interval
    else if n == 0x0001 || n == 0x0002
    then none
    else some (without_handler n)

-- One value of a type for what has no data.
pub data NoData : Type 0 where
  no_data : NoData

-- The data that a handler reads from the message that came in.
abbrev pub DataOf : ManagementId → Type 0
DataOf id_initialize = ℕ
DataOf id_priority1 = ℕ
DataOf id_priority2 = ℕ
DataOf id_domain = ℕ
DataOf id_slave_only = Bool
DataOf id_log_announce_interval = ℤ
DataOf id_announce_receipt_timeout = ℕ
DataOf id_log_sync_interval = ℤ
DataOf id_version_number = ℕ
DataOf id_clock_accuracy = ℕ
DataOf id_utc_properties = ℤ × ℕ
DataOf id_traceability_properties = ℕ
DataOf id_delay_mechanism = ℕ
DataOf id_log_min_pdelay_req_interval = ℤ
DataOf _ = NoData

-- The switch, for a TLV of management.
unfoldable pub handle_tlv : (id : ManagementId) → DataOf id → Handler
handle_tlv id_initialize key = handle_mm_initialize key
handle_tlv id_default_data_set d = handle_mm_default_data_set
handle_tlv id_current_data_set d = handle_mm_current_data_set
handle_tlv id_parent_data_set d = handle_mm_parent_data_set
handle_tlv id_time_properties_data_set d = handle_mm_time_properties_data_set
handle_tlv id_port_data_set d = handle_mm_port_data_set
handle_tlv id_priority1 d = handle_mm_priority1 d
handle_tlv id_priority2 d = handle_mm_priority2 d
handle_tlv id_domain d = handle_mm_domain d
handle_tlv id_slave_only d = handle_mm_slave_only d
handle_tlv id_log_announce_interval d = handle_mm_log_announce_interval d
handle_tlv id_announce_receipt_timeout d = handle_mm_announce_receipt_timeout d
handle_tlv id_log_sync_interval d = handle_mm_log_sync_interval d
handle_tlv id_version_number d = handle_mm_version_number d
handle_tlv id_clock_accuracy d = handle_mm_clock_accuracy d
handle_tlv id_utc_properties d = handle_mm_utc_properties d.0 d.1
handle_tlv id_traceability_properties d = handle_mm_traceability_properties d
handle_tlv id_delay_mechanism d = handle_mm_delay_mechanism d
handle_tlv id_log_min_pdelay_req_interval d = handle_mm_log_min_pdelay_req_interval d
handle_tlv id_null_management d = handle_mm_null_management
handle_tlv id_save_in_non_volatile_storage d = handle_mm_save_in_non_volatile_storage
handle_tlv id_reset_non_volatile_storage d = handle_mm_reset_non_volatile_storage
handle_tlv id_enable_port d = handle_mm_enable_port
handle_tlv id_disable_port d = handle_mm_disable_port
handle_tlv id_time d = handle_mm_time
handle_tlv (id_unsupported id) d =
    λ incoming outgoing c. (c, handle_error_management_message incoming outgoing c id not_supported)
handle_tlv (id_unknown id) d =
    λ incoming outgoing c. (c, handle_error_management_message incoming outgoing c id no_such_id)

abbrev is_answer : Action → Bool
is_answer response = true
is_answer acknowledge = true
is_answer _ = false

-- Whether the outgoing message is sent.
unfoldable pub is_issued : MsgManagement → Bool
is_issued out =
    if out.tlv.tlv_type == tlv_management
    then is_answer out.action_field
    else out.tlv.tlv_type == tlv_management_error_status
