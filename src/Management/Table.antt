-- ===== src/Management/Table.antt =====
-- The numbers of the identifiers of management (esl/sw/constants.h) and the actions that they have in
-- IEEE 1588, as far as the handlers go.
use xge_ptpv.Common.{ℕ, Bool, true, false}
use xge_ptpv.Management.{
  Action, get, set, response, command, acknowledge, not_supported, no_such_id,
}
use xge_ptpv.Management.Switch.{
  ManagementId, id_unsupported, id_unknown, id_priority1, id_priority2, id_domain,
  id_log_announce_interval, id_announce_receipt_timeout, id_log_sync_interval, id_version_number,
  id_clock_accuracy, id_utc_properties, id_traceability_properties, id_delay_mechanism,
  id_log_min_pdelay_req_interval, id_default_data_set, id_current_data_set, id_parent_data_set,
  id_time_properties_data_set, id_port_data_set, id_null_management,
  id_save_in_non_volatile_storage, id_reset_non_volatile_storage, id_enable_port, id_disable_port,
  id_time, id_slave_only, id_initialize,
}

-- The number of an identifier.
abbrev pub id_code : ManagementId → ℕ
id_code id_priority1 = 0x2005
id_code id_priority2 = 0x2006
id_code id_domain = 0x2007
id_code id_log_announce_interval = 0x2009
id_code id_announce_receipt_timeout = 0x200A
id_code id_log_sync_interval = 0x200B
id_code id_version_number = 0x200C
id_code id_clock_accuracy = 0x2010
id_code id_utc_properties = 0x2011
id_code id_traceability_properties = 0x2012
id_code id_delay_mechanism = 0x6000
id_code id_log_min_pdelay_req_interval = 0x6001
id_code id_default_data_set = 0x2000
id_code id_current_data_set = 0x2001
id_code id_parent_data_set = 0x2002
id_code id_time_properties_data_set = 0x2003
id_code id_port_data_set = 0x2004
id_code id_null_management = 0
id_code id_save_in_non_volatile_storage = 3
id_code id_reset_non_volatile_storage = 4
id_code id_enable_port = 0x200D
id_code id_disable_port = 0x200E
id_code id_time = 0x200F
id_code id_slave_only = 0x2008
id_code id_initialize = 5
id_code (id_unsupported n) = n
id_code (id_unknown n) = n

-- The actions of a value that can be set, of one that can only be read, and of the others.
abbrev pub is_set_or_get : Action → Bool
is_set_or_get set = true
is_set_or_get get = true
is_set_or_get response = true
is_set_or_get _ = false

abbrev pub is_get : Action → Bool
is_get get = true
is_get response = true
is_get _ = false

abbrev pub is_null : Action → Bool
is_null get = true
is_null set = true
is_null command = true
is_null _ = false

abbrev pub is_only_set_or_get : Action → Bool
is_only_set_or_get set = true
is_only_set_or_get get = true
is_only_set_or_get _ = false

abbrev pub is_initialize : Action → Bool
is_initialize command = true
is_initialize acknowledge = true
is_initialize _ = false

abbrev pub is_command : Action → Bool
is_command command = true
is_command _ = false

-- The actions that an identifier has.
abbrev pub is_supported : ManagementId → Action → Bool
is_supported id_priority1 a = is_set_or_get a
is_supported id_priority2 a = is_set_or_get a
is_supported id_domain a = is_set_or_get a
is_supported id_log_announce_interval a = is_set_or_get a
is_supported id_announce_receipt_timeout a = is_set_or_get a
is_supported id_log_sync_interval a = is_set_or_get a
is_supported id_version_number a = is_set_or_get a
is_supported id_clock_accuracy a = is_set_or_get a
is_supported id_utc_properties a = is_set_or_get a
is_supported id_traceability_properties a = is_set_or_get a
is_supported id_delay_mechanism a = is_set_or_get a
is_supported id_log_min_pdelay_req_interval a = is_set_or_get a
is_supported id_default_data_set a = is_get a
is_supported id_current_data_set a = is_get a
is_supported id_parent_data_set a = is_get a
is_supported id_time_properties_data_set a = is_get a
is_supported id_port_data_set a = is_get a
is_supported id_null_management a = is_null a
is_supported id_save_in_non_volatile_storage a = false
is_supported id_reset_non_volatile_storage a = false
is_supported id_enable_port a = is_command a
is_supported id_disable_port a = is_command a
is_supported id_time a = is_set_or_get a
is_supported id_slave_only a = is_only_set_or_get a
is_supported id_initialize a = is_initialize a
is_supported (id_unsupported n) a = false
is_supported (id_unknown n) a = false

abbrev pub error_of : ManagementId → ℕ
error_of (id_unknown n) = no_such_id
error_of _ = not_supported
