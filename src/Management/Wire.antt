-- ===== src/Management/Wire.antt =====
-- The data of the management messages that set a value, on the wire: the packing and unpacking of
-- esl/sw/dep/msg.cpp, by the layouts of esl/sw/def/managementTLV. The data begin at octet 54.
use xge_ptpv.Common.{ℕ, ◌+◌, ◌*◌, ◌^◌, ◌==◌, not, Bool, Option, none, some, if◌then◌else◌}
use xge_ptpv.Common.Int.{ℤ, pos, residue, int8, int16}
use xge_ptpv.Msg.{Buffer, ◌▷◌, put8, put16, put_int8, get16}
use xge_ptpv.Management.Switch.{
  ManagementId, DataOf, id_initialize, id_slave_only, id_utc_properties, id_priority1, id_priority2,
  id_domain, id_announce_receipt_timeout, id_clock_accuracy, id_traceability_properties,
  id_delay_mechanism, id_log_announce_interval, id_log_sync_interval,
  id_log_min_pdelay_req_interval,
}

-- One octet, and the reserved one.
unfoldable pub pack_octet : ℕ → Buffer → Buffer
pack_octet v b = b ▷ put8 54 v ▷ put8 55 0

abbrev pub unpack_octet : Buffer → ℕ
unpack_octet b = b 54

unfoldable pub pack_signed : ℤ → Buffer → Buffer
pack_signed v b = b ▷ put_int8 54 v ▷ put8 55 0

abbrev pub unpack_signed : Buffer → ℤ
unpack_signed b = int8 (pos (b 54))

-- `packMMSlaveOnly` and `unpackMMSlaveOnly`: a Boolean is an `int`, and takes four octets of the
-- buffer.
unfoldable pub pack_mm_slave_only : Bool → Buffer → Buffer
pack_mm_slave_only so b =
    b ▷ put8 54 (if so then 1 else 0) ▷ put8 55 0 ▷ put8 56 0 ▷ put8 57 0 ▷ put8 55 0

abbrev pub unpack_mm_slave_only : Buffer → Bool
unpack_mm_slave_only b = not (b 54 + b 55 * 2 ^ 8 + b 56 * 2 ^ 16 + b 57 * 2 ^ 24 == 0)

unfoldable pub pack_mm_utc_properties : ℤ → ℕ → Buffer → Buffer
pack_mm_utc_properties offset flags b =
    b ▷ put16 54 (residue (2 ^ 16) offset) ▷ put8 56 flags ▷ put8 57 0

abbrev pub unpack_mm_utc_properties : Buffer → ℤ × ℕ
unpack_mm_utc_properties b = (int16 (pos (get16 b 54)), b 56)

unfoldable pub pack_mm_initialize : ℕ → Buffer → Buffer
pack_mm_initialize key = put16 54 key

abbrev pub unpack_mm_initialize : Buffer → ℕ
unpack_mm_initialize b = get16 b 54

-- The messages with one octet, and those with a signed one.
abbrev pub pack_mm_priority1 : ℕ → Buffer → Buffer
pack_mm_priority1 = pack_octet

abbrev pub unpack_mm_priority1 : Buffer → ℕ
unpack_mm_priority1 = unpack_octet

abbrev pub pack_mm_priority2 : ℕ → Buffer → Buffer
pack_mm_priority2 = pack_octet

abbrev pub unpack_mm_priority2 : Buffer → ℕ
unpack_mm_priority2 = unpack_octet

abbrev pub pack_mm_domain : ℕ → Buffer → Buffer
pack_mm_domain = pack_octet

abbrev pub unpack_mm_domain : Buffer → ℕ
unpack_mm_domain = unpack_octet

abbrev pub pack_mm_announce_receipt_timeout : ℕ → Buffer → Buffer
pack_mm_announce_receipt_timeout = pack_octet

abbrev pub unpack_mm_announce_receipt_timeout : Buffer → ℕ
unpack_mm_announce_receipt_timeout = unpack_octet

abbrev pub pack_mm_clock_accuracy : ℕ → Buffer → Buffer
pack_mm_clock_accuracy = pack_octet

abbrev pub unpack_mm_clock_accuracy : Buffer → ℕ
unpack_mm_clock_accuracy = unpack_octet

abbrev pub pack_mm_traceability_properties : ℕ → Buffer → Buffer
pack_mm_traceability_properties = pack_octet

abbrev pub unpack_mm_traceability_properties : Buffer → ℕ
unpack_mm_traceability_properties = unpack_octet

abbrev pub pack_mm_delay_mechanism : ℕ → Buffer → Buffer
pack_mm_delay_mechanism = pack_octet

abbrev pub unpack_mm_delay_mechanism : Buffer → ℕ
unpack_mm_delay_mechanism = unpack_octet

abbrev pub pack_mm_log_announce_interval : ℤ → Buffer → Buffer
pack_mm_log_announce_interval = pack_signed

abbrev pub unpack_mm_log_announce_interval : Buffer → ℤ
unpack_mm_log_announce_interval = unpack_signed

abbrev pub pack_mm_log_sync_interval : ℤ → Buffer → Buffer
pack_mm_log_sync_interval = pack_signed

abbrev pub unpack_mm_log_sync_interval : Buffer → ℤ
unpack_mm_log_sync_interval = unpack_signed

abbrev pub pack_mm_log_min_pdelay_req_interval : ℤ → Buffer → Buffer
pack_mm_log_min_pdelay_req_interval = pack_signed

abbrev pub unpack_mm_log_min_pdelay_req_interval : Buffer → ℤ
unpack_mm_log_min_pdelay_req_interval = unpack_signed

-- By identifier, as far as modelled.
unfoldable pub pack_data : (id : ManagementId) → DataOf id → Buffer → Option Buffer
pack_data id_priority1 v b = some (pack_mm_priority1 v b)
pack_data id_priority2 v b = some (pack_mm_priority2 v b)
pack_data id_domain v b = some (pack_mm_domain v b)
pack_data id_announce_receipt_timeout v b = some (pack_mm_announce_receipt_timeout v b)
pack_data id_clock_accuracy v b = some (pack_mm_clock_accuracy v b)
pack_data id_traceability_properties v b = some (pack_mm_traceability_properties v b)
pack_data id_delay_mechanism v b = some (pack_mm_delay_mechanism v b)
pack_data id_log_announce_interval v b = some (pack_mm_log_announce_interval v b)
pack_data id_log_sync_interval v b = some (pack_mm_log_sync_interval v b)
pack_data id_log_min_pdelay_req_interval v b = some (pack_mm_log_min_pdelay_req_interval v b)
pack_data id_slave_only v b = some (pack_mm_slave_only v b)
pack_data id_utc_properties v b = some (pack_mm_utc_properties v.0 v.1 b)
pack_data id_initialize v b = some (pack_mm_initialize v b)
pack_data _ v b = none

unfoldable pub unpack_data : (id : ManagementId) → Buffer → Option (DataOf id)
unpack_data id_priority1 b = some (unpack_mm_priority1 b)
unpack_data id_priority2 b = some (unpack_mm_priority2 b)
unpack_data id_domain b = some (unpack_mm_domain b)
unpack_data id_announce_receipt_timeout b = some (unpack_mm_announce_receipt_timeout b)
unpack_data id_clock_accuracy b = some (unpack_mm_clock_accuracy b)
unpack_data id_traceability_properties b = some (unpack_mm_traceability_properties b)
unpack_data id_delay_mechanism b = some (unpack_mm_delay_mechanism b)
unpack_data id_log_announce_interval b = some (unpack_mm_log_announce_interval b)
unpack_data id_log_sync_interval b = some (unpack_mm_log_sync_interval b)
unpack_data id_log_min_pdelay_req_interval b = some (unpack_mm_log_min_pdelay_req_interval b)
unpack_data id_slave_only b = some (unpack_mm_slave_only b)
unpack_data id_utc_properties b = some (unpack_mm_utc_properties b)
unpack_data id_initialize b = some (unpack_mm_initialize b)
unpack_data _ b = none
