-- ===== src/Management/RoundTrip.antt =====
-- The data of a management message go over the wire unchanged.
use xge_ptpv.Common.{
  ◌+◌, Bool, true, false, ℕ, ◌%◌, ◌^◌, ◌<◌, ◌≡◌, sym, ap, ◌∙◌, Bool, true, false, none, some, arith,
}
use mathlib.Core.Bool.{false≢true}
use xge_ptpv.Common.Int.{
  ℤ, pos, residue, int8, int16, int8-residue, int16-residue, residue-lt, Fits8, Fits16,
}
use xge_ptpv.Msg.{Buffer, put8, put16, put_int8, get16}
use xge_ptpv.Management.Switch.{
  ManagementId, DataOf, id_initialize, id_slave_only, id_utc_properties, id_unsupported, id_unknown,
  id_priority1, id_priority2, id_domain, id_announce_receipt_timeout, id_clock_accuracy,
  id_traceability_properties, id_delay_mechanism, id_log_announce_interval, id_log_sync_interval,
  id_log_min_pdelay_req_interval, id_default_data_set, id_current_data_set, id_parent_data_set,
  id_time_properties_data_set, id_port_data_set, id_version_number, id_null_management,
  id_save_in_non_volatile_storage, id_reset_non_volatile_storage, id_enable_port, id_disable_port,
  id_time,
}
use xge_ptpv.Management.Wire.{
  pack_data, unpack_data, pack_octet, pack_signed, pack_mm_utc_properties, pack_mm_initialize,
  unpack_octet, unpack_signed, unpack_mm_utc_properties, unpack_mm_initialize,
}

-- The values of the fields' types.
abbrev pub Fits : (id : ManagementId) → DataOf id → Type 0
Fits id_priority1 v = v < 2 ^ 8
Fits id_priority2 v = v < 2 ^ 8
Fits id_domain v = v < 2 ^ 8
Fits id_announce_receipt_timeout v = v < 2 ^ 8
Fits id_clock_accuracy v = v < 2 ^ 8
Fits id_traceability_properties v = v < 2 ^ 8
Fits id_delay_mechanism v = v < 2 ^ 8
Fits id_log_announce_interval v = Fits8 v
Fits id_log_sync_interval v = Fits8 v
Fits id_log_min_pdelay_req_interval v = Fits8 v
Fits id_utc_properties v = Fits16 v.0 × (v.1 < 2 ^ 8)
Fits id_initialize v = v < 2 ^ 16
Fits _ v = true ≡ true

octet_back : (v : ℕ) (b : Buffer) → v < 2 ^ 8 → unpack_octet (pack_octet v b) ≡ v
unfolding pack_octet put8
octet_back v b h = omega arith

signed_back : (v : ℤ) (b : Buffer) → Fits8 v → unpack_signed (pack_signed v b) ≡ v
unfolding pack_signed put_int8 put8
signed_back v b h = ap (λ n. int8 (pos n)) (omega (arith, residue-lt (2 ^ 8) v)) ∙ int8-residue v h

utc_back :
    (o : ℤ) (f : ℕ) (b : Buffer)
    → Fits16 o
    → f < 2 ^ 8
    → unpack_mm_utc_properties (pack_mm_utc_properties o f b) ≡ (o, f)
unfolding pack_mm_utc_properties put16 put8
utc_back o f b h k =
    let offset : get16 (pack_mm_utc_properties o f b) 54 ≡ residue (2 ^ 16) o =
      omega (arith, residue-lt (2 ^ 16) o) in
    let flags : f % 2 ^ 8 ≡ f = omega arith in
    ap (λ n. (int16 (pos n), f % 2 ^ 8)) offset
    ∙ ap (λ z. (z, f % 2 ^ 8)) (int16-residue o h)
    ∙ ap (λ n. (o, n)) flags

initialize_back :
    (v : ℕ) (b : Buffer) → v < 2 ^ 16 → unpack_mm_initialize (pack_mm_initialize v b) ≡ v
unfolding pack_mm_initialize put16 put8
initialize_back v b h = omega arith

some_inj : {A : Type 0} (x y : A) → some x ≡ some y → x ≡ y
some_inj x y e = ap (λ o. elim o [ some z ↦ z | none ↦ x ]) e

-- The octets of the data, which end the message.
abbrev pub data_size : ManagementId → ℕ
data_size id_utc_properties = 4
data_size id = 2

-- The octets that were sent have come in; the others are whatever the buffer held.
abbrev pub Arrived : ℕ → Buffer → Buffer → Type 0
Arrived size sent b = (i : ℕ) → i < 54 + size → b i ≡ sent i

octet_comes :
    (v : ℕ) (old sent b : Buffer)
    → v < 2 ^ 8
    → some (pack_octet v old) ≡ some sent
    → Arrived 2 sent b
    → some (unpack_octet b) ≡ some v
octet_comes v old sent b h e a = ap some (
    a 54 (omega arith)
    ∙ ap unpack_octet (sym (some_inj (pack_octet v old) sent e))
    ∙ octet_back v old h)

signed_comes :
    (v : ℤ) (old sent b : Buffer)
    → Fits8 v
    → some (pack_signed v old) ≡ some sent
    → Arrived 2 sent b
    → some (unpack_signed b) ≡ some v
signed_comes v old sent b h e a =
    ap (λ n. some (int8 (pos n))) (a 54 (omega arith))
    ∙ ap (λ q. some (unpack_signed q)) (sym (some_inj (pack_signed v old) sent e))
    ∙ ap some (signed_back v old h)

utc_comes :
    (o : ℤ) (f : ℕ) (old sent b : Buffer)
    → Fits16 o
    → f < 2 ^ 8
    → some (pack_mm_utc_properties o f old) ≡ some sent
    → Arrived 4 sent b
    → some (unpack_mm_utc_properties b) ≡ some (o, f)
utc_comes o f old sent b h k e a =
    let first = a 54 (omega arith) in
    let second : b (54 + 1) ≡ sent (54 + 1) = a 55 (omega arith) in
    let word : get16 b 54 ≡ get16 sent 54 = omega arith in
    ap (λ n. some (int16 (pos n), b 56)) word
    ∙ ap (λ n. some (int16 (pos (get16 sent 54)), n)) (a 56 (omega arith))
    ∙ ap (λ q. some (unpack_mm_utc_properties q))
        (sym (some_inj (pack_mm_utc_properties o f old) sent e))
    ∙ ap some (utc_back o f old h k)

initialize_comes :
    (v : ℕ) (old sent b : Buffer)
    → v < 2 ^ 16
    → some (pack_mm_initialize v old) ≡ some sent
    → Arrived 2 sent b
    → some (unpack_mm_initialize b) ≡ some v
initialize_comes v old sent b h e a =
    let first = a 54 (omega arith) in
    let second : b (54 + 1) ≡ sent (54 + 1) = a 55 (omega arith) in
    let word : get16 b 54 ≡ get16 sent 54 = omega arith in
    ap some word
    ∙ ap (λ q. some (unpack_mm_initialize q)) (sym (some_inj (pack_mm_initialize v old) sent e))
    ∙ ap some (initialize_back v old h)

-- The identifiers whose data are read from the octets that are sent, as far as modelled: the values
-- that can be set but `SLAVE_ONLY`, `VERSION_NUMBER` and `TIME`, and `INITIALIZE`.
abbrev pub is_carried : ManagementId → Bool
is_carried id_priority1 = true
is_carried id_priority2 = true
is_carried id_domain = true
is_carried id_announce_receipt_timeout = true
is_carried id_clock_accuracy = true
is_carried id_traceability_properties = true
is_carried id_delay_mechanism = true
is_carried id_log_announce_interval = true
is_carried id_log_sync_interval = true
is_carried id_log_min_pdelay_req_interval = true
is_carried id_utc_properties = true
is_carried id_initialize = true
is_carried id = false

-- For `PRIORITY1`, `PRIORITY2`, `DOMAIN`, the three intervals, `ANNOUNCE_RECEIPT_TIMEOUT`,
-- `CLOCK_ACCURACY`, `UTC_PROPERTIES`, `TRACEABILITY_PROPERTIES`, `DELAY_MECHANISM` and `INITIALIZE`:
-- data within the range of their types that are packed into one buffer are read from any other
-- buffer into which the octets of the message have come, whatever the two buffers held before.
pub unpack_data-pack_data :
    (id : ManagementId) (d : DataOf id) (old sent b : Buffer)
    → is_carried id ≡ true
    → Fits id d
    → pack_data id d old ≡ some sent
    → Arrived (data_size id) sent b
    → unpack_data id b ≡ some d
unfolding pack_data unpack_data
unpack_data-pack_data id_priority1 d old sent b c h e a = octet_comes d old sent b h e a
unpack_data-pack_data id_priority2 d old sent b c h e a = octet_comes d old sent b h e a
unpack_data-pack_data id_domain d old sent b c h e a = octet_comes d old sent b h e a
unpack_data-pack_data id_announce_receipt_timeout d old sent b c h e a =
    octet_comes d old sent b h e a
unpack_data-pack_data id_clock_accuracy d old sent b c h e a = octet_comes d old sent b h e a
unpack_data-pack_data id_traceability_properties d old sent b c h e a =
    octet_comes d old sent b h e a
unpack_data-pack_data id_delay_mechanism d old sent b c h e a = octet_comes d old sent b h e a
unpack_data-pack_data id_log_announce_interval d old sent b c h e a =
    signed_comes d old sent b h e a
unpack_data-pack_data id_log_sync_interval d old sent b c h e a = signed_comes d old sent b h e a
unpack_data-pack_data id_log_min_pdelay_req_interval d old sent b c h e a =
    signed_comes d old sent b h e a
unpack_data-pack_data id_utc_properties d old sent b c h e a =
    utc_comes d.0 d.1 old sent b h.0 h.1 e a
unpack_data-pack_data id_initialize d old sent b c h e a = initialize_comes d old sent b h e a
unpack_data-pack_data id_default_data_set d old sent b c h e a = absurd (false≢true c)
unpack_data-pack_data id_current_data_set d old sent b c h e a = absurd (false≢true c)
unpack_data-pack_data id_parent_data_set d old sent b c h e a = absurd (false≢true c)
unpack_data-pack_data id_time_properties_data_set d old sent b c h e a = absurd (false≢true c)
unpack_data-pack_data id_port_data_set d old sent b c h e a = absurd (false≢true c)
unpack_data-pack_data id_version_number d old sent b c h e a = absurd (false≢true c)
unpack_data-pack_data id_null_management d old sent b c h e a = absurd (false≢true c)
unpack_data-pack_data id_save_in_non_volatile_storage d old sent b c h e a = absurd (false≢true c)
unpack_data-pack_data id_reset_non_volatile_storage d old sent b c h e a = absurd (false≢true c)
unpack_data-pack_data id_enable_port d old sent b c h e a = absurd (false≢true c)
unpack_data-pack_data id_disable_port d old sent b c h e a = absurd (false≢true c)
unpack_data-pack_data id_time d old sent b c h e a = absurd (false≢true c)
unpack_data-pack_data id_slave_only d old sent b c h e a = absurd (false≢true c)
unpack_data-pack_data (id_unsupported n) d old sent b c h e a = absurd (false≢true c)
unpack_data-pack_data (id_unknown n) d old sent b c h e a = absurd (false≢true c)
