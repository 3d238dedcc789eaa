-- ===== src/Management/Numbers.antt =====
-- The numbers of the identifiers of management in the switch of esl/sw/protocol.cpp.
use xge_ptpv.Common.{
  ◌≤◌, ◌<◌, ltb, Bool-cases, inl, inr, if_rule, ℕ, ◌≡◌, refl, sym, ap, subst, ◌∙◌, ◌==◌, Bool,
  false, ◌||◌, ◌&&◌, leb, Option, some, none, if◌then◌else◌, arith,
}
use xge_ptpv.Datatypes.{PtpClock}
use xge_ptpv.Management.{MsgManagement, Action, not_supported, no_such_id}
use xge_ptpv.Management.Switch.{
  ManagementId, DataOf, handle_tlv, management_id_of, without_handler, is_listed, id_unsupported,
  id_unknown, id_null_management, id_initialize, id_default_data_set, id_current_data_set,
  id_parent_data_set, id_time_properties_data_set, id_port_data_set, id_slave_only, id_enable_port,
  id_disable_port, id_priority1, id_priority2, id_domain, id_log_announce_interval,
  id_announce_receipt_timeout, id_log_sync_interval, id_version_number, id_time, id_clock_accuracy,
  id_utc_properties, id_traceability_properties, id_delay_mechanism, id_log_min_pdelay_req_interval,
  id_save_in_non_volatile_storage, id_reset_non_volatile_storage,
}
use xge_ptpv.Management.Table.{
  id_code, is_supported, error_of, is_null, is_initialize, is_get, is_set_or_get,
  is_only_set_or_get, is_command,
}
use xge_ptpv.Management.Refusal.{Refused, handle_tlv_unsupported}

abbrev within : ℕ → ℕ → ℕ → Bool
within low high n = leb low n && leb n high

-- The kinds of numbers by the actions that are served.
pub data Kind : Type 0 where
  null_kind initialize_kind read_kind write_kind slave_only_kind port_kind no_kind : Kind

-- 0 is the null management, 5 the initialization, 0x2008 is `SLAVE_ONLY`, 0x200D and 0x200E enable
-- and disable the port, and the values from 0x2005 on can be set.
abbrev pub kind_of : ℕ → Kind
kind_of n =
    if n == 0
    then null_kind
    else if n == 5
    then initialize_kind
    else if within 0x2000 0x2004 n
    then read_kind
    else if n == 0x2008
    then slave_only_kind
    else if within 0x200D 0x200E n
    then port_kind
    else if within 0x2005 0x2012 n || within 0x6000 0x6001 n
    then write_kind
    else no_kind

abbrev pub serves : Kind → Action → Bool
serves null_kind a = is_null a
serves initialize_kind a = is_initialize a
serves read_kind a = is_get a
serves write_kind a = is_set_or_get a
serves slave_only_kind a = is_only_set_or_get a
serves port_kind a = is_command a
serves no_kind a = false

-- The numbers that the standard assigns.
abbrev pub is_assigned : ℕ → Bool
is_assigned n =
    leb n 7 || (within 0x2000 0x2021 n || (within 0x4000 0x4002 n || within 0x6000 0x6001 n))

abbrev kind_at : ManagementId → Kind
kind_at id_null_management = null_kind
kind_at id_initialize = initialize_kind
kind_at id_default_data_set = read_kind
kind_at id_current_data_set = read_kind
kind_at id_parent_data_set = read_kind
kind_at id_time_properties_data_set = read_kind
kind_at id_port_data_set = read_kind
kind_at id_slave_only = slave_only_kind
kind_at id_enable_port = port_kind
kind_at id_disable_port = port_kind
kind_at id_priority1 = write_kind
kind_at id_priority2 = write_kind
kind_at id_domain = write_kind
kind_at id_log_announce_interval = write_kind
kind_at id_announce_receipt_timeout = write_kind
kind_at id_log_sync_interval = write_kind
kind_at id_version_number = write_kind
kind_at id_time = write_kind
kind_at id_clock_accuracy = write_kind
kind_at id_utc_properties = write_kind
kind_at id_traceability_properties = write_kind
kind_at id_delay_mechanism = write_kind
kind_at id_log_min_pdelay_req_interval = write_kind
kind_at id_save_in_non_volatile_storage = no_kind
kind_at id_reset_non_volatile_storage = no_kind
kind_at (id_unsupported n) = no_kind
kind_at (id_unknown n) = no_kind

supported-kind_at : (id : ManagementId) (a : Action) → is_supported id a ≡ serves (kind_at id) a
supported-kind_at id_null_management a = refl
supported-kind_at id_initialize a = refl
supported-kind_at id_default_data_set a = refl
supported-kind_at id_current_data_set a = refl
supported-kind_at id_parent_data_set a = refl
supported-kind_at id_time_properties_data_set a = refl
supported-kind_at id_port_data_set a = refl
supported-kind_at id_slave_only a = refl
supported-kind_at id_enable_port a = refl
supported-kind_at id_disable_port a = refl
supported-kind_at id_priority1 a = refl
supported-kind_at id_priority2 a = refl
supported-kind_at id_domain a = refl
supported-kind_at id_log_announce_interval a = refl
supported-kind_at id_announce_receipt_timeout a = refl
supported-kind_at id_log_sync_interval a = refl
supported-kind_at id_version_number a = refl
supported-kind_at id_time a = refl
supported-kind_at id_clock_accuracy a = refl
supported-kind_at id_utc_properties a = refl
supported-kind_at id_traceability_properties a = refl
supported-kind_at id_delay_mechanism a = refl
supported-kind_at id_log_min_pdelay_req_interval a = refl
supported-kind_at id_save_in_non_volatile_storage a = refl
supported-kind_at id_reset_non_volatile_storage a = refl
supported-kind_at (id_unsupported n) a = refl
supported-kind_at (id_unknown n) a = refl

abbrev kind_found : Option ManagementId → Kind
kind_found (some id) = kind_at id
kind_found none = no_kind

abbrev code_at : ℕ → Option ManagementId → ℕ
code_at n (some id) = id_code id
code_at n none = n

abbrev error_at : Option ManagementId → ℕ
error_at (some id) = error_of id
error_at none = not_supported

without_handler-kind_at : (n : ℕ) → kind_at (without_handler n) ≡ no_kind
unfolding without_handler
without_handler-kind_at n =
    if_rule (λ id. kind_at id ≡ no_kind) (is_listed n) (λ e. refl) (λ e. refl)

first_kinds : (n : ℕ) → n ≤ 5 → kind_found (management_id_of n) ≡ kind_of n
unfolding management_id_of
first_kinds n h = ground arith

between_kinds : (n : ℕ) → 5 < n → n < 0x2000 → kind_found (management_id_of n) ≡ kind_of n
unfolding management_id_of
between_kinds n h k = ground (arith, without_handler-kind_at n)

low_kinds : (n : ℕ) → 0x2000 ≤ n → n ≤ 0x2008 → kind_found (management_id_of n) ≡ kind_of n
unfolding management_id_of
low_kinds n h k = ground arith

middle_kinds : (n : ℕ) → 0x2008 < n → n ≤ 0x2012 → kind_found (management_id_of n) ≡ kind_of n
unfolding management_id_of
middle_kinds n h k = ground arith

high_kinds : (n : ℕ) → 0x2012 < n → n < 0x6000 → kind_found (management_id_of n) ≡ kind_of n
unfolding management_id_of
high_kinds n h k = ground (arith, without_handler-kind_at n)

last_kinds : (n : ℕ) → 0x6000 ≤ n → kind_found (management_id_of n) ≡ kind_of n
unfolding management_id_of
last_kinds n h = ground (arith, without_handler-kind_at n)

kind-management_id_of : (n : ℕ) → kind_found (management_id_of n) ≡ kind_of n
kind-management_id_of n = elim (Bool-cases (leb n 5)) [
  | inl a ↦ first_kinds n (ground arith)
  | inr a ↦ elim (Bool-cases (ltb n 0x2000)) [
    | inl b ↦ between_kinds n (ground arith) (ground arith)
    | inr b ↦ elim (Bool-cases (leb n 0x2008)) [
      | inl c ↦ low_kinds n (ground arith) (ground arith)
      | inr c ↦ elim (Bool-cases (leb n 0x2012)) [
        | inl d ↦ middle_kinds n (ground arith) (ground arith)
        | inr d ↦ elim (Bool-cases (ltb n 0x6000)) [
          | inl e ↦ high_kinds n (ground arith) (ground arith)
          | inr e ↦ last_kinds n (ground arith)
        ]
      ]
    ]
  ]
]

without_handler-id_code : (n : ℕ) → id_code (without_handler n) ≡ n
unfolding without_handler
without_handler-id_code n = if_rule (λ id. id_code id ≡ n) (is_listed n) (λ e. refl) (λ e. refl)

code-management_id_of : (n : ℕ) → code_at n (management_id_of n) ≡ n
unfolding management_id_of
code-management_id_of n = ground (arith, without_handler-id_code n)

error-management_id_of :
    (n : ℕ) → error_at (management_id_of n) ≡ (if is_assigned n then not_supported else no_such_id)
unfolding management_id_of without_handler
error-management_id_of n = ground arith

module _ (incoming outgoing : MsgManagement) (c : PtpClock) where
  -- A message of management under a number and with an action that are not served together, by the
  -- ranges of the numbers, whatever its data, leaves the clock as it is and is answered by an error
  -- status that names the number, with the error NOT_SUPPORTED if the standard assigns the number
  -- and NO_SUCH_ID if not; the answer is sent. The numbers 1 and 2 are left out.
  pub handle_tlv-Refused :
      (n : ℕ) (id : ManagementId) (d : DataOf id)
      → management_id_of n ≡ some id
      → serves (kind_of n) incoming.action_field ≡ false
      → Refused
          (handle_tlv id d)
          incoming
          outgoing
          c
          n
          (if is_assigned n then not_supported else no_such_id)
  handle_tlv-Refused n id d e f =
      let action = incoming.action_field in
      let code : id_code id ≡ n = sym (ap (code_at n) e) ∙ code-management_id_of n in
      let error : error_of id ≡ (if is_assigned n then not_supported else no_such_id) =
        sym (ap error_at e) ∙ error-management_id_of n in
      let kind : kind_at id ≡ kind_of n = sym (ap kind_found e) ∙ kind-management_id_of n in
      let unsupported : is_supported id action ≡ false =
        supported-kind_at id action ∙ ap (λ k. serves k action) kind ∙ f in
      subst
        (λ m.
          Refused (handle_tlv id d) incoming outgoing c m
            (if is_assigned n then not_supported else no_such_id))
        code
        (subst (Refused (handle_tlv id d) incoming outgoing c (id_code id)) error
          (handle_tlv_unsupported incoming outgoing c id d unsupported))
