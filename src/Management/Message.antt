-- ===== src/Management/Message.antt =====
-- The management message of esl/sw/datatypes.h with its TLV, and what the handlers of
-- esl/sw/management.cpp share. Reserved octets, which every answer clears, are left out.
use xge_ptpv.Common.{ℕ, ◌+◌, ◌-◌, ◌%◌, ◌^◌, Bool}
use xge_ptpv.Common.Int.{ℤ, pos}
use xge_ptpv.Datatypes.{
  MsgHeader, PortIdentity, ClockQuality, ClockIdentity, Integer64, PtpClock, PortState,
}

-- The values of `actionField`; `get` is 0.
pub data Action : Type 0 where
  get set response command acknowledge unknown_action : Action

pub record MmDefaultDataSet : Type 0 where
  pub so_tsc : ℕ
  pub number_ports : ℕ
  pub priority1 : ℕ
  pub clock_quality : ClockQuality
  pub priority2 : ℕ
  pub clock_identity : ClockIdentity
  pub domain_number : ℕ

pub record MmCurrentDataSet : Type 0 where
  pub steps_removed : ℕ
  pub offset_from_master : Integer64
  pub mean_path_delay : Integer64

pub record MmParentDataSet : Type 0 where
  pub parent_port_identity : PortIdentity
  pub ps : Bool
  pub observed_parent_offset_scaled_log_variance : ℕ
  pub observed_parent_clock_phase_change_rate : ℤ
  pub grandmaster_priority1 : ℕ
  pub grandmaster_clock_quality : ClockQuality
  pub grandmaster_priority2 : ℕ
  pub grandmaster_identity : ClockIdentity

pub record MmTimePropertiesDataSet : Type 0 where
  pub current_utc_offset : ℤ
  pub ftra_ttra_ptp_utcv_li59_li61 : ℕ
  pub time_source : ℕ

pub record MmPortDataSet : Type 0 where
  pub port_identity : PortIdentity
  pub port_state : PortState
  pub log_min_delay_req_interval : ℤ
  pub peer_mean_path_delay : Integer64
  pub log_announce_interval : ℤ
  pub announce_receipt_timeout : ℕ
  pub log_sync_interval : ℤ
  pub delay_mechanism : ℕ
  pub log_min_pdelay_req_interval : ℤ
  pub version_number : ℕ

-- What `dataField` points to.
pub data DataField : Type 0 where
  null_data : DataField
  mm_initialize : ℕ → DataField
  mm_default_data_set : MmDefaultDataSet → DataField
  mm_current_data_set : MmCurrentDataSet → DataField
  mm_parent_data_set : MmParentDataSet → DataField
  mm_time_properties_data_set : MmTimePropertiesDataSet → DataField
  mm_port_data_set : MmPortDataSet → DataField
  mm_priority1 mm_priority2 mm_domain : ℕ → DataField
  mm_slave_only : Bool → DataField
  mm_log_announce_interval : ℤ → DataField
  mm_announce_receipt_timeout : ℕ → DataField
  mm_log_sync_interval : ℤ → DataField
  mm_version_number mm_clock_accuracy : ℕ → DataField
  mm_utc_properties : ℤ → ℕ → DataField
  mm_traceability_properties mm_delay_mechanism : ℕ → DataField
  mm_log_min_pdelay_req_interval : ℤ → DataField
  mm_error_status : ℕ → DataField

pub record ManagementTlv : Type 0 where
  pub tlv_type : ℕ
  pub length_field : ℕ
  pub management_id : ℕ
  pub data_field : DataField

pub record MsgManagement : Type 0 where
  pub header : MsgHeader
  pub target_port_identity : PortIdentity
  pub starting_boundary_hops : ℕ
  pub boundary_hops : ℕ
  pub action_field : Action
  pub tlv : ManagementTlv

abbrev pub tlv_management : ℕ
tlv_management = 1

abbrev pub tlv_management_error_status : ℕ
tlv_management_error_status = 2

abbrev pub no_such_id : ℕ
no_such_id = 2

abbrev pub not_supported : ℕ
not_supported = 6

-- `initOutgoingMsgManagement`, and the type, the length and the identifier that its callers put
-- into the TLV at once.
unfoldable pub init_outgoing : ℕ → ℕ → MsgManagement → MsgManagement → PtpClock → MsgManagement
init_outgoing type id incoming outgoing c =
    let hops = (incoming.starting_boundary_hops + 2 ^ 8 - incoming.boundary_hops) % 2 ^ 8 in
    record {
      header = record outgoing.header {
        transport_specific = 0;
        message_type = 13;
        version_ptp = c.version_number;
        domain_number = c.domain_number;
        flag_field0 = 0;
        flag_field1 = 0;
        correction_field = record { lsb = 0; msb = pos 0 };
        source_port_identity = c.port_identity;
        sequence_id = incoming.header.sequence_id;
        control_field = 0;
        log_message_interval = pos 0x7f;
      };
      target_port_identity = incoming.header.source_port_identity;
      starting_boundary_hops = hops;
      boundary_hops = hops;
      action_field = get;
      tlv = record {
        tlv_type = type;
        length_field = 2;
        management_id = id;
        data_field = null_data;
      };
    }

-- An answer with its action and its data.
abbrev pub answer_with : Action → DataField → MsgManagement → MsgManagement
answer_with action d out = record out {
  action_field = action;
  tlv = record out.tlv { data_field = d };
}

-- The switch of `handleErrorManagementMessage`.
abbrev pub error_action : Action → Action
error_action get = response
error_action set = response
error_action response = acknowledge
error_action _ = get

-- `handleErrorManagementMessage`
unfoldable pub handle_error_management_message :
    MsgManagement → MsgManagement → PtpClock → ℕ → ℕ → MsgManagement
handle_error_management_message incoming outgoing c id error =
    answer_with (error_action incoming.action_field) (mm_error_status id)
      (init_outgoing tlv_management_error_status error incoming outgoing c)

-- A handler is given the two messages and the clock.
abbrev pub Handler : Type 0
Handler = MsgManagement → MsgManagement → PtpClock → PtpClock × MsgManagement

-- An action that is not supported.
unfoldable pub refuse : ℕ → Handler
refuse id incoming outgoing c =
    (c, handle_error_management_message incoming outgoing c id not_supported)

-- A response, which is taken in without a reaction.
unfoldable pub taken_in : ℕ → Handler
taken_in id incoming outgoing c = (c, init_outgoing tlv_management id incoming outgoing c)

-- The switch of the handlers that set a value, where the case of `SET` falls through to `GET`.
unfoldable pub set_or_get : ℕ → (PtpClock → PtpClock) → (PtpClock → DataField) → Handler
set_or_get id change shown incoming outgoing c =
    let out = init_outgoing tlv_management id incoming outgoing c in
    elim (incoming.action_field) [
      | set ↦ (change c, answer_with response (shown (change c)) out)
      | get ↦ (c, answer_with response (shown c) out)
      | response ↦ taken_in id incoming outgoing c
      | _ ↦ refuse id incoming outgoing c
    ]

-- The switch of the handlers that only show.
unfoldable pub only_get : ℕ → (PtpClock → DataField) → Handler
only_get id shown incoming outgoing c = elim (incoming.action_field) [
  | get ↦ (c, answer_with response (shown c) (init_outgoing tlv_management id incoming outgoing c))
  | response ↦ taken_in id incoming outgoing c
  | _ ↦ refuse id incoming outgoing c
]
