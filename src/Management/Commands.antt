-- ===== src/Management/Commands.antt =====
-- The handlers of esl/sw/management.cpp that act on the port or do nothing.
use xge_ptpv.Common.{ℕ, ◌==◌, if◌then◌else◌}
use xge_ptpv.Datatypes.{PtpClock, PortState, ptp_initializing, ptp_disabled}
use xge_ptpv.Bmc.{is_state}
use xge_ptpv.Management.Message.{
  Handler, get, set, response, command, acknowledge, init_outgoing, answer_with, refuse, taken_in,
  tlv_management, null_data, mm_initialize,
}

abbrev in_state : PortState → PtpClock → PtpClock
in_state s c = record c { port_ds = record c.port_ds { port_state = s } }

-- `handleMMNullManagement`
unfoldable pub handle_mm_null_management : Handler
handle_mm_null_management incoming outgoing c = elim (incoming.action_field) [
  | get ↦ taken_in 0 incoming outgoing c
  | set ↦ taken_in 0 incoming outgoing c
  | command ↦ taken_in 0 incoming outgoing c
  | _ ↦ refuse 0 incoming outgoing c
]

-- `handleMMSaveInNonVolatileStorage`
abbrev pub handle_mm_save_in_non_volatile_storage : Handler
handle_mm_save_in_non_volatile_storage = refuse 3

-- `handleMMResetNonVolatileStorage`
abbrev pub handle_mm_reset_non_volatile_storage : Handler
handle_mm_reset_non_volatile_storage = refuse 4

-- `handleMMInitialize`
unfoldable pub handle_mm_initialize : ℕ → Handler
handle_mm_initialize key incoming outgoing c = elim (incoming.action_field) [
  | command ↦ (
    (if key == 0 then in_state ptp_initializing c else c),
    answer_with acknowledge (mm_initialize key)
        (init_outgoing tlv_management 5 incoming outgoing c),
  )
  | acknowledge ↦ taken_in 5 incoming outgoing c
  | _ ↦ refuse 5 incoming outgoing c
]

-- `handleMMEnablePort`
unfoldable pub handle_mm_enable_port : Handler
handle_mm_enable_port incoming outgoing c = elim (incoming.action_field) [
  | command ↦ (
    (if is_state c.port_state ptp_disabled then in_state ptp_initializing c else c),
    answer_with acknowledge null_data (init_outgoing tlv_management 0x200D incoming outgoing c),
  )
  | _ ↦ refuse 0x200D incoming outgoing c
]

-- `handleMMDisablePort`
unfoldable pub handle_mm_disable_port : Handler
handle_mm_disable_port incoming outgoing c = elim (incoming.action_field) [
  | command ↦ (
    in_state ptp_disabled c,
    answer_with acknowledge null_data (init_outgoing tlv_management 0x200E incoming outgoing c),
  )
  | _ ↦ refuse 0x200E incoming outgoing c
]

-- `handleMMTime`, whose answer has no data.
unfoldable pub handle_mm_time : Handler
handle_mm_time incoming outgoing c =
    let out = init_outgoing tlv_management 0x200F incoming outgoing c in
    elim (incoming.action_field) [
      | set ↦ (c, answer_with response null_data out)
      | get ↦ (c, answer_with response null_data out)
      | response ↦ taken_in 0x200F incoming outgoing c
      | _ ↦ refuse 0x200F incoming outgoing c
    ]
