-- ===== src/Management/Examples.antt =====
-- The answers of a clock to a message that sets its flags of UTC, and to a command with a number
-- that is not assigned; and data on the wire.
use xge_ptpv.Msg.{Buffer}
use xge_ptpv.Common.{◌≡◌, false, some, arith, refl, ltb, lt→ltb, if_true, if◌then◌else◌}
use xge_ptpv.Common.Int.{pos}
use xge_ptpv.Datatypes.{clock_of, zero_header, port_of}
use xge_ptpv.Management.{
  MsgManagement, Action, set, get, command, null_data, mm_utc_properties, no_such_id,
}
use xge_ptpv.Management.Switch.{
  handle_tlv, id_utc_properties, id_unknown, no_data, management_id_of, without_handler,
}
use xge_ptpv.Management.Answers.{Shows, handle_tlv-Shows}
use xge_ptpv.Management.Wire.{pack_data, unpack_data, pack_mm_utc_properties, pack_mm_slave_only}
use xge_ptpv.Management.RoundTrip.{unpack_data-pack_data, Arrived}
use xge_ptpv.Management.Refusal.{Refused}
use xge_ptpv.Management.Numbers.{handle_tlv-Refused}

abbrev message : Action → MsgManagement
message action = record {
  header = zero_header;
  target_port_identity = port_of 1;
  starting_boundary_hops = 0;
  boundary_hops = 0;
  action_field = action;
  tlv = record { tlv_type = 1; length_field = 2; management_id = 0; data_field = null_data };
}

handle_tlv-Shows_example :
    Shows
      (handle_tlv id_utc_properties (pos 37, 0x3d))
      (handle_tlv id_utc_properties (pos 0, 0))
      (message set)
      (message get)
      (clock_of 1)
      (mm_utc_properties (pos 37) 5)
handle_tlv-Shows_example =
    handle_tlv-Shows (message set) (message get) (clock_of 1) refl id_utc_properties (pos 37, 0x3d)
      (pos 0, 0) _ refl

-- Number 0x2022 is not assigned.
handle_tlv-Refused_example :
    Refused
      (handle_tlv (id_unknown 0x2022) no_data)
      (message command)
      (message get)
      (clock_of 1)
      0x2022
      no_such_id
unfolding management_id_of without_handler
handle_tlv-Refused_example =
    handle_tlv-Refused (message command) (message get) (clock_of 1) 0x2022 (id_unknown 0x2022)
      no_data refl refl

abbrev blank : Buffer
blank i = 0xff

-- The octets of the message, and what an earlier message left.
abbrev mixed : Buffer → Buffer
mixed sent i = if ltb i 58 then sent i else 3

mixed-Arrived : (sent : Buffer) → Arrived 4 sent (mixed sent)
mixed-Arrived sent i h = if_true _ _ _ (lt→ltb i 58 h)

unpack_data-pack_data_example :
    unpack_data id_utc_properties (mixed (pack_mm_utc_properties (pos 37) 5 blank))
    ≡ some (pos 37, 5)
unfolding pack_data
unpack_data-pack_data_example =
    unpack_data-pack_data id_utc_properties (pos 37, 5) blank
      (pack_mm_utc_properties (pos 37) 5 blank) _ refl ((omega arith, omega arith), omega arith)
      refl (mixed-Arrived _)

-- A message that clears the flag sets it where the buffer was not 0.
abbrev heard : Buffer
heard i = if ltb i 56 then pack_mm_slave_only false blank i else 3
