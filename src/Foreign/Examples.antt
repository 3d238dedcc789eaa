-- ===== src/Foreign/Examples.antt =====
-- The theorems on the foreign master table at a table of two masters.
use xge_ptpv.Common.{ℕ, zero, suc, ◌≡◌, ◌≢◌, ◌<◌, ◌↔◌, refl, ap, inl, inr, length, get_or, arith}
use xge_ptpv.Datatypes.{
  MsgHeader, MsgAnnounce, ForeignMasterDataSet, PortIdentity, clock_of, sample_opts,
}
use xge_ptpv.Bmc.{record_at, init_data}
use xge_ptpv.Msg.{Buffer, msg_unpack_header, msg_unpack_announce, msg_pack_announce}
use xge_ptpv.Foreign.{add_record, add_foreign}
use xge_ptpv.Foreign.Invariant.{port_at, IsTable}
use xge_ptpv.Foreign.Table.{Added, add_record-Added}
use xge_ptpv.Foreign.Map.{Maps, add_record-Maps}
use xge_ptpv.Foreign.Stale.{init_data-add_foreign}

abbrev blank : Buffer
blank i = 0

-- An announce of clock 5, as received.
abbrev message : Buffer
message = msg_pack_announce blank (clock_of 5)

abbrev header : MsgHeader
header = msg_unpack_header message

-- The records are of clocks 7 and 9.
abbrev table : ForeignMasterDataSet
table = (clock_of 1).foreign_ds

octet : PortIdentity → ℕ
octet p = get_or p.clock_identity 7 0

table_senders :
    (i : ℕ) → i < 2 → (record_at table.foreign i).header.source_port_identity ≡ port_at table i
unfolding record_at
table_senders zero h = refl
table_senders (suc zero) h = refl
table_senders (suc (suc i)) h = absurd (omega arith)

table_octets : (i : ℕ) → i < 2 → length (port_at table i).clock_identity ≡ 8
unfolding record_at
table_octets zero h = refl
table_octets (suc zero) h = refl
table_octets (suc (suc i)) h = absurd (omega arith)

table_distinct : (i j : ℕ) → i < 2 → j < 2 → port_at table i ≡ port_at table j → i ≡ j
unfolding record_at octet
table_distinct zero zero h l e = refl
table_distinct zero (suc zero) h l e = absurd (omega (arith, ap octet e))
table_distinct (suc zero) zero h l e = absurd (omega (arith, ap octet e))
table_distinct (suc zero) (suc zero) h l e = refl
table_distinct (suc (suc i)) j h l e = absurd (omega arith)
table_distinct i (suc (suc j)) h l e = absurd (omega arith)

table-IsTable : IsTable table
table-IsTable = record {
  allocated = refl;
  has_room = omega arith;
  number_le = omega arith;
  next_lt = omega arith;
  fills = λ h. refl;
  senders = table_senders;
  octets = table_octets;
  distinct = table_distinct;
}

header_octets : length header.source_port_identity.clock_identity ≡ 8
unfolding msg_unpack_header
header_octets = refl

add_record-Added_example :
    Added message header table table-IsTable
      (inr (omega arith))
      refl
      header_octets
      (add_record message header table)
add_record-Added_example =
    add_record-Added message header table table-IsTable (inr (omega arith)) refl header_octets

add_record-Maps_example :
    Maps (add_record message header table) header.source_port_identity (msg_unpack_announce message)
    × ((p : PortIdentity)
        → p ≢ header.source_port_identity
        → (a : MsgAnnounce) → Maps (add_record message header table) p a ↔ Maps table p a)
add_record-Maps_example =
    add_record-Maps message header table table-IsTable (inr (omega arith)) refl header_octets
      (inl (omega arith))

init_data-add_foreign_example :
    ((add_foreign message header (init_data sample_opts (clock_of 1)).1).number_foreign_records ≡ 1)
    × (record_at (add_foreign message header (init_data sample_opts (clock_of 1)).1).foreign 0
        ≡ record_at table.foreign 0)
init_data-add_foreign_example =
    init_data-add_foreign sample_opts (clock_of 1) message header (omega arith) (omega arith)
