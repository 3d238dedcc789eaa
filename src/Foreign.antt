-- ===== src/Foreign.antt =====
-- The foreign master table: `addForeign` of esl/sw/protocol.cpp.
pub mod Search
pub mod Invariant
pub mod Stored
pub mod Table
pub mod Map
pub mod Stale
mod Examples
use xge_ptpv.Common.{
  ℕ, zero, suc, ◌+◌, ◌%◌, ◌^◌, Bool, true, false, ◌&&◌, List, Option, none, some, ltb, ◌==◌,
  if◌then◌else◌, memcmp, is_eq, set,
}
use xge_ptpv.Datatypes.{
  PortIdentity, MsgHeader, PtpClock, ForeignMasterRecord, ForeignMasterDataSet,
}
use xge_ptpv.Bmc.{record_at}
use xge_ptpv.Msg.{Buffer, msg_unpack_header, msg_unpack_announce}

-- `!memcmp(...) && portNumber == portNumber`
abbrev pub same_port : PortIdentity → PortIdentity → Bool
same_port p q = is_eq (memcmp p.clock_identity q.clock_identity) && p.port_number == q.port_number

-- The loop of `addForeign` at slot `j`, with `left` rounds to go, over `n` records: the slot of the
-- known master.
unfoldable pub find_known : List ForeignMasterRecord → PortIdentity → ℕ → ℕ → ℕ → Option ℕ
find_known foreign source n zero j = none
find_known foreign source n (suc left) j =
    elim (same_port source (record_at foreign j).foreign_master_port_identity) [
      | true ↦ some j
      | false ↦ find_known foreign source n left ((j + 1) % n)
    ]

-- The record of a known master, with the new announce.
abbrev pub refreshed : Buffer → ForeignMasterRecord → ForeignMasterRecord
refreshed buf old = record old {
  foreign_master_announce_messages = (old.foreign_master_announce_messages + 1) % 2 ^ 16;
  header = msg_unpack_header buf;
  announce = msg_unpack_announce buf;
}

-- A known master.
unfoldable pub refresh : Buffer → ℕ → ForeignMasterDataSet → ForeignMasterDataSet
refresh buf j f = record f { foreign = set f.foreign j (refreshed buf (record_at f.foreign j)) }

-- The record of a new master.
abbrev pub admitted : Buffer → MsgHeader → ForeignMasterRecord
admitted buf header = record {
  foreign_master_port_identity = header.source_port_identity;
  foreign_master_announce_messages = 0;
  header = msg_unpack_header buf;
  announce = msg_unpack_announce buf;
}

-- A new master goes to slot `foreign_record_i`.
unfoldable pub admit : Buffer → MsgHeader → ForeignMasterDataSet → ForeignMasterDataSet
admit buf header f = record f {
  number_foreign_records =
      if ltb f.number_foreign_records f.max_foreign_records
      then f.number_foreign_records + 1
      else f.number_foreign_records;
  foreign = set f.foreign f.foreign_record_i (admitted buf header);
  foreign_record_i = (f.foreign_record_i + 1) % f.max_foreign_records;
}

abbrev pub known_slot : MsgHeader → ForeignMasterDataSet → Option ℕ
known_slot header f =
    find_known f.foreign header.source_port_identity f.number_foreign_records
      f.number_foreign_records f.foreign_record_best

-- `addForeign` on the foreign master data set.
unfoldable pub add_record : Buffer → MsgHeader → ForeignMasterDataSet → ForeignMasterDataSet
add_record buf header f = elim (known_slot header f) [
  | some j ↦ refresh buf j f
  | none ↦ admit buf header f
]

-- `addForeign`
unfoldable pub add_foreign : Buffer → MsgHeader → PtpClock → PtpClock
add_foreign buf header c = record c { foreign_ds = add_record buf header c.foreign_ds }
