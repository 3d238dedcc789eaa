-- ===== src/Foreign/Invariant.antt =====
-- The invariant of the foreign master table.
use xge_ptpv.Common.{ℕ, ◌≤◌, ◌<◌, ◌≡◌, ◌≢◌, ◌⊎◌, List, length, get_or-set_self, get_or-set_ne, set}
use xge_ptpv.Datatypes.{PortIdentity, ForeignMasterRecord, ForeignMasterDataSet, zero_record}
use xge_ptpv.Bmc.{record_at}

-- The port that record `i` stands for.
abbrev pub port_at : ForeignMasterDataSet → ℕ → PortIdentity
port_at f i = (record_at f.foreign i).foreign_master_port_identity

pub record IsTable (f : ForeignMasterDataSet) : Type 0 where
  pub allocated : length f.foreign ≡ f.max_foreign_records
  pub has_room : 0 < f.max_foreign_records
  pub number_le : f.number_foreign_records ≤ f.max_foreign_records
  pub next_lt : f.foreign_record_i < f.max_foreign_records
  -- Until the table is full, the next record goes behind the last.
  pub fills :
      f.number_foreign_records < f.max_foreign_records
      → f.foreign_record_i ≡ f.number_foreign_records
  -- Each record's header is from the port that it stands for.
  pub senders :
      (i : ℕ)
      → i < f.number_foreign_records
      → (record_at f.foreign i).header.source_port_identity ≡ port_at f i
  pub octets : (i : ℕ) → i < f.number_foreign_records → length (port_at f i).clock_identity ≡ 8
  -- No port has two records.
  pub distinct :
      (i j : ℕ)
      → i < f.number_foreign_records
      → j < f.number_foreign_records
      → port_at f i ≡ port_at f j
      → i ≡ j

-- The table is empty, or the search for a known master starts at a record of the table.
abbrev pub SearchStarts : ForeignMasterDataSet → Type 0
SearchStarts f = (f.number_foreign_records ≡ 0) ⊎ (f.foreign_record_best < f.number_foreign_records)

pub record_at-set_self :
    (foreign : List ForeignMasterRecord) (i : ℕ) (r : ForeignMasterRecord)
    → i < length foreign
    → record_at (set foreign i r) i ≡ r
unfolding record_at
record_at-set_self foreign i r h = get_or-set_self foreign i r zero_record h

pub record_at-set_ne :
    (foreign : List ForeignMasterRecord) (i j : ℕ) (r : ForeignMasterRecord)
    → i ≢ j
    → record_at (set foreign i r) j ≡ record_at foreign j
unfolding record_at
record_at-set_ne foreign i j r h = get_or-set_ne foreign i j r zero_record h
