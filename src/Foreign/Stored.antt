-- ===== src/Foreign/Stored.antt =====
-- What `addForeign` writes into the foreign master table, and what the table then says.
use xge_ptpv.Common.{ℕ, ◌<◌, ◌≡◌, ◌≢◌, refl, sym, ◌∙◌, ap, length, length-set, arith}
use native.Mathlib.Decide.{ℕ_discrete}
use xge_ptpv.Datatypes.{MsgHeader, ForeignMasterRecord, ForeignMasterDataSet}
use xge_ptpv.Bmc.{record_at}
use xge_ptpv.Msg.{Buffer, msg_unpack_header, msg_unpack_announce}
use xge_ptpv.Foreign.{refreshed, refresh, admitted, admit}
use xge_ptpv.Foreign.Invariant.{port_at, IsTable, record_at-set_self, record_at-set_ne}

module _ (buf : Buffer) (header : MsgHeader) (f : ForeignMasterDataSet) where
  -- What a record of the table says of a port that announces.
  pub record Tells (r : ForeignMasterRecord) : Type 0 where
    pub port : r.foreign_master_port_identity ≡ header.source_port_identity
    pub header_is : r.header ≡ header
    pub announce_is : r.announce ≡ msg_unpack_announce buf

  -- The slot `k` of `g` holds the announce, and the other slots hold what they held in `f`.
  pub record Stored (k : ℕ) (g : ForeignMasterDataSet) : Type 0 where
    pub in_table : k < g.number_foreign_records
    pub told : Tells (record_at g.foreign k)
    pub others : (i : ℕ) → i ≢ k → record_at g.foreign i ≡ record_at f.foreign i
    pub length_is : length g.foreign ≡ length f.foreign
    pub max_is : g.max_foreign_records ≡ f.max_foreign_records

  module _ (t : IsTable f) (unpacked : msg_unpack_header buf ≡ header) where
    pub refresh-Stored :
        (j : ℕ)
        → j < f.number_foreign_records
        → header.source_port_identity ≡ port_at f j
        → Stored j (refresh buf j f)
    unfolding refresh
    refresh-Stored j h e =
        let r = refreshed buf (record_at f.foreign j) in
        let self = record_at-set_self f.foreign j r (omega (arith, t.allocated, t.number_le)) in
        record {
          in_table = h;
          told = record {
            port = ap (λ r. r.foreign_master_port_identity) self ∙ sym e;
            header_is = ap (λ r. r.header) self ∙ unpacked;
            announce_is = ap (λ r. r.announce) self;
          };
          others = λ i d. record_at-set_ne f.foreign j i r (λ x. d (sym x));
          length_is = length-set f.foreign j r;
          max_is = refl;
        }

    admit_number : f.foreign_record_i < (admit buf header f).number_foreign_records
    unfolding admit
    admit_number = ground (arith, t.fills, t.next_lt, t.number_le)

    pub admit-Stored : Stored f.foreign_record_i (admit buf header f)
    unfolding admit
    admit-Stored =
        let r = admitted buf header in
        let self =
          record_at-set_self f.foreign f.foreign_record_i r
            (omega (arith, t.allocated, t.next_lt)) in
        record {
          in_table = admit_number;
          told = record {
            port = ap (λ r. r.foreign_master_port_identity) self;
            header_is = ap (λ r. r.header) self ∙ unpacked;
            announce_is = ap (λ r. r.announce) self;
          };
          others = λ i d. record_at-set_ne f.foreign f.foreign_record_i i r (λ x. d (sym x));
          length_is = length-set f.foreign f.foreign_record_i r;
          max_is = refl;
        }

  module _ (t : IsTable f) (eight : length header.source_port_identity.clock_identity ≡ 8) (k : ℕ)
      (g : ForeignMasterDataSet) (st : Stored k g)
      (grows : (i : ℕ) → i < g.number_foreign_records → i ≢ k → i < f.number_foreign_records)
      (alone : (i : ℕ)
        → i < f.number_foreign_records
        → i ≢ k
        → port_at f i ≢ header.source_port_identity) where
    port_kept : (i : ℕ) → i ≢ k → port_at g i ≡ port_at f i
    port_kept i d = ap (λ r. r.foreign_master_port_identity) (st.others i d)

    pub stored_senders :
        (i : ℕ)
        → i < g.number_foreign_records
        → (record_at g.foreign i).header.source_port_identity ≡ port_at g i
    stored_senders i h = elim (ℕ_discrete i k) [
      | yes e ↦
          ap (λ i. (record_at g.foreign i).header.source_port_identity) e
          ∙ ap (λ r. r.source_port_identity) st.told.header_is
          ∙ sym st.told.port
          ∙ sym (ap (port_at g) e)
      | no d ↦
          ap (λ r. r.header.source_port_identity) (st.others i d)
          ∙ t.senders i (grows i h d)
          ∙ sym (port_kept i d)
    ]

    pub stored_octets :
        (i : ℕ) → i < g.number_foreign_records → length (port_at g i).clock_identity ≡ 8
    stored_octets i h = elim (ℕ_discrete i k) [
      | yes e ↦
          ap (λ i. length (port_at g i).clock_identity) e
          ∙ ap (λ p. length p.clock_identity) st.told.port
          ∙ eight
      | no d ↦ ap (λ p. length p.clock_identity) (port_kept i d) ∙ t.octets i (grows i h d)
    ]

    pub stored_distinct :
        (i j : ℕ)
        → i < g.number_foreign_records
        → j < g.number_foreign_records
        → port_at g i ≡ port_at g j
        → i ≡ j
    stored_distinct i j hi hj e = elim (ℕ_discrete i k) [
      | yes p ↦ elim (ℕ_discrete j k) [
        | yes q ↦ p ∙ sym q
        | no d ↦ absurd (
            alone j (grows j hj d) d
              (sym (port_kept j d) ∙ sym e ∙ ap (port_at g) p ∙ st.told.port))
      ]
      | no d ↦ elim (ℕ_discrete j k) [
        | yes q ↦
            absurd
              (alone i (grows i hi d) d (sym (port_kept i d) ∙ e ∙ ap (port_at g) q ∙ st.told.port))
        | no d' ↦
            t.distinct i j (grows i hi d) (grows j hj d') (sym (port_kept i d) ∙ e ∙ port_kept j d')
      ]
    ]
