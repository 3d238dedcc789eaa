-- ===== src/Foreign/Map.antt =====
-- The foreign master table as a map from ports to announces.
use xge_ptpv.Common.{ℕ, ◌<◌, ◌≡◌, ◌≢◌, sym, ◌∙◌, ap, ◌⊎◌, inl, inr, ◌↔◌, length, arith}
use xge_ptpv.Datatypes.{PortIdentity, MsgHeader, MsgAnnounce, ForeignMasterDataSet}
use xge_ptpv.Bmc.{record_at}
use xge_ptpv.Msg.{Buffer, msg_unpack_header, msg_unpack_announce}
use xge_ptpv.Foreign.{add_record}
use xge_ptpv.Foreign.Invariant.{port_at, IsTable, SearchStarts}
use xge_ptpv.Foreign.Table.{Added, add_record-Added}

-- The table maps port `p` to announce `a`.
pub record Maps (f : ForeignMasterDataSet) (p : PortIdentity) (a : MsgAnnounce) : Type 0 where
  pub slot : ℕ
  pub in_table : slot < f.number_foreign_records
  pub is_port : port_at f slot ≡ p
  pub says : (record_at f.foreign slot).announce ≡ a

-- A port has one announce.
pub Maps-unique :
    (f : ForeignMasterDataSet)
    → IsTable f
    → (p : PortIdentity) (a b : MsgAnnounce) → Maps f p a
    → Maps f p b
    → a ≡ b
Maps-unique f t p a b m l =
    let same : m.slot ≡ l.slot =
      t.distinct m.slot l.slot m.in_table l.in_table (m.is_port ∙ sym l.is_port) in
    sym m.says ∙ ap (λ i. (record_at f.foreign i).announce) same ∙ l.says

-- The sender is in the table, or there is room for it.
abbrev pub HasRoom : ForeignMasterDataSet → MsgHeader → Type 0
HasRoom f header =
    (f.number_foreign_records < f.max_foreign_records)
    ⊎ ((i : ℕ) × (i < f.number_foreign_records) × (port_at f i ≡ header.source_port_identity))

module _ (buf : Buffer) (header : MsgHeader) (f : ForeignMasterDataSet) (t : IsTable f)
    (starts : SearchStarts f) (unpacked : msg_unpack_header buf ≡ header)
    (eight : length header.source_port_identity.clock_identity ≡ 8) where
  added : Added buf header f t starts unpacked eight (add_record buf header f)
  added = add_record-Added buf header f t starts unpacked eight

  -- The announce of the sender is the new one.
  sender-Maps : Maps (add_record buf header f) header.source_port_identity (msg_unpack_announce buf)
  sender-Maps = record {
    slot = added.slot;
    in_table = added.stored.in_table;
    is_port = added.stored.told.port;
    says = added.stored.told.announce_is;
  }

  module _ (p : PortIdentity) (other : p ≢ header.source_port_identity) (a : MsgAnnounce) where
    apart_old :
        HasRoom f header → (s : ℕ) → s < f.number_foreign_records → port_at f s ≡ p → s ≢ added.slot
    apart_old room s h e q = elim added.which [
      | inl k ↦ other (sym e ∙ ap (port_at f) q ∙ k.1)
      | inr (new, at_next) ↦ elim room [
        | inl free ↦ absurd (omega (arith, t.fills))
        | inr known ↦ new known.0 known.1 known.2
      ]
    ]

    kept-Maps : HasRoom f header → Maps f p a → Maps (add_record buf header f) p a
    kept-Maps room m =
        let d = apart_old room m.slot m.in_table m.is_port in
        record {
          slot = m.slot;
          in_table = omega (arith, m.in_table, added.keeps);
          is_port =
              ap (λ r. r.foreign_master_port_identity) (added.stored.others m.slot d) ∙ m.is_port;
          says = ap (λ r. r.announce) (added.stored.others m.slot d) ∙ m.says;
        }

    old-Maps : Maps (add_record buf header f) p a → Maps f p a
    old-Maps m =
        let d : m.slot ≢ added.slot = λ q.
          other
            (sym m.is_port ∙ ap (port_at (add_record buf header f)) q ∙ added.stored.told.port) in
        record {
          slot = m.slot;
          in_table = added.grows m.slot m.in_table d;
          is_port =
              sym (ap (λ r. r.foreign_master_port_identity) (added.stored.others m.slot d))
              ∙ m.is_port;
          says = sym (ap (λ r. r.announce) (added.stored.others m.slot d)) ∙ m.says;
        }

  -- On a table that satisfies the invariant, with room for the sender or a record of it,
  -- `addForeign` is the update of a map from ports to announces: the sender's announce is the new
  -- one, and another port has an announce just when it had it before. The search for the sender
  -- starts in the table, the message is one that unpacks to the header, and the sender's clock
  -- identity has eight octets.
  pub add_record-Maps :
      HasRoom f header
      → Maps (add_record buf header f) header.source_port_identity (msg_unpack_announce buf)
        × ((p : PortIdentity)
            → p ≢ header.source_port_identity
            → (a : MsgAnnounce) → Maps (add_record buf header f) p a ↔ Maps f p a)
  add_record-Maps room = (sender-Maps, λ p other a. (old-Maps p other a, kept-Maps p other a room))
