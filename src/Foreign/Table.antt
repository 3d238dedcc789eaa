-- ===== src/Foreign/Table.antt =====
-- `addForeign` and the invariant of the foreign master table.
use xge_ptpv.Common.{
  ℕ, ◌+◌, ◌≤◌, ◌<◌, ◌≡◌, ◌≢◌, refl, sym, ◌∙◌, ◌⊎◌, inl, inr, length, Option, none, some, arith,
}
use native.Mathlib.Nat.{mod-lt, mod-eq_of_lt}
use xge_ptpv.Datatypes.{MsgHeader, ForeignMasterDataSet}
use xge_ptpv.Msg.{Buffer, msg_unpack_header}
use xge_ptpv.Foreign.{refresh, admit, known_slot, add_record}
use xge_ptpv.Foreign.Search.{
  same_port_iff, find_known-some, find_known-none_all, find_known-some_empty,
}
use xge_ptpv.Foreign.Invariant.{port_at, IsTable, SearchStarts}
use xge_ptpv.Foreign.Stored.{
  Stored, refresh-Stored, admit-Stored, stored_senders, stored_octets, stored_distinct,
}

module _ (buf : Buffer) (header : MsgHeader) (f : ForeignMasterDataSet) (t : IsTable f)
    (starts : SearchStarts f) (unpacked : msg_unpack_header buf ≡ header)
    (eight : length header.source_port_identity.clock_identity ≡ 8) where
  refresh-IsTable :
      (j : ℕ)
      → j < f.number_foreign_records
      → header.source_port_identity ≡ port_at f j
      → IsTable (refresh buf j f)
  unfolding refresh
  refresh-IsTable j h e =
      let st = refresh-Stored buf header f t unpacked j h e in
      let grows : (i : ℕ)
          → i < (refresh buf j f).number_foreign_records
          → i ≢ j
          → i < f.number_foreign_records =
        λ i hi d. hi in
      let alone : (i : ℕ)
          → i < f.number_foreign_records
          → i ≢ j
          → port_at f i ≢ header.source_port_identity =
        λ i hi d p. d (t.distinct i j hi h (p ∙ e)) in
      record {
        allocated = st.length_is ∙ t.allocated;
        has_room = t.has_room;
        number_le = t.number_le;
        next_lt = t.next_lt;
        fills = t.fills;
        senders = stored_senders buf header f t eight j _ st grows alone;
        octets = stored_octets buf header f t eight j _ st grows alone;
        distinct = stored_distinct buf header f t eight j _ st grows alone;
      }

  -- A header that no record's port sent.
  abbrev IsNew : Type 0
  IsNew = (i : ℕ) → i < f.number_foreign_records → port_at f i ≢ header.source_port_identity

  -- Another record of the table after `admit` was in it before.
  admit_grows :
      (i : ℕ)
      → i < (admit buf header f).number_foreign_records
      → i ≢ f.foreign_record_i
      → i < f.number_foreign_records
  unfolding admit
  admit_grows i h d = ground (arith, t.fills, t.next_lt, t.number_le)

  admit-IsTable : IsNew → IsTable (admit buf header f)
  unfolding admit
  admit-IsTable new =
      let st = admit-Stored buf header f t unpacked in
      let alone : (i : ℕ)
          → i < f.number_foreign_records
          → i ≢ f.foreign_record_i
          → port_at f i ≢ header.source_port_identity =
        λ i hi d. new i hi in
      record {
        allocated = st.length_is ∙ t.allocated;
        has_room = t.has_room;
        number_le = ground (arith, t.number_le);
        next_lt = mod-lt (f.foreign_record_i + 1) t.has_room;
        fills = ground (
          arith,
          t.fills,
          t.number_le,
          mod-eq_of_lt {n = f.foreign_record_i + 1} {m = f.max_foreign_records},
        );
        senders = stored_senders buf header f t eight f.foreign_record_i _ st admit_grows alone;
        octets = stored_octets buf header f t eight f.foreign_record_i _ st admit_grows alone;
        distinct = stored_distinct buf header f t eight f.foreign_record_i _ st admit_grows alone;
      }

  -- `addForeign` refreshes the record of the sender, or takes slot `foreign_record_i` for it.
  pub record Added (g : ForeignMasterDataSet) : Type 0 where
    pub still : IsTable g
    pub slot : ℕ
    pub stored : Stored buf header f slot g
    pub keeps : f.number_foreign_records ≤ g.number_foreign_records
    pub grows : (i : ℕ) → i < g.number_foreign_records → i ≢ slot → i < f.number_foreign_records
    pub which :
        ((slot < f.number_foreign_records)
          × (port_at f slot ≡ header.source_port_identity)
          × (g.number_foreign_records ≡ f.number_foreign_records))
        ⊎ (IsNew × (slot ≡ f.foreign_record_i))

  searched :
      (i : ℕ)
      → i < f.number_foreign_records
      → known_slot header f ≡ none
      → port_at f i ≢ header.source_port_identity
  searched i h e p =
      find_known-none_all f.foreign header.source_port_identity f.number_foreign_records
        f.foreign_record_best i (omega (arith, starts)) h e
        ((same_port_iff header.source_port_identity (port_at f i) (eight ∙ sym (t.octets i h))).1
          (sym p))

  some≢none : {k : ℕ} → ◌≢◌ {A = Option ℕ} (some k) none
  some≢none e = cc

  found :
      (j : ℕ)
      → known_slot header f ≡ some j
      → (j < f.number_foreign_records) × (header.source_port_identity ≡ port_at f j)
  found j e = elim starts [
    | inr h ↦
        let r =
          find_known-some f.foreign header.source_port_identity f.number_foreign_records
            f.number_foreign_records f.foreign_record_best j h e in
        (
          r.0,
          (same_port_iff header.source_port_identity (port_at f j) (eight ∙ sym (t.octets j r.0))).0
              r.1,
        )
    | inl h ↦ absurd (
        find_known-some_empty f.foreign header.source_port_identity f.number_foreign_records
          f.number_foreign_records f.foreign_record_best j (omega arith) e)
  ]

  same_number : (j : ℕ) → f.number_foreign_records ≤ (refresh buf j f).number_foreign_records
  unfolding refresh
  same_number j = omega arith

  more_number : f.number_foreign_records ≤ (admit buf header f).number_foreign_records
  unfolding admit
  more_number = ground arith

  -- On a table that satisfies the invariant, `addForeign` either refreshes the record of the port
  -- that sent the announce, or no record is of that port and the announce takes slot
  -- `foreign_record_i`. That slot is then in the table, every other slot keeps its record, and the
  -- table satisfies the invariant again. The search for the sender
  -- starts in the table, the message is one that unpacks to the header, and the sender's clock
  -- identity has eight octets.
  pub add_record-Added : Added (add_record buf header f)
  unfolding add_record refresh
  add_record-Added = by_slot (known_slot header f) refl
    where
      by_slot :
          (o : Option ℕ)
          → known_slot header f ≡ o
          → Added (elim o [ some j ↦ refresh buf j f | none ↦ admit buf header f ])
      by_slot (some j) e =
          let r = found j e in
          record {
            still = refresh-IsTable j r.0 r.1;
            slot = j;
            stored = refresh-Stored buf header f t unpacked j r.0 r.1;
            keeps = same_number j;
            grows = λ i hi d. hi;
            which =
                let same : (refresh buf j f).number_foreign_records ≡ f.number_foreign_records =
                  refl in
                inl (r.0, sym r.1, same);
          }
      by_slot none e =
          let new : IsNew = λ i h. searched i h e in
          record {
            still = admit-IsTable new;
            slot = f.foreign_record_i;
            stored = admit-Stored buf header f t unpacked;
            keeps = more_number;
            grows = admit_grows;
            which = inr (new, refl);
          }
