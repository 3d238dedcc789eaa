-- ===== src/Foreign/Search.antt =====
-- The search of `addForeign` for a known master.
use native.Mathlib.Nat.{mod-eq_of_lt, mod_self}
use xge_ptpv.Common.{
  ℕ, zero, suc, ◌+◌, ◌%◌, ◌≤◌, ◌<◌, ◌≡◌, ◌≢◌, sym, ◌∙◌, ◌⊎◌, inl, inr, ◌↔◌, true, List, length,
  Option, none, some, memcmp-eq, memcmp_refl, Bool-cases, arith,
}
use mathlib.Core.Bool.{false≢true}
use native.Mathlib.Decide.{ℕ_discrete}
use xge_ptpv.Datatypes.{PortIdentity, ForeignMasterRecord}
use xge_ptpv.Bmc.{record_at}
use xge_ptpv.Foreign.{same_port, find_known}

-- Identities of one length are the same port just when they are equal.
pub same_port_iff :
    (p q : PortIdentity)
    → length p.clock_identity ≡ length q.clock_identity
    → (same_port p q ≡ true) ↔ (p ≡ q)
same_port_iff p q l = (
  λ e. ground (arith, memcmp-eq p.clock_identity q.clock_identity),
  λ e. ground (arith, memcmp_refl q.clock_identity),
)

some_eq : {j k : ℕ} → some j ≡ some k → j ≡ k
some_eq e = ground arith

module _ (foreign : List ForeignMasterRecord) (source : PortIdentity) (n : ℕ) where
  abbrev pub Hit : ℕ → Type 0
  Hit s = same_port source (record_at foreign s).foreign_master_port_identity ≡ true

  step_wraps :
      (j : ℕ) → j < n → (((j + 1) % n ≡ j + 1) × (j + 1 < n)) ⊎ (((j + 1) % n ≡ 0) × (j + 1 ≡ n))
  step_wraps j h = elim (ℕ_discrete (j + 1) n) [
    | yes e ↦ inr (rw e (mod_self n), e)
    | no d ↦ inl (mod-eq_of_lt (omega arith), omega arith)
  ]

  next_slot : ℕ → ℕ
  next_slot j = (j + 1) % n

  next_slot-lt : (j : ℕ) → j < n → next_slot j < n
  unfolding next_slot
  next_slot-lt j h = omega (arith, step_wraps j h)

  -- One round.
  round :
      (left j : ℕ)
      → (Hit j × (find_known foreign source n (suc left) j ≡ some j))
        ⊎ (¬ Hit j
            × (find_known foreign source n (suc left) j
                ≡ find_known foreign source n left (next_slot j)))
  unfolding find_known next_slot
  round left j =
      elim (Bool-cases (same_port source (record_at foreign j).foreign_master_port_identity)) [
        | inl p ↦ inl (p, rw (p, find_known))
        | inr p ↦ inr (λ q. false≢true (sym p ∙ q), rw (p, find_known))
      ]

  -- A slot that is found is in the table, and holds the source.
  pub find_known-some :
      (left j s : ℕ) → j < n → find_known foreign source n left j ≡ some s → (s < n) × Hit s
  unfolding find_known
  find_known-some zero j s h e = cc
  find_known-some (suc left) j s h e = elim (round left j) [
    | inl (p, q) ↦ let same : j ≡ s = some_eq (sym q ∙ e) in rw (← same) (h, p)
    | inr (p, q) ↦ find_known-some left (next_slot j) s (next_slot-lt j h) (sym q ∙ e)
  ]

  -- The slots visited from `j` on in `left` rounds.
  abbrev Visited : ℕ → ℕ → ℕ → Type 0
  Visited left j s = ((j ≤ s) × (s < j + left)) ⊎ (s + n < j + left)

  visited :
      (left j s : ℕ)
      → j < n
      → suc left ≤ n
      → s < n
      → j ≢ s
      → Visited (suc left) j s
      → Visited left (next_slot j) s
  unfolding next_slot
  visited left j s h l hs differ v = omega (arith, step_wraps j h)

  none≢some : {k : ℕ} → ◌≢◌ {A = Option ℕ} none (some k)
  none≢some e = cc

  find_known-none :
      (left j s : ℕ)
      → j < n
      → left ≤ n
      → s < n
      → Visited left j s
      → find_known foreign source n left j ≡ none
      → ¬ Hit s
  unfolding find_known
  find_known-none zero j s h l hs v e = absurd (omega arith)
  find_known-none (suc left) j s h l hs v e = elim (round left j) [
    | inl (p, q) ↦ absurd (none≢some (sym e ∙ q))
    | inr (p, q) ↦ elim (ℕ_discrete j s) [
      | yes same ↦ rw (← same) p
      | no differ ↦
          find_known-none left (next_slot j) s (next_slot-lt j h) (omega arith) hs
            (visited left j s h l hs differ v) (sym q ∙ e)
    ]
  ]

  -- A search that finds nothing has looked at every record.
  pub find_known-none_all :
      (j s : ℕ) → j < n → s < n → find_known foreign source n n j ≡ none → ¬ Hit s
  find_known-none_all j s h hs = find_known-none n j s h (omega arith) hs (omega arith)

  -- No record is found in no round.
  pub find_known-some_empty :
      (left j s : ℕ) → left ≡ 0 → find_known foreign source n left j ≢ some s
  unfolding find_known
  find_known-some_empty zero j s h e = cc
  find_known-some_empty (suc left) j s h e = absurd (omega arith)
