-- ===== src/Bmc/Best.antt =====
-- The choice of the best record in the loop of `bmcExec`.
use xge_ptpv.Common.{
  ℕ, zero, suc, ◌+◌, ◌-◌, ◌<◌, ◌≡◌, ◌≢◌, sym, ◌∙◌, inl, inr, Bool, false, List, if◌then◌else◌,
  Bool-cases, arith,
}
use mathlib.Core.Bool.{false≢true}
use native.Mathlib.Decide.{ℕ_discrete}
use xge_ptpv.Datatypes.{PtpClock, ForeignMasterRecord}
use xge_ptpv.Bmc.{is_better, compare_records, record_at, find_best}
use xge_ptpv.Bmc.Order.{Distinct, Better, Better-trans, Better-asym, Better_irrefl}

module _ (c : PtpClock) (foreign : List ForeignMasterRecord) where
  -- `foreign[j]` is not better than `foreign[b]`.
  abbrev pub NotBetter : ℕ → ℕ → Type 0
  NotBetter j b = is_better (compare_records c (record_at foreign j) (record_at foreign b)) ≡ false

  abbrev beats : ℕ → ℕ → Bool
  beats j b = is_better (compare_records c (record_at foreign j) (record_at foreign b))

  -- The first `n` records are announces under `n` different grandmasters.
  abbrev pub AllDistinct : ℕ → Type 0
  AllDistinct n =
      (i j : ℕ) → i < n → j < n → i ≢ j → Distinct (record_at foreign i) (record_at foreign j)

  module _ (n : ℕ) (distinct : AllDistinct n) where
    -- A record that beats the best so far is not beaten by what the best was not beaten by.
    replace :
        (j i b : ℕ)
        → j < n
        → i < n
        → b < n
        → i ≢ j
        → i ≢ b
        → Better c (record_at foreign i) (record_at foreign b)
        → NotBetter j b
        → NotBetter j i
    replace j i b hj hi hb ij ib p q = elim (Bool-cases (beats j i)) [
      | inr e ↦ e
      | inl e ↦ absurd (elim (ℕ_discrete j b) [
        | yes same ↦
            false≢true (sym (Better-asym c _ _ (distinct i b hi hb ib).lengths p) ∙ rw same at e)
        | no differ ↦ false≢true (
            sym q
            ∙ Better-trans c _ _ _ (distinct j i hj hi (λ x. ij (sym x))) (distinct i b hi hb ib)
                (distinct j b hj hb differ) e p)
      ])
    ]

    -- The best among the first `i`.
    record IsBest (i b : ℕ) : Type 0 where
      in_range : b < n
      earlier : b < i
      unbeaten : (j : ℕ) → j < i → NotBetter j b

    -- `i` comes to be compared with the best so far.
    choose : ℕ → ℕ → ℕ
    choose i b = if beats i b then i else b

    new-IsBest :
        (i b : ℕ)
        → i < n
        → IsBest i b
        → Better c (record_at foreign i) (record_at foreign b)
        → IsBest (i + 1) i
    new-IsBest i b hi h p = record {
      in_range = hi;
      earlier = omega arith;
      unbeaten = λ j hj. elim (ℕ_discrete i j) [
        | yes same ↦ rw (← same) (Better_irrefl c (record_at foreign i))
        | no differ ↦
            replace j i b (omega arith) hi h.in_range differ (omega (arith, h.earlier)) p
              (h.unbeaten j (omega arith))
      ];
    }

    old-IsBest : (i b : ℕ) → IsBest i b → NotBetter i b → IsBest (i + 1) b
    old-IsBest i b h p = record {
      in_range = h.in_range;
      earlier = omega (arith, h.earlier);
      unbeaten = λ j hj. elim (ℕ_discrete i j) [
        | yes same ↦ rw (← same) p
        | no differ ↦ h.unbeaten j (omega arith)
      ];
    }

    choose-IsBest : (i b : ℕ) → i < n → IsBest i b → IsBest (i + 1) (choose i b)
    unfolding choose
    choose-IsBest i b hi h = elim (Bool-cases (beats i b)) [
      | inl p ↦ rw p (new-IsBest i b hi h p)
      | inr p ↦ rw p (old-IsBest i b h p)
    ]

    find_best-IsBest :
        (left i b : ℕ) → i + left ≡ n → IsBest i b → IsBest n (find_best c foreign left i b)
    unfolding find_best choose
    find_best-IsBest zero i b e h = let e' : i ≡ n = omega arith in rw (← e') h
    find_best-IsBest (suc left) i b e h =
        find_best-IsBest left (i + 1) (choose i b) (omega arith) (choose-IsBest i b (omega arith) h)

    -- The record that `bmcExec` chooses among `n` announces, at least one, under `n` different
    -- grandmasters with identities of one length is in the table, and no record of it is better.
    pub find_best_lem :
        0 < n
        → (find_best c foreign (n - 1) 1 0 < n)
          × ((j : ℕ) → j < n → NotBetter j (find_best c foreign (n - 1) 1 0))
    find_best_lem h = (b.in_range, b.unbeaten)
      where
        first : IsBest 1 0
        first = record {
          in_range = h;
          earlier = omega arith;
          unbeaten =
              λ j hj. let e : j ≡ 0 = omega arith in rw e (Better_irrefl c (record_at foreign 0));
        }

        b : IsBest n (find_best c foreign (n - 1) 1 0)
        b = find_best-IsBest (n - 1) 1 0 (omega arith) first
