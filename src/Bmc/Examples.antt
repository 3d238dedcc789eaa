-- ===== src/Bmc/Examples.antt =====
-- The theorems on the best master at concrete clocks and announces.
use xge_ptpv.Common.{
  ℕ, zero, suc, ◌≡◌, ◌≢◌, ◌<◌, refl, ap, List, [], ◌∷◌, length, get_or, memcmp, arith,
}
use xge_ptpv.Common.Int.{neg}
use xge_ptpv.Datatypes.{
  ForeignMasterRecord, identity_of, header_of, announce_of, record_of, clock_of, sample_opts,
}
use xge_ptpv.Bmc.{
  record_at, sign_of, compare_records, compare_grandmasters, data_set_comparison, state_decision,
  find_best, eui64,
}
use xge_ptpv.Bmc.Compare.{data_set_comparison-swap, rank, data_set_comparison-rank}
use xge_ptpv.Bmc.Order.{Distinct, Better, Better-trans}
use xge_ptpv.Bmc.Best.{NotBetter, AllDistinct, find_best_lem}
use xge_ptpv.Bmc.Choice.{ByRank, state_decision-ByRank}
use xge_ptpv.Bmc.Identity.{eui64_inj}

-- The octet that the identities differ in.
identity_apart : (m n : ℕ) → m ≢ n → identity_of m ≢ identity_of n
identity_apart m n h e = h (ap (λ i. get_or i 7 0) e)

record_of-Distinct : (m n : ℕ) → m ≢ n → Distinct (record_of m) (record_of n)
record_of-Distinct m n h = record {
  lengths = record { senders = refl; grandmasters = refl };
  apart = identity_apart m n h;
}

data_set_comparison-swap_example :
    data_set_comparison (header_of 9) (announce_of 9) (header_of 7) (announce_of 7) (clock_of 1)
    ≡ neg (
        data_set_comparison
          (header_of 7)
          (announce_of 7)
          (header_of 9)
          (announce_of 9)
          (clock_of 1))
data_set_comparison-swap_example =
    data_set_comparison-swap (header_of 7) (announce_of 7) (header_of 9) (announce_of 9)
      (record { senders = refl; grandmasters = refl }) (clock_of 1)

data_set_comparison-rank_example :
    data_set_comparison (header_of 7) (announce_of 7) (header_of 9) (announce_of 9) (clock_of 1)
    ≡ sign_of (memcmp (rank (announce_of 7)) (rank (announce_of 9)))
data_set_comparison-rank_example =
    data_set_comparison-rank (header_of 7) (header_of 9) (announce_of 7) (announce_of 9)
      (clock_of 1) refl (identity_apart 7 9 (omega arith))

first-Better : Better (clock_of 1) (record_of 5) (record_of 7)
unfolding compare_records data_set_comparison compare_grandmasters memcmp
first-Better = refl

second-Better : Better (clock_of 1) (record_of 7) (record_of 9)
unfolding compare_records data_set_comparison compare_grandmasters memcmp
second-Better = refl

Better-trans_example : Better (clock_of 1) (record_of 5) (record_of 9)
Better-trans_example =
    Better-trans (clock_of 1) (record_of 5) (record_of 7) (record_of 9)
      (record_of-Distinct 5 7 (omega arith)) (record_of-Distinct 7 9 (omega arith))
      (record_of-Distinct 5 9 (omega arith)) first-Better second-Better

abbrev two_records : List ForeignMasterRecord
two_records = record_of 9 ∷ record_of 7 ∷ []

two_records-AllDistinct : AllDistinct (clock_of 1) two_records 2
unfolding record_at
two_records-AllDistinct zero zero hi hj d = absurd (d refl)
two_records-AllDistinct zero (suc zero) hi hj d = record_of-Distinct 9 7 (omega arith)
two_records-AllDistinct (suc zero) zero hi hj d = record_of-Distinct 7 9 (omega arith)
two_records-AllDistinct (suc zero) (suc zero) hi hj d = absurd (d refl)
two_records-AllDistinct (suc (suc i)) j hi hj d = absurd (omega arith)
two_records-AllDistinct i (suc (suc j)) hi hj d = absurd (omega arith)

find_best_lem_example :
    (find_best (clock_of 1) two_records 1 1 0 < 2)
    × ((j : ℕ)
        → j < 2
        → NotBetter (clock_of 1) two_records j (find_best (clock_of 1) two_records 1 1 0))
find_best_lem_example =
    find_best_lem (clock_of 1) two_records 2 two_records-AllDistinct (omega arith)

state_decision-ByRank_example :
    ByRank
      (header_of 9)
      (announce_of 9)
      (clock_of 1)
      (state_decision (header_of 9) (announce_of 9) sample_opts (clock_of 1))
state_decision-ByRank_example =
    state_decision-ByRank (header_of 9) (announce_of 9) sample_opts (clock_of 1) refl (omega arith)
      refl (identity_apart 1 9 (omega arith))

abbrev mac : ℕ → List ℕ
mac n = 0 ∷ 27 ∷ 25 ∷ 1 ∷ 2 ∷ n ∷ []

eui64_inj_example : (length (eui64 (mac 1)) ≡ 8) × (eui64 (mac 1) ≡ eui64 (mac 2) → mac 1 ≡ mac 2)
eui64_inj_example = eui64_inj (mac 1) (mac 2) refl refl
