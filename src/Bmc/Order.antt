-- ===== src/Bmc/Order.antt =====
-- The comparison of two records in the loop of `bmcExec`, as an order.
use xge_ptpv.Common.{
  ◌≡◌, ◌≢◌, refl, Ordering, true, false, memcmp, memcmp_trans, memcmp_refl, arith,
}
use xge_ptpv.Common.Int.{ℤ, pos, negsuc, neg}
use xge_ptpv.Datatypes.{PtpClock, ForeignMasterRecord}
use xge_ptpv.Bmc.{sign_of, is_better, compare_records, data_set_comparison, compare_paths}
use xge_ptpv.Bmc.Compare.{SameLengths, rank, data_set_comparison-rank, data_set_comparison-swap}

-- Two records of announces under different grandmasters, with identities of one length.
pub record Distinct (a b : ForeignMasterRecord) : Type 0 where
  pub lengths : SameLengths a.header a.announce b.header b.announce
  pub apart : a.announce.grandmaster_identity ≢ b.announce.grandmaster_identity

-- `a` is the better master.
abbrev pub Better : PtpClock → ForeignMasterRecord → ForeignMasterRecord → Type 0
Better c a b = is_better (compare_records c a b) ≡ true

sign_lt : (o : Ordering) → is_better (sign_of o) ≡ true → o ≡ Ordering.lt
sign_lt Ordering.lt e = refl
sign_lt Ordering.eq e = cc
sign_lt Ordering.gt e = cc

lt_sign : (o : Ordering) → o ≡ Ordering.lt → is_better (sign_of o) ≡ true
lt_sign o e = rw e

Better-rank :
    (c : PtpClock) (a b : ForeignMasterRecord)
    → Distinct a b
    → compare_records c a b ≡ sign_of (memcmp (rank a.announce) (rank b.announce))
unfolding compare_records
Better-rank c a b d =
    data_set_comparison-rank a.header b.header a.announce b.announce c d.lengths.grandmasters
      d.apart

-- Of three records under three grandmasters, with identities of one length, a record that is better
-- than one that is better than the third is better than the third.
pub Better-trans :
    (c : PtpClock) (x y z : ForeignMasterRecord)
    → Distinct x y
    → Distinct y z
    → Distinct x z
    → Better c x y
    → Better c y z
    → Better c x z
Better-trans c x y z xy yz xz p q = rw (Better-rank c x z xz) (
    lt_sign _ (
      memcmp_trans (rank x.announce) (rank y.announce) (rank z.announce)
        (omega (arith, xy.lengths.grandmasters)) (omega (arith, yz.lengths.grandmasters))
        (sign_lt _ (rw (Better-rank c x y xy) at p)) (sign_lt _ (rw (Better-rank c y z yz) at q))))

neg_better : (z : ℤ) → is_better z ≡ true → is_better (neg z) ≡ false
unfolding neg
neg_better (pos n) e = cc
neg_better (negsuc n) e = ground arith

-- Never are two records each better than the other.
pub Better-asym :
    (c : PtpClock) (x y : ForeignMasterRecord)
    → SameLengths x.header x.announce y.header y.announce
    → Better c x y
    → is_better (compare_records c y x) ≡ false
unfolding compare_records
Better-asym c x y l p =
    rw (data_set_comparison-swap x.header x.announce y.header y.announce l c) (neg_better _ p)

-- A record is not better than itself.
pub Better_irrefl :
    (c : PtpClock) (x : ForeignMasterRecord) → is_better (compare_records c x x) ≡ false
unfolding compare_records data_set_comparison compare_paths
Better_irrefl c x = ground (
  arith,
  memcmp_refl x.announce.grandmaster_identity,
  memcmp_refl x.header.source_port_identity.clock_identity,
)
