-- ===== src/Bmc/Compare.antt =====
-- `bmcDataSetComparison` as an order: the two masters swapped, and a lexicographic
-- specification.
use xge_ptpv.Common.{
  ℕ, ◌≡◌, ◌≢◌, refl, Ordering, List, ◌∷◌, length, memcmp, memcmp_flip, memcmp-eq, is_eq, flip_order,
  arith,
}
use xge_ptpv.Common.Int.{neg}
use xge_ptpv.Datatypes.{MsgHeader, MsgAnnounce, PtpClock}
use xge_ptpv.Bmc.{compare_paths, compare_grandmasters, data_set_comparison, sign_of}

-- Clock identities have one length.
pub record SameLengths (ha : MsgHeader) (a : MsgAnnounce) (hb : MsgHeader) (b : MsgAnnounce)
    : Type 0 where
  pub senders :
      length ha.source_port_identity.clock_identity ≡ length hb.source_port_identity.clock_identity
  pub grandmasters : length a.grandmaster_identity ≡ length b.grandmaster_identity

sign_of-flip : (o : Ordering) → sign_of (flip_order o) ≡ neg (sign_of o)
unfolding neg
sign_of-flip Ordering.lt = refl
sign_of-flip Ordering.eq = refl
sign_of-flip Ordering.gt = refl

is_eq-flip : (o : Ordering) → is_eq (flip_order o) ≡ is_eq o
is_eq-flip Ordering.lt = refl
is_eq-flip Ordering.eq = refl
is_eq-flip Ordering.gt = refl

module _ (ha : MsgHeader) (a : MsgAnnounce) (hb : MsgHeader) (b : MsgAnnounce)
    (l : SameLengths ha a hb b) where
  compare_paths-swap :
      (parent : List ℕ) → compare_paths hb b ha a parent ≡ neg (compare_paths ha a hb b parent)
  unfolding compare_paths neg
  compare_paths-swap parent = ground (arith, memcmp_flip _ _ l.senders)

  compare_grandmasters-swap : compare_grandmasters b a ≡ neg (compare_grandmasters a b)
  unfolding compare_grandmasters neg
  compare_grandmasters-swap = ground (arith, memcmp_flip _ _ l.grandmasters)

  -- Swapping the two masters negates the comparison, whichever branch decides, when the senders'
  -- identities have one length and the grandmasters' identities too.
  pub data_set_comparison-swap :
      (c : PtpClock) → data_set_comparison hb b ha a c ≡ neg (data_set_comparison ha a hb b c)
  unfolding data_set_comparison neg
  data_set_comparison-swap c = ground (
    arith,
    memcmp_flip _ _ l.grandmasters,
    compare_paths-swap c.parent_port_identity.clock_identity,
    compare_grandmasters-swap,
  )

-- What grandmasters are ranked by, the weightiest first.
abbrev pub rank : MsgAnnounce → List ℕ
rank a =
    a.grandmaster_priority1 ∷ a.grandmaster_clock_quality.clock_class
    ∷ a.grandmaster_clock_quality.clock_accuracy
    ∷ a.grandmaster_clock_quality.offset_scaled_log_variance ∷ a.grandmaster_priority2
    ∷ a.grandmaster_identity

compare_grandmasters-rank :
    (a b : MsgAnnounce) → compare_grandmasters a b ≡ sign_of (memcmp (rank a) (rank b))
unfolding compare_grandmasters memcmp
compare_grandmasters-rank a b = ground arith

-- Masters under different grandmasters, with identities of one length, are compared by the
-- grandmasters' ranks, lexicographically.
pub data_set_comparison-rank :
    (ha hb : MsgHeader) (a b : MsgAnnounce) (c : PtpClock)
    → length a.grandmaster_identity ≡ length b.grandmaster_identity
    → a.grandmaster_identity ≢ b.grandmaster_identity
    → data_set_comparison ha a hb b c ≡ sign_of (memcmp (rank a) (rank b))
unfolding data_set_comparison
data_set_comparison-rank ha hb a b c l ne =
    ground (
      arith,
      compare_grandmasters-rank a b,
      memcmp-eq a.grandmaster_identity b.grandmaster_identity,
    )
