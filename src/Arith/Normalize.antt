-- ===== src/Arith/Normalize.antt =====
-- `normalizeTime` on the time as one number.
use xge_ptpv.Common.{suc, ◌+◌, ◌-◌, ◌*◌, ◌/◌, ◌^◌, ◌≤◌, ◌<◌, ◌≡◌, refl, ◌∙◌, arith}
use xge_ptpv.Common.Int.{ℤ, pos, negsuc, pos_part, neg_part, int_laws}
use xge_ptpv.Datatypes.{TimeInternal}
use xge_ptpv.Arith.{billion, time, carry, align_signs, normalize_time}
use xge_ptpv.Arith.Total.{total, total_parts, IsNormal}

-- What `carry` yields, with nothing wrapped.
record Carried (r c : TimeInternal) : Type 0 where
  seconds_eq :
      pos_part c.seconds + neg_part r.seconds + neg_part r.nanoseconds / billion
      ≡ neg_part c.seconds + pos_part r.seconds + pos_part r.nanoseconds / billion
  nanoseconds_eq :
      pos_part c.nanoseconds + neg_part r.nanoseconds + pos_part r.nanoseconds / billion * billion
      ≡ neg_part c.nanoseconds + pos_part r.nanoseconds + neg_part r.nanoseconds / billion * billion

-- The seconds leave room for a carry.
pub record HasRoom (r : TimeInternal) : Type 0 where
  pub seconds_pos : pos_part r.seconds < 2 ^ 62
  pub seconds_neg : neg_part r.seconds < 2 ^ 62
  pub nanoseconds_pos : pos_part r.nanoseconds < 2 ^ 31
  pub nanoseconds_neg : neg_part r.nanoseconds ≤ 2 ^ 31

carry-Carried : (r : TimeInternal) → HasRoom r → Carried r (carry r)
unfolding carry
carry-Carried r h = record { seconds_eq = omega int_laws; nanoseconds_eq = omega int_laws }

-- What `align_signs` is applied to.
record Small (c : TimeInternal) : Type 0 where
  seconds_pos : pos_part c.seconds < 2 ^ 63 - 1
  seconds_neg : neg_part c.seconds < 2 ^ 63
  nanoseconds_pos : pos_part c.nanoseconds < billion
  nanoseconds_neg : neg_part c.nanoseconds < billion

carry-Small : (r : TimeInternal) → HasRoom r → Small (carry r)
carry-Small r h = omega (int_laws, carry-Carried r h)

-- The same time, and in normal form.
record Aligned (c a : TimeInternal) : Type 0 where
  total_eq : total a ≡ total c
  normal : IsNormal a

align_signs-Aligned : (s n : ℤ) → Small (time s n) → Aligned (time s n) (align_signs (time s n))
unfolding align_signs
align_signs-Aligned (pos (suc s)) (negsuc n) h = record {
  total_eq = omega (int_laws, total_parts);
  normal = omega int_laws;
}
align_signs-Aligned (negsuc s) (pos (suc n)) h = record {
  total_eq = omega (int_laws, total_parts);
  normal = omega int_laws;
}
align_signs-Aligned s n h = record { total_eq = refl; normal = omega arith }

carry-total : (r : TimeInternal) → HasRoom r → total (carry r) ≡ total r
carry-total r h = omega (int_laws, carry-Carried r h, total_parts)

pub normalize_time-total : (r : TimeInternal) → HasRoom r → total (normalize_time r) ≡ total r
unfolding normalize_time
normalize_time-total r h = (align_signs-Aligned _ _ (carry-Small r h)).total_eq ∙ carry-total r h

pub normalize_time-IsNormal : (r : TimeInternal) → HasRoom r → IsNormal (normalize_time r)
unfolding normalize_time
normalize_time-IsNormal r h = (align_signs-Aligned _ _ (carry-Small r h)).normal
