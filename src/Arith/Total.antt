-- ===== src/Arith/Total.antt =====
-- A time as one number of nanoseconds, and when its parts are in range and of one sign.
use xge_ptpv.Common.{◌+◌, ◌*◌, ◌^◌, ◌<◌, ◌≡◌, ◌⊎◌, arith}
use xge_ptpv.Common.Int.{ℤ, pos, pos_part, neg_part, ◌+ℤ◌, ◌*ℤ◌, +ℤ_parts, *ℤ_parts}
use xge_ptpv.Datatypes.{TimeInternal}
use xge_ptpv.Arith.{billion}

-- The time in nanoseconds.
unfoldable pub total : TimeInternal → ℤ
total t = t.seconds *ℤ pos billion +ℤ t.nanoseconds

pub total_parts :
    (t : TimeInternal)
    → pos_part (total t) + neg_part t.seconds * billion + neg_part t.nanoseconds
      ≡ neg_part (total t) + pos_part t.seconds * billion + pos_part t.nanoseconds
unfolding total
total_parts t =
    omega (arith, +ℤ_parts (t.seconds *ℤ pos billion) t.nanoseconds, *ℤ_parts t.seconds billion)

-- Seconds below 2^61 and nanoseconds below 2^30, of either sign: sums stay within their widths.
pub record InRange (t : TimeInternal) : Type 0 where
  pub seconds_pos : pos_part t.seconds < 2 ^ 61
  pub seconds_neg : neg_part t.seconds < 2 ^ 61
  pub nanoseconds_pos : pos_part t.nanoseconds < 2 ^ 30
  pub nanoseconds_neg : neg_part t.nanoseconds < 2 ^ 30

-- Less than a second of nanoseconds, and no part of the sign opposite to the other's.
pub record IsNormal (t : TimeInternal) : Type 0 where
  pub below_second : pos_part t.nanoseconds < billion
  pub above_second : neg_part t.nanoseconds < billion
  pub no_mix_pos : (pos_part t.seconds ≡ 0) ⊎ (neg_part t.nanoseconds ≡ 0)
  pub no_mix_neg : (neg_part t.seconds ≡ 0) ⊎ (pos_part t.nanoseconds ≡ 0)
