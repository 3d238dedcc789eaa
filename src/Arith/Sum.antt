-- ===== src/Arith/Sum.antt =====
-- `addTime`, `subTime` and `div2Time` on the time as one number.
use xge_ptpv.Common.{◌≡◌, ◌∙◌}
use xge_ptpv.Common.Int.{pos, ◌+ℤ◌, ◌-ℤ◌, ◌*ℤ◌, quot, rem, int32, int64, int_laws}
use xge_ptpv.Datatypes.{TimeInternal}
use xge_ptpv.Arith.{billion, time, add_time, sub_time, div2_time}
use xge_ptpv.Arith.Total.{total, total_parts, InRange, IsNormal}
use xge_ptpv.Arith.Normalize.{HasRoom, normalize_time-total, normalize_time-IsNormal}

module _ (x y : TimeInternal) (hx : InRange x) (hy : InRange y) where
  sum_room :
      HasRoom (time (int64 (x.seconds +ℤ y.seconds)) (int32 (x.nanoseconds +ℤ y.nanoseconds)))
  sum_room = omega int_laws

  difference_room :
      HasRoom (time (int64 (x.seconds -ℤ y.seconds)) (int32 (x.nanoseconds -ℤ y.nanoseconds)))
  difference_room = omega int_laws

  -- `addTime` adds times that are in range exactly: nothing overflows, and the result is in normal
  -- form.
  pub add_time-total : (total (add_time x y) ≡ total x +ℤ total y) × IsNormal (add_time x y)
  unfolding add_time
  add_time-total = (
    normalize_time-total _ sum_room ∙ omega (int_laws, total_parts),
    normalize_time-IsNormal _ sum_room,
  )

  -- `subTime` subtracts times that are in range exactly: nothing overflows, and the result is in
  -- normal form.
  pub sub_time-total : (total (sub_time x y) ≡ total x -ℤ total y) × IsNormal (sub_time x y)
  unfolding sub_time
  sub_time-total = (
    normalize_time-total _ difference_room ∙ omega (int_laws, total_parts),
    normalize_time-IsNormal _ difference_room,
  )

module _ (t : TimeInternal) (h : InRange t) (n : IsNormal t) where
  half_room :
      HasRoom
        (time (quot t.seconds 2) (quot (int32 (t.nanoseconds +ℤ rem t.seconds 2 *ℤ pos billion)) 2))
  half_room = omega int_laws

  -- `div2Time` halves a time that is in range and in normal form, rounds towards zero once, and its
  -- result is in normal form.
  pub div2_time-total : (total (div2_time t) ≡ quot (total t) 2) × IsNormal (div2_time t)
  unfolding div2_time
  div2_time-total = (
    normalize_time-total _ half_room ∙ omega (int_laws, total_parts),
    normalize_time-IsNormal _ half_room,
  )
