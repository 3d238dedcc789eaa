-- ===== src/Servo/Filter.antt =====
-- The one-way delay filter: the code that `updateDelay` and `updatePeerDelay` share.
use xge_ptpv.Common.{ℕ, zero, suc, ◌-◌, ◌/◌, ◌^◌, if◌then◌else◌, ◌==◌}
use xge_ptpv.Common.Int.{ℤ, pos, pos_part, ◌+ℤ◌, ◌-ℤ◌, ◌*ℤ◌, quot, magnitude, ltb_ℤ, int32}
use xge_ptpv.Datatypes.{OneWayDelayFilter}
use xge_ptpv.Servo.{is_zero}

-- The loop that lowers `s` until `abs(y) >> (31 - s)` is 0, which it is at 0 but for the least int.
unfoldable pub filter_shift : ℕ → ℤ → ℕ
filter_shift zero y = zero
filter_shift (suc s) y =
    let lower = filter_shift s y in if magnitude y / 2 ^ (31 - suc s) == 0 then suc s else lower

-- The cutoff: `s_exp` grows by one up to `1 << s`, and is at least 1.
unfoldable pub next_s_exp : ℤ → ℕ → ℤ
next_s_exp e s =
    if ltb_ℤ e (pos 1)
    then pos 1
    else if ltb_ℤ e (pos (2 ^ s))
    then int32 (e +ℤ pos 1)
    else if ltb_ℤ (pos (2 ^ s)) e
    then pos (2 ^ s)
    else e

-- The new output, for the delay `ns`.
unfoldable pub filter_output : ℤ → ℤ → ℤ → ℤ → ℤ
filter_output e y ns prev = int32 (
    quot (int32 (int32 (e -ℤ pos 1) *ℤ y)) (pos_part e)
    +ℤ quot (int32 (quot ns 2 +ℤ quot prev 2)) (pos_part e))

-- The filter after the delay `ns`.
unfoldable pub filter_step : ℕ → OneWayDelayFilter → ℤ → OneWayDelayFilter
filter_step s owd ns =
    let e = next_s_exp owd.s_exp (filter_shift s owd.y) in
    record { s_exp = e; y = filter_output e owd.y ns owd.nsec_prev; nsec_prev = ns }

-- The nanoseconds of the filtered delay: the first delay is not filtered.
unfoldable pub filtered : ℕ → OneWayDelayFilter → ℤ → ℤ
filtered s owd ns = if is_zero owd.nsec_prev then ns else (filter_step s owd ns).y
