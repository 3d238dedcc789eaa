-- ===== src/Arith.antt =====
-- esl/sw/arith.cpp: time arithmetic. A `TimeInternal` is an int64_t of seconds and an int32_t of
-- nanoseconds; each result wraps at its width (`int64`, `int32`).
pub mod Total
pub mod Normalize
pub mod Sum
pub mod Compare
pub mod Convert
mod Examples
use xge_ptpv.Common.{
  ℕ, zero, suc, ◌+◌, ◌*◌, ◌/◌, ◌%◌, ◌^◌, Bool, true, false, ◌||◌, ◌&&◌, not, if◌then◌else◌,
}
use xge_ptpv.Common.Int.{
  ℤ, pos, negsuc, pos_part, ◌+ℤ◌, ◌-ℤ◌, ◌*ℤ◌, neg, quot, rem, magnitude, int32, int64,
}
use xge_ptpv.Datatypes.{TimeInternal, Timestamp, Integer64, UInteger48}

abbrev pub billion : ℕ
billion = 1_000_000_000

abbrev pub time : ℤ → ℤ → TimeInternal
time s n = record { seconds = s; nanoseconds = n }

-- `z < 0` and `z > 0`
abbrev pub is_negative : ℤ → Bool
is_negative (pos n) = false
is_negative (negsuc n) = true

abbrev pub is_positive : ℤ → Bool
is_positive (pos (suc n)) = true
is_positive z = false

-- The first two statements of `normalizeTime`.
unfoldable pub carry : TimeInternal → TimeInternal
carry r =
    time (int64 (r.seconds +ℤ quot r.nanoseconds billion))
      (int32 (r.nanoseconds -ℤ int32 (quot r.nanoseconds billion *ℤ pos billion)))

-- Its `if`: seconds and nanoseconds of opposite signs.
unfoldable pub align_signs : TimeInternal → TimeInternal
align_signs r =
    if is_positive r.seconds && is_negative r.nanoseconds
    then time (int64 (r.seconds -ℤ pos 1)) (int32 (r.nanoseconds +ℤ pos billion))
    else if is_negative r.seconds && is_positive r.nanoseconds
    then time (int64 (r.seconds +ℤ pos 1)) (int32 (r.nanoseconds -ℤ pos billion))
    else r

unfoldable pub normalize_time : TimeInternal → TimeInternal
normalize_time r = align_signs (carry r)

unfoldable pub add_time : TimeInternal → TimeInternal → TimeInternal
add_time x y =
    normalize_time (time (int64 (x.seconds +ℤ y.seconds)) (int32 (x.nanoseconds +ℤ y.nanoseconds)))

unfoldable pub sub_time : TimeInternal → TimeInternal → TimeInternal
sub_time x y =
    normalize_time (time (int64 (x.seconds -ℤ y.seconds)) (int32 (x.nanoseconds -ℤ y.nanoseconds)))

-- The right side `r->seconds % 2 * 1000000000` is an int64_t.
unfoldable pub div2_time : TimeInternal → TimeInternal
div2_time r =
    normalize_time
      (time (quot r.seconds 2) (quot (int32 (r.nanoseconds +ℤ rem r.seconds 2 *ℤ pos billion)) 2))

abbrev pub clear_time : TimeInternal
clear_time = time (pos 0) (pos 0)

unfoldable pub nano_to_time : ℤ → TimeInternal
nano_to_time nano = normalize_time (time (pos 0) nano)

unfoldable pub is_time_internal_negative : TimeInternal → Bool
is_time_internal_negative p = is_negative p.seconds || is_negative p.nanoseconds

unfoldable pub gt_time : TimeInternal → TimeInternal → Bool
gt_time x y = not (is_time_internal_negative (sub_time x y))

-- `abs` of the least int wraps to itself.
unfoldable pub abs_time : TimeInternal → TimeInternal
abs_time t = time (int64 (pos (magnitude t.seconds))) (int32 (pos (magnitude t.nanoseconds)))

unfoldable pub is_time_close : TimeInternal → TimeInternal → ℤ → Bool
is_time_close x y nanos = not (gt_time (abs_time (sub_time x y)) (nano_to_time nanos))

-- At most a millisecond apart, by its comment.
unfoldable pub check_timestamp_is_fresh2 : TimeInternal → TimeInternal → Bool
check_timestamp_is_fresh2 a b = is_time_close a b (pos 1_000_000)

-- The value goes through an int64_t of nanoseconds scaled by 2^16, whose sign is split off.
unfoldable pub integer64_to_internal_time : Integer64 → TimeInternal
integer64_to_internal_time bigint =
    let scaled = int64 (int64 (bigint.msb *ℤ pos (2 ^ 32)) +ℤ pos bigint.lsb) in
    let nanos = quot (if is_negative scaled then int64 (neg scaled) else scaled) (2 ^ 16) in
    if is_negative scaled
    then time (neg (quot nanos billion)) (neg (rem nanos billion))
    else time (quot nanos billion) (rem nanos billion)

-- A negative time leaves `external` as it was.
unfoldable pub from_internal_time : TimeInternal → Timestamp → Timestamp
from_internal_time internal external =
    if is_negative internal.seconds || is_negative internal.nanoseconds then external else record {
      seconds_field = record {
        lsb = pos_part internal.seconds % 2 ^ 32;
        msb = pos_part internal.seconds / 2 ^ 32 % 2 ^ 16;
      };
      nanoseconds_field = pos_part internal.nanoseconds;
    }

-- The nanoseconds field, a uint32_t, is stored in an int32_t.
unfoldable pub to_internal_time : Timestamp → TimeInternal
to_internal_time external =
    time (pos (external.seconds_field.msb * 2 ^ 32 + external.seconds_field.lsb))
      (int32 (pos external.nanoseconds_field))
