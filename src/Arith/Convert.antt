-- ===== src/Arith/Convert.antt =====
-- The conversions between internal times and the wire's timestamps and intervals.
use xge_ptpv.Common.{◌^◌, ◌<◌, ◌≡◌, if◌then◌else◌, arith}
use xge_ptpv.Common.Int.{
  ℤ, pos, negsuc, pos_part, neg_part, ◌+ℤ◌, ◌*ℤ◌, quot, neg, rem, int64, magnitude, int32_fits,
  int_laws,
}
use xge_ptpv.Datatypes.{TimeInternal, Timestamp, Integer64}
use xge_ptpv.Arith.{
  billion, time, is_negative, integer64_to_internal_time, from_internal_time, to_internal_time,
}
use xge_ptpv.Arith.Total.{total, total_parts, IsNormal}
use xge_ptpv.Arith.Compare.{IsEpochTime}

-- The 64-bit number of 2^-16 nanoseconds that a correction field holds.
abbrev pub scaled_value : Integer64 → ℤ
scaled_value b = b.msb *ℤ pos (2 ^ 32) +ℤ pos b.lsb

-- The field's widths: 32 bits each, `msb` signed and not the least.
pub record IsInteger64 (b : Integer64) : Type 0 where
  pub lsb_lt : b.lsb < 2 ^ 32
  pub msb_pos : pos_part b.msb < 2 ^ 31
  pub msb_neg : neg_part b.msb < 2 ^ 31

unwrapped :
    (b : Integer64)
    → IsInteger64 b
    → int64 (int64 (b.msb *ℤ pos (2 ^ 32)) +ℤ pos b.lsb) ≡ scaled_value b
unwrapped b h = omega int_laws

scaled_bound : (b : Integer64) → IsInteger64 b → magnitude (scaled_value b) < 2 ^ 63
scaled_bound b h = omega int_laws

-- The rest of the conversion, from the scaled value on.
unscale : ℤ → TimeInternal
unscale v =
    let nanos = quot (if is_negative v then int64 (neg v) else v) (2 ^ 16) in
    if is_negative v
    then time (neg (quot nanos billion)) (neg (rem nanos billion))
    else time (quot nanos billion) (rem nanos billion)

unscale-total :
    (v : ℤ) → magnitude v < 2 ^ 63 → (total (unscale v) ≡ quot v (2 ^ 16)) × IsNormal (unscale v)
unfolding unscale
unscale-total (pos n) h = (omega (int_laws, total_parts), omega int_laws)
unscale-total (negsuc n) h = (omega (int_laws, total_parts), omega int_laws)

-- A correction field within its widths, whose upper half is not the least integer, becomes the
-- whole nanoseconds that it holds, rounded towards zero, in normal form.
pub integer64_to_internal_time-total :
    (b : Integer64)
    → IsInteger64 b
    → (total (integer64_to_internal_time b) ≡ quot (scaled_value b) (2 ^ 16))
      × IsNormal (integer64_to_internal_time b)
unfolding integer64_to_internal_time unscale
integer64_to_internal_time-total b h =
    rw (unwrapped b h) (unscale-total (scaled_value b) (scaled_bound b h))

epoch :
    (s n : ℤ) (e : Timestamp)
    → IsEpochTime (time s n)
    → to_internal_time (from_internal_time (time s n) e) ≡ time s n
unfolding to_internal_time from_internal_time
epoch (pos s) (pos n) e h = ground (arith, int32_fits (pos n))
epoch (pos s) (negsuc n) e h = absurd (omega arith)
epoch (negsuc s) n e h = absurd (omega arith)

-- A time since the epoch, of less than 2^48 seconds and of less than a second of nanoseconds,
-- survives the wire's format, whatever the target held.
pub to_internal_time-from_internal_time :
    (t : TimeInternal) (e : Timestamp)
    → IsEpochTime t
    → to_internal_time (from_internal_time t e) ≡ t
to_internal_time-from_internal_time t e h = epoch t.seconds t.nanoseconds e h

pub record IsTimestamp (e : Timestamp) : Type 0 where
  pub lsb_lt : e.seconds_field.lsb < 2 ^ 32
  pub msb_lt : e.seconds_field.msb < 2 ^ 16
  pub nanoseconds_lt : e.nanoseconds_field < 2 ^ 31

-- A timestamp within its widths, with nanoseconds below 2^31, survives the internal format, whatever
-- the target held.
pub from_internal_time-to_internal_time :
    (e old : Timestamp) → IsTimestamp e → from_internal_time (to_internal_time e) old ≡ e
unfolding to_internal_time from_internal_time
from_internal_time-to_internal_time e old h =
    rw (int32_fits (pos e.nanoseconds_field) (omega arith)) (ground arith)
