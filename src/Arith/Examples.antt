-- ===== src/Arith/Examples.antt =====
-- The theorems on times at concrete times.
use xge_ptpv.Common.{true, ◌^◌, ◌≡◌, ◌↔◌, ◌<◌, refl, inl, inr, arith}
use xge_ptpv.Common.Int.{pos, negsuc, ◌+ℤ◌, ◌-ℤ◌, ◌≤ℤ◌, quot, magnitude}
use xge_ptpv.Datatypes.{TimeInternal, Timestamp, Integer64}
use xge_ptpv.Arith.{
  time, add_time, sub_time, div2_time, gt_time, is_time_close, integer64_to_internal_time,
  to_internal_time, from_internal_time,
}
use xge_ptpv.Arith.Total.{total, InRange, IsNormal}
use xge_ptpv.Arith.Sum.{add_time-total, sub_time-total, div2_time-total}
use xge_ptpv.Arith.Compare.{gt_time_iff, is_time_close_iff}
use xge_ptpv.Arith.Convert.{
  scaled_value, integer64_to_internal_time-total, to_internal_time-from_internal_time,
}

-- 3.9 s and 5.2 s
abbrev early : TimeInternal
early = time (pos 3) (pos 900_000_000)

abbrev late : TimeInternal
late = time (pos 5) (pos 200_000_000)

abbrev early-InRange : InRange early
early-InRange = record {
  seconds_pos = omega arith;
  seconds_neg = omega arith;
  nanoseconds_pos = omega arith;
  nanoseconds_neg = omega arith;
}

abbrev late-InRange : InRange late
late-InRange = record {
  seconds_pos = omega arith;
  seconds_neg = omega arith;
  nanoseconds_pos = omega arith;
  nanoseconds_neg = omega arith;
}

add_time-total_example :
    (total (add_time early late) ≡ total early +ℤ total late) × IsNormal (add_time early late)
add_time-total_example = add_time-total early late early-InRange late-InRange

sub_time-total_example :
    (total (sub_time early late) ≡ total early -ℤ total late) × IsNormal (sub_time early late)
sub_time-total_example = sub_time-total early late early-InRange late-InRange

div2_time-total_example : (total (div2_time late) ≡ quot (total late) 2) × IsNormal (div2_time late)
div2_time-total_example = div2_time-total late late-InRange (record {
  below_second = omega arith;
  above_second = omega arith;
  no_mix_pos = inr refl;
  no_mix_neg = inl refl;
})

gt_time_iff_example : (gt_time late early ≡ true) ↔ (total early ≤ℤ total late)
gt_time_iff_example = gt_time_iff late early late-InRange early-InRange

is_time_close_iff_example :
    (is_time_close early late (pos 1_000_000) ≡ true)
    ↔ (magnitude (total early -ℤ total late) < 1_000_000)
is_time_close_iff_example =
    is_time_close_iff early late 1_000_000
      (record {
        seconds_pos = omega arith;
        seconds_neg = refl;
        nanoseconds_pos = omega arith;
        nanoseconds_neg = refl;
      })
      (record {
        seconds_pos = omega arith;
        seconds_neg = refl;
        nanoseconds_pos = omega arith;
        nanoseconds_neg = refl;
      })
      (omega arith)

-- -2.5 ns
abbrev correction : Integer64
correction = record { lsb = 0xFFFD_8000; msb = negsuc 0 }

integer64_to_internal_time-total_example :
    (total (integer64_to_internal_time correction) ≡ quot (scaled_value correction) (2 ^ 16))
    × IsNormal (integer64_to_internal_time correction)
integer64_to_internal_time-total_example =
    integer64_to_internal_time-total correction
      (record { lsb_lt = omega arith; msb_pos = omega arith; msb_neg = omega arith })

abbrev stamp : Timestamp
stamp = record {
  seconds_field = record { lsb = 4_000_000_000; msb = 7 };
  nanoseconds_field = 999_999_999;
}

abbrev blank : Timestamp
blank = record { seconds_field = record { lsb = 0; msb = 0 }; nanoseconds_field = 0 }

to_internal_time-from_internal_time_example :
    to_internal_time (from_internal_time late blank) ≡ late
to_internal_time-from_internal_time_example =
    to_internal_time-from_internal_time late blank (record {
      seconds_pos = omega arith;
      seconds_neg = refl;
      nanoseconds_pos = omega arith;
      nanoseconds_neg = refl;
    })
