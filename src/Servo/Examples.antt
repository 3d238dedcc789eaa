-- ===== src/Servo/Examples.antt =====
-- The theorems on the servo at concrete clocks.
use xge_ptpv.Common.{ℕ, ◌<◌, ◌^◌, ◌≡◌, refl, true, [], arith}
use xge_ptpv.Common.Int.{pos, ◌+ℤ◌, ◌-ℤ◌, ◌*ℤ◌, ◌≤ℤ◌}
use xge_ptpv.Datatypes.{PtpClock, OneWayDelayFilter, clock_of, sample_opts}
use xge_ptpv.Arith.{time, sub_time}
use xge_ptpv.Arith.Total.{total, InRange}
use xge_ptpv.Servo.{Servo, initial_tick, adj_tick_rate, update_clock}
use xge_ptpv.Servo.Filter.{filter_step}
use xge_ptpv.Servo.Paths.{measure_peer}
use xge_ptpv.Servo.Offset.{raw_offset}
use xge_ptpv.Servo.Rate.{InBounds, adj_tick_rate-InBounds, IsSafe, update_clock-IsSafe}
use xge_ptpv.Servo.Stable.{IsWithin, filter_step-IsWithin}
use xge_ptpv.Servo.Exact.{measure_peer-exact, raw_offset-exact}

abbrev locked : Servo
locked = record {
  m_initial_tick = initial_tick;
  m_update_offset_count = 40;
  m_ofm_zline = [];
  m_frequency_syntonized = true;
  m_frequency_syntonized_z1 = true;
  m_frequency_syntonized_z2 = true;
}

adj_tick_rate-InBounds_example : InBounds (adj_tick_rate initial_tick (pos 0))
adj_tick_rate-InBounds_example = adj_tick_rate-InBounds (pos 0)

-- 17 us ahead of the master, with a path of 250 ns
abbrev ahead : PtpClock
ahead =
    let c = clock_of 1 in
    record c {
      current_ds = record c.current_ds { offset_from_master = time (pos 0) (pos 17_000) };
      port_ds = record c.port_ds { peer_mean_path_delay = time (pos 0) (pos 250) };
    }

update_clock-IsSafe_example : IsSafe (update_clock sample_opts locked ahead)
update_clock-IsSafe_example = update_clock-IsSafe sample_opts locked ahead refl (omega arith)

abbrev warm : OneWayDelayFilter
warm = record { nsec_prev = pos 260; y = pos 240; s_exp = pos 5 }

filter_step-IsWithin_example :
    IsWithin 300 (filter_step 6 warm (pos 251))
    × (pos 1 ≤ℤ (filter_step 6 warm (pos 251)).s_exp)
    × ((filter_step 6 warm (pos 251)).s_exp ≤ℤ pos (2 ^ 6))
filter_step-IsWithin_example =
    filter_step-IsWithin 6 warm (pos 251) 300 (omega arith) (omega arith) (omega arith)
      (record { output = omega arith; last = omega arith })

-- A peer that is 17 us behind, 250 ns away, and answers after a residence of 40 ns.
abbrev exchange : PtpClock
exchange =
    let c = clock_of 1 in
    record c {
      exchange = record c.exchange {
        pdelay_req_send_time = time (pos 100) (pos 20_000);
        pdelay_req_receive_time = time (pos 100) (pos 3_250);
        pdelay_resp_send_time = time (pos 100) (pos 999_990_000);
        pdelay_resp_receive_time = time (pos 101) (pos 7_290);
      };
    }

in_range : (s n : ℕ) → s < 2 ^ 61 → n < 2 ^ 30 → InRange (time (pos s) (pos n))
in_range s n hs hn = record {
  seconds_pos = hs;
  seconds_neg = omega arith;
  nanoseconds_pos = hn;
  nanoseconds_neg = omega arith;
}

measure_peer-exact_example :
    total (measure_peer true (time (pos 0) (pos 40)) exchange).peer_mean_path_delay ≡ pos 250
unfolding total ◌+ℤ◌ ◌-ℤ◌ ◌*ℤ◌
measure_peer-exact_example =
    measure_peer-exact (pos 250) (pos 17_000) (pos 40) (omega arith) (omega arith) (omega arith)
      exchange (time (pos 0) (pos 40)) (in_range 100 20_000 (omega arith) (omega arith))
      (in_range 100 3_250 (omega arith) (omega arith))
      (in_range 100 999_990_000 (omega arith) (omega arith))
      (in_range 101 7_290 (omega arith) (omega arith)) (in_range 0 40 (omega arith) (omega arith))
      refl refl refl

raw_offset-exact_example :
    total (
      raw_offset locked ahead (
        sub_time
          (sub_time (time (pos 101) (pos 7_290)) (time (pos 100) (pos 999_990_000)))
          (time (pos 0) (pos 40))))
    ≡ pos 17_000
unfolding total ◌+ℤ◌ ◌*ℤ◌
raw_offset-exact_example =
    raw_offset-exact (pos 250) (pos 17_000) (pos 40) (omega arith) (omega arith) (omega arith)
      locked ahead (time (pos 100) (pos 999_990_000)) (time (pos 101) (pos 7_290))
      (time (pos 0) (pos 40)) refl refl (in_range 100 999_990_000 (omega arith) (omega arith))
      (in_range 101 7_290 (omega arith) (omega arith)) (in_range 0 40 (omega arith) (omega arith))
      (in_range 0 250 (omega arith) (omega arith)) refl refl refl
