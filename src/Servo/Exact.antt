-- ===== src/Servo/Exact.antt =====
-- `updatePeerDelay` and `updateOffset` on a symmetric path.
use xge_ptpv.Common.{◌^◌, ◌<◌, ◌≡◌, refl, ◌∙◌, ap, true, arith}
use xge_ptpv.Common.Int.{ℤ, ◌+ℤ◌, ◌-ℤ◌, quot, magnitude, parts, parts_of, int_laws}
use xge_ptpv.Datatypes.{PtpClock, TimeInternal}
use xge_ptpv.Arith.{sub_time, add_time}
use xge_ptpv.Arith.Total.{total, total_parts, InRange, IsNormal}
use xge_ptpv.Arith.Sum.{add_time-total, sub_time-total, div2_time-total}
use xge_ptpv.Servo.{Servo}
use xge_ptpv.Servo.Paths.{mean_delay, measure_peer}
use xge_ptpv.Servo.Offset.{p2p, raw_offset}

-- Less than 2^60 ns, which is 36 years.
abbrev pub IsShort : ℤ → Type 0
IsShort z = magnitude z < 2 ^ 60

normal_range : (t : TimeInternal) → IsNormal t → magnitude (total t) < 2 ^ 63 → InRange t
normal_range t n h = record {
  seconds_pos = omega (arith, total_parts t, n, parts t.seconds, parts (total t));
  seconds_neg = omega (arith, total_parts t, n, parts t.seconds, parts (total t));
  nanoseconds_pos = omega (arith, n);
  nanoseconds_neg = omega (arith, n);
}

-- The halves of a delay.
halve_twice : (d : ℤ) → quot (d +ℤ d) 2 ≡ d
halve_twice d = omega int_laws

-- A delay that is measured as `path + skew + residence` there, and as `path - skew` back.
module _ (path skew residence : ℤ) (hp : IsShort path) (hs : IsShort skew)
    (hr : IsShort residence) where
  mean_delay-total :
      (there back correction : TimeInternal)
      → InRange there
      → InRange back
      → InRange correction
      → total there ≡ path +ℤ skew +ℤ residence
      → total back ≡ path -ℤ skew
      → total correction ≡ residence
      → (total (mean_delay there back correction) ≡ path)
        × IsNormal (mean_delay there back correction)
  unfolding mean_delay
  mean_delay-total there back correction r1 r2 r3 e1 e2 e3 =
      let s = add_time-total there back r1 r2 in
      let rs : InRange (add_time there back) =
        normal_range (add_time there back) s.1
          (omega (int_laws, parts_of s.0, parts_of e1, parts_of e2)) in
      let d = sub_time-total (add_time there back) correction rs r3 in
      let twice : total (sub_time (add_time there back) correction) ≡ path +ℤ path =
        omega (int_laws, parts_of s.0, parts_of d.0, parts_of e1, parts_of e2, parts_of e3) in
      let rd : InRange (sub_time (add_time there back) correction) =
        normal_range (sub_time (add_time there back) correction) d.1
          (omega (int_laws, parts_of twice)) in
      let h = div2_time-total (sub_time (add_time there back) correction) rd d.1 in
      (h.0 ∙ ap (λ z. quot z 2) twice ∙ halve_twice path, h.1)

  -- The difference of two times in range, of a known length.
  difference :
      (x y : TimeInternal) (z : ℤ)
      → InRange x
      → InRange y
      → total x ≡ total y +ℤ z
      → magnitude z < 2 ^ 62
      → (total (sub_time x y) ≡ z) × InRange (sub_time x y)
  difference x y z rx ry e h =
      let d = sub_time-total x y rx ry in
      let q : total (sub_time x y) ≡ z = omega (int_laws, parts_of d.0, parts_of e) in
      (q, normal_range (sub_time x y) d.1 (omega (int_laws, parts_of q)))

  -- The peer's clock is behind by `skew`, the path takes the same time both ways, and the response
  -- rests on it for `residence`, which its correction field holds. Then a two-step peer delay
  -- exchange measures the path exactly, before the filter. The times are in range and the rest is short.
  pub measure_peer-exact :
      (c : PtpClock) (correction : TimeInternal)
      → InRange c.pdelay_req_send_time
      → InRange c.pdelay_req_receive_time
      → InRange c.pdelay_resp_send_time
      → InRange c.pdelay_resp_receive_time
      → InRange correction
      → total c.pdelay_req_receive_time ≡ total c.pdelay_req_send_time +ℤ (path -ℤ skew)
      → total c.pdelay_resp_receive_time
        ≡ total c.pdelay_resp_send_time +ℤ (path +ℤ skew +ℤ residence)
      → total correction ≡ residence
      → total (measure_peer true correction c).peer_mean_path_delay ≡ path
  unfolding measure_peer
  measure_peer-exact c correction r1 r2 r3 r4 rc e1 e2 e3 =
      let ms =
        difference c.pdelay_resp_receive_time c.pdelay_resp_send_time (path +ℤ skew +ℤ residence) r4
          r3 e2 (omega int_laws) in
      let sm =
        difference c.pdelay_req_receive_time c.pdelay_req_send_time (path -ℤ skew) r2 r1 e1
          (omega int_laws) in
      (mean_delay-total (sub_time c.pdelay_resp_receive_time c.pdelay_resp_send_time)
        (sub_time c.pdelay_req_receive_time c.pdelay_req_send_time) correction ms.1 sm.1 rc ms.0
        sm.0 e3).0

  raw_offset-p2p :
      (v : Servo) (c : PtpClock) (ms : TimeInternal)
      → v.m_frequency_syntonized ≡ true
      → c.delay_mechanism ≡ p2p
      → raw_offset v c ms ≡ sub_time ms c.peer_mean_path_delay
  unfolding raw_offset
  raw_offset-p2p v c ms e d = rw (e, d) refl

  -- A syntonized servo that has measured the path by peer delay takes from a Sync that was sent and
  -- received over it an offset, before it is filtered, that is the skew exactly. The times are in
  -- range, the rest is short, and the correction field holds the residence.
  pub raw_offset-exact :
      (v : Servo) (c : PtpClock) (send recv correction : TimeInternal)
      → v.m_frequency_syntonized ≡ true
      → c.delay_mechanism ≡ p2p
      → InRange send
      → InRange recv
      → InRange correction
      → InRange c.peer_mean_path_delay
      → total c.peer_mean_path_delay ≡ path
      → total recv ≡ total send +ℤ (path +ℤ skew +ℤ residence)
      → total correction ≡ residence
      → total (raw_offset v c (sub_time (sub_time recv send) correction)) ≡ skew
  raw_offset-exact v c send recv correction e d r1 r2 rc rp ep er ec =
      let gap = difference recv send (path +ℤ skew +ℤ residence) r2 r1 er (omega int_laws) in
      let ms =
        difference (sub_time recv send) correction (path +ℤ skew) gap.1 rc
          (omega (int_laws, parts_of gap.0, parts_of ec)) (omega int_laws) in
      let o =
        difference (sub_time (sub_time recv send) correction) c.peer_mean_path_delay skew ms.1 rp
          (omega (int_laws, parts_of ms.0, parts_of ep)) (omega int_laws) in
      ap total (raw_offset-p2p v c (sub_time (sub_time recv send) correction) e d) ∙ o.0
