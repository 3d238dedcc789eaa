-- ===== src/Port/Ingress.antt =====
-- The time that a message came in, from the nanoseconds that the hardware puts into its header.
use xge_ptpv.Common.{ℕ, ◌+◌, ◌*◌, ◌^◌, ◌<◌, ◌≤◌, ◌≡◌, ap, true, arith}
use xge_ptpv.Common.Int.{pos, ◌-ℤ◌, int32_fits, int64_fits}
use xge_ptpv.Datatypes.{MsgHeader, RunTimeOpts}
use xge_ptpv.Arith.{time, billion, sub_time}
use xge_ptpv.Port.{TimestampIdentity, ingress_time, get_precise_rx_time}

found :
    (header : MsgHeader) (opts : RunTimeOpts) (stamp : TimestampIdentity) (s n rs rn : ℕ)
    → opts.emb_ingress_time ≡ true
    → header.reserved2 ≡ n
    → n < billion
    → rn < billion
    → rs < 2 ^ 62
    → s * billion + n < rs * billion + rn
    → rs * billion + rn ≤ s * billion + n + billion
    → ingress_time header (time (pos rs) (pos rn)) opts stamp ≡ time (pos s) (pos n)
unfolding ingress_time ◌-ℤ◌
found header opts stamp s n rs rn e h a b w c d =
    ground (arith, int32_fits (pos n), int64_fits (pos s), int64_fits (pos rs))

-- When the header carries the nanoseconds of a time, and the clock is read after that time but at
-- most a second later, then that time, less the inbound latency, is what is found. The seconds are
-- below 2^62.
pub get_precise_rx_time-embedded :
    (header : MsgHeader) (opts : RunTimeOpts) (stamp : TimestampIdentity) (s n rs rn : ℕ)
    → opts.emb_ingress_time ≡ true
    → header.reserved2 ≡ n
    → n < billion
    → rn < billion
    → rs < 2 ^ 62
    → s * billion + n < rs * billion + rn
    → rs * billion + rn ≤ s * billion + n + billion
    → get_precise_rx_time header (time (pos rs) (pos rn)) opts stamp
      ≡ sub_time (time (pos s) (pos n)) opts.inbound_latency
unfolding get_precise_rx_time
get_precise_rx_time-embedded header opts stamp s n rs rn e h a b w c d =
    ap (λ t. sub_time t opts.inbound_latency) (found header opts stamp s n rs rn e h a b w c d)
