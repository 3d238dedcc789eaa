-- ===== src/Servo/Paths.antt =====
-- The path delay: `updateDelay` and `updatePeerDelay` of esl/sw/dep/servo.cpp, and the thresholds of
-- esl/sw/dep/sys.cpp.
use xge_ptpv.Common.{◌/◌, Bool, not, ◌&&◌, ◌||◌, if◌then◌else◌}
use xge_ptpv.Common.Int.{ℤ, pos, negsuc, ◌+ℤ◌, ◌-ℤ◌, ◌*ℤ◌, neg, ltb_ℤ, int32}
use xge_ptpv.Datatypes.{PtpClock, RunTimeOpts, TimeInternal, OneWayDelayFilter}
use xge_ptpv.Arith.{time, is_negative, add_time, sub_time, div2_time}
use xge_ptpv.Servo.{is_zero, abs_int}
use xge_ptpv.Servo.Filter.{filter_step, filtered}

-- The sum of the delays there and back, without the correction, halved.
unfoldable pub mean_delay : TimeInternal → TimeInternal → TimeInternal → TimeInternal
mean_delay there back correction = div2_time (sub_time (add_time there back) correction)

-- A delay of whole seconds clears the filter, all but its output.
abbrev pub cleared : OneWayDelayFilter → OneWayDelayFilter
cleared owd = record owd { s_exp = pos 0; nsec_prev = pos 0 }

abbrev with_peer_delay : TimeInternal → OneWayDelayFilter → PtpClock → PtpClock
with_peer_delay d owd c = record c {
  port_ds = record c.port_ds { peer_mean_path_delay = d };
  exchange = record c.exchange { owd_filt = owd };
}

-- `updatePeerDelay` up to the filter.
unfoldable pub measure_peer : Bool → TimeInternal → PtpClock → PtpClock
measure_peer two_step correction c =
    let ms = sub_time c.pdelay_resp_receive_time c.pdelay_resp_send_time in
    let sm = sub_time c.pdelay_req_receive_time c.pdelay_req_send_time in
    if two_step
    then record c {
      port_ds = record c.port_ds { peer_mean_path_delay = mean_delay ms sm correction };
      exchange = record c.exchange { pdelay_ms = ms; pdelay_sm = sm };
    }
    else record c {
      port_ds = record c.port_ds {
        peer_mean_path_delay =
            div2_time
              (sub_time (sub_time c.pdelay_resp_receive_time c.pdelay_req_send_time) correction);
      };
    }

-- `updatePeerDelay` from there on.
unfoldable pub filter_peer : RunTimeOpts → PtpClock → PtpClock
filter_peer opts c =
    let d = c.peer_mean_path_delay in
    if not (is_zero d.seconds)
    then with_peer_delay d (cleared c.owd_filt) c
    else with_peer_delay (time d.seconds (filtered opts.s c.owd_filt d.nanoseconds))
        (filter_step opts.s c.owd_filt d.nanoseconds) c

unfoldable pub update_peer_delay : RunTimeOpts → PtpClock → TimeInternal → Bool → PtpClock
update_peer_delay opts c correction two_step = filter_peer opts (measure_peer two_step correction c)

-- `increaseMaxDelayThreshold`
unfoldable pub increase_max_delay_threshold : RunTimeOpts → RunTimeOpts
increase_max_delay_threshold opts = record opts { max_delay = int32 (opts.max_delay *ℤ pos 2) }

-- `z >> 1`
abbrev pub half : ℤ → ℤ
half (pos n) = pos (n / 2)
half (negsuc n) = negsuc (n / 2)

-- `decreaseMaxDelayThreshold`
unfoldable pub decrease_max_delay_threshold : RunTimeOpts → RunTimeOpts
decrease_max_delay_threshold opts =
    if ltb_ℤ (half opts.max_delay) opts.orig_max_delay
    then opts
    else record opts { max_delay = half opts.max_delay }

abbrev with_discarded : ℤ → PtpClock → PtpClock
with_discarded n c = record c { exchange = record c.exchange { discarded_packet_count = n } }

-- `updateDelay` from its label `autotune` on.
unfoldable pub autotune : RunTimeOpts → PtpClock → RunTimeOpts × PtpClock
autotune opts c =
    if not opts.max_delay_auto_tune
    then (opts, c)
    else if not (ltb_ℤ c.discarded_packet_count opts.discarded_packet_threshold)
    then (increase_max_delay_threshold opts, with_discarded (pos 0) c)
    else if ltb_ℤ c.discarded_packet_count (int32 (neg opts.discarded_packet_threshold))
    then (decrease_max_delay_threshold opts, with_discarded (pos 0) c)
    else (opts, c)

-- The checks at the start of `updateDelay`.
unfoldable pub is_rejected : RunTimeOpts → TimeInternal → Bool
is_rejected opts d =
    (not (is_zero opts.max_delay) && opts.offset_first_updated)
    && ((is_negative d.nanoseconds && ltb_ℤ opts.max_delay (abs_int d.nanoseconds))
        || (not (is_zero d.seconds) || ltb_ℤ opts.max_delay d.nanoseconds))

abbrev with_mean_delay : TimeInternal → OneWayDelayFilter → PtpClock → PtpClock
with_mean_delay d owd c = record c {
  current_ds = record c.current_ds { mean_path_delay = d };
  exchange = record c.exchange { owd_filt = owd };
}

-- The new mean path delay, which is dropped when it has whole seconds or is negative.
unfoldable pub take_delay : RunTimeOpts → TimeInternal → PtpClock → RunTimeOpts × PtpClock
take_delay opts d c =
    if not (is_zero d.seconds)
    then (opts, with_mean_delay c.mean_path_delay (cleared c.owd_filt) c)
    else if is_negative d.nanoseconds
    then (opts, c)
    else autotune opts (
        with_mean_delay (time d.seconds (filtered opts.s c.owd_filt d.nanoseconds))
          (filter_step opts.s c.owd_filt d.nanoseconds) c)

-- `updateDelay`. The options change too.
unfoldable pub update_delay : RunTimeOpts → PtpClock → TimeInternal → RunTimeOpts × PtpClock
update_delay opts c correction =
    let sm = sub_time c.delay_req_receive_time c.delay_req_send_time in
    if is_rejected opts sm
    then autotune opts (with_discarded (int32 (c.discarded_packet_count +ℤ pos 1)) c)
    else if opts.offset_first_updated
    then take_delay opts (mean_delay sm c.delay_ms correction) (record c {
      exchange = record c.exchange {
        discarded_packet_count = int32 (c.discarded_packet_count -ℤ pos 1);
        delay_sm = sm;
      };
    })
    else autotune opts c
