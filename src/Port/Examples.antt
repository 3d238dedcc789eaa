-- ===== src/Port/Examples.antt =====
-- The theorems on ports at a listening port, at messages that come to it, and at an exchange of two.
use xge_ptpv.Common.{
  ◌==◌, if◌then◌else◌, arith, ℕ, ◌-◌, ◌^◌, ◌≡◌, ◌≢◌, ◌↔◌, refl, sym, subst, Bool, true, false, [],
  ◌∷◌, inr, arith,
}
use mathlib.Core.Bool.{false≢true}
use xge_ptpv.Common.Int.{ℤ, pos, int32, int64, quot, ◌+ℤ◌, ◌-ℤ◌, ◌*ℤ◌}
use xge_ptpv.Datatypes.{
  MsgHeader, TimeInternal, Timestamp, clock_of, header_of, port_of, sample_opts, zero_time,
  zero_header,
}
use xge_ptpv.Arith.{time, sub_time, from_internal_time, normalize_time, carry, align_signs}
use xge_ptpv.Timer.{Timers, idle_timer}
use xge_ptpv.Servo.{Servo, initial_tick}
use xge_ptpv.Msg.{msg_unpack_header, msg_unpack_delay_resp}
use xge_ptpv.Msg.Headers.{HeaderFits}
use xge_ptpv.Msg.RoundTrip.{TimestampFits}
use xge_ptpv.Protocol.{Engine}
use xge_ptpv.Port.{
  Outside, Port, TimestampRegisters, timestamp_identity, ingress_time, get_precise_rx_time,
}
use xge_ptpv.Port.Delay.{answers}
use xge_ptpv.Port.Receive.{dispatch, sync}
use xge_ptpv.Port.Loop.{round}
use xge_ptpv.Port.Safety.{IsSafe}
use xge_ptpv.Port.Runs.{Runs-IsSafe, starts, rounds, ticks, ticked}
use xge_ptpv.Port.Guards.{dispatch_none}
use xge_ptpv.Port.Ingress.{get_precise_rx_time-embedded}
use xge_ptpv.Port.Request.{asking, answer, answered, answers-answer}

abbrev idle_timers : Timers
idle_timers = record {
  elapsed = 0;
  operator_warned_interval_too_small = false;
  itimer =
      idle_timer ∷ idle_timer ∷ idle_timer ∷ idle_timer ∷ idle_timer ∷ idle_timer ∷ idle_timer ∷ [];
}

abbrev free_servo : Servo
free_servo = record {
  m_initial_tick = initial_tick;
  m_update_offset_count = 0;
  m_ofm_zline = [];
  m_frequency_syntonized = false;
  m_frequency_syntonized_z1 = false;
  m_frequency_syntonized_z2 = false;
}

abbrev engine_of : ℕ → Engine
engine_of n = record {
  opts = sample_opts;
  clock = clock_of n;
  timers = idle_timers;
  servo = free_servo;
  master_has_sent_announce = false;
  written = [];
}

abbrev port : ℕ → Port
port n = record { engine = engine_of n; msg_ibuf = λ i. 0; msg_obuf = λ i. 0; sent = []; asked = 0 }

abbrev zero_registers : TimestampRegisters
zero_registers = record { ts0 = 0; ts1 = 0; ts2 = 0; spf0 = 0; spf1 = 0; spf2 = 0; tvid = 0 }

-- Nothing comes in, and what is sent is sent.
abbrev silence : Outside
silence = record {
  net_select = λ n. pos 0;
  net_recv = λ n. record { length = pos 0; message_type = 15; octets = λ i. 0 };
  net_send = λ n. true;
  rtc = λ n. (0, 1, 0);
  tx_stamp = λ n. zero_registers;
  rx_stamp = λ n. zero_registers;
  rand = λ n. record { numerator = 1; denominator = 2 };
  uninitialised = record { seconds_field = record { lsb = 0; msb = 0 }; nanoseconds_field = 0 };
}

abbrev unmanaged : MsgHeader → ℤ → Bool → Port → Port
unmanaged h length own p = p

port-IsSafe : IsSafe (port 1)
port-IsSafe = record {
  sound = record {
    timers = record {
      size = refl;
      syncs = λ e. record { size = refl; interval_is = refl };
      announces = λ e. record { size = refl; interval_is = refl };
      waits = λ e. absurd (false≢true (sym e));
    };
    calibrated = grind arith;
  };
  obeys = λ h m. false≢true h;
}

-- A message of the type of an announce comes in every time.
abbrev announces : Outside
announces = record silence {
  net_select = λ n. pos 1;
  net_recv = λ n. record {
    length = pos 64;
    message_type = 11;
    octets = λ i. if i == 0 then 11 else if i == 1 then 2 else 0;
  };
}

-- The port starts to listen, a tick goes by, and it hears an announce.
Runs-IsSafe_example :
    IsSafe (round announces unmanaged true (ticked (round announces unmanaged true (port 1))))
Runs-IsSafe_example =
    Runs-IsSafe announces unmanaged (λ n. grind arith) (port 1) _ port-IsSafe
      (rounds true (ticked (round announces unmanaged true (port 1)))
        (ticks (round announces unmanaged true (port 1)) (rounds true (port 1) starts)))

-- A Sync of the port itself.
dispatch_none_example :
    dispatch silence unmanaged sync (header_of 1) (pos 44) zero_time true (port 1) ≡ port 1
dispatch_none_example =
    dispatch_none silence unmanaged (header_of 1) (pos 44) zero_time true (port 1) sync refl
      (inr (inr (refl, refl)))

-- The message came in 50 ns before the end of a second, and the clock was read 50 ns after it.
get_precise_rx_time-embedded_example :
    get_precise_rx_time
      (record zero_header { reserved2 = 999_999_950 })
      (time (pos 8) (pos 50))
      sample_opts
      (timestamp_identity zero_registers)
    ≡ sub_time (time (pos 7) (pos 999_999_950)) zero_time
get_precise_rx_time-embedded_example =
    get_precise_rx_time-embedded (record zero_header { reserved2 = 999_999_950 }) sample_opts
      (timestamp_identity zero_registers) 7 999_999_950 8 50 refl refl (omega arith) (omega arith)
      (omega arith) (omega arith) (omega arith)

-- Port 1, whose parent is port 7.
abbrev child : Port
child =
    let p = port 1 in
    let c = p.engine.clock in
    record p {
      engine = record p.engine {
        clock = record c { parent_ds = record c.parent_ds { parent_port_identity = port_of 7 } };
      };
    }

clock_of-HeaderFits : (n : ℕ) → HeaderFits (clock_of n)
clock_of-HeaderFits n = record {
  version_lt = omega arith;
  domain_lt = omega arith;
  port = record { identity_length = refl; number_lt = omega arith };
}

child-HeaderFits : HeaderFits child.engine.clock
child-HeaderFits = record {
  version_lt = omega arith;
  domain_lt = omega arith;
  port = record { identity_length = refl; number_lt = omega arith };
}

-- The request came in at 8 s and 20 ns, and the parent's clock is read 30 ns later.
abbrev request_header : MsgHeader
request_header = record zero_header { reserved2 = 20 }

abbrev read_at : TimeInternal
read_at = time (pos 8) (pos 50)

abbrev request_at : Timestamp
request_at = record { seconds_field = record { lsb = 8; msb = 0 }; nanoseconds_field = 20 }

request-answered : answered silence silence child (port 7) request_header read_at ≡ request_at
unfolding get_precise_rx_time ingress_time sub_time from_internal_time normalize_time carry
    align_signs int64 int32 quot ◌+ℤ◌ ◌-ℤ◌ ◌*ℤ◌
request-answered = refl

request-TimestampFits : TimestampFits request_at
request-TimestampFits = record {
  lsb_lt = omega arith;
  msb_lt = omega arith;
  nanoseconds_lt = omega arith;
}

answers-answer_example :
    ((answers
          (msg_unpack_header (answer silence silence child (port 7) request_header read_at))
          (msg_unpack_delay_resp (answer silence silence child (port 7) request_header read_at))
          (asking silence silence child (port 7) request_header read_at)
        ≡ true)
      ↔ (2 ≢ 2 ^ 16 - 1))
    × ((msg_unpack_delay_resp
          (answer silence silence child (port 7) request_header read_at)).receive_timestamp
        ≡ answered silence silence child (port 7) request_header read_at)
answers-answer_example =
    answers-answer silence silence child (port 7) request_header read_at child-HeaderFits
      (clock_of-HeaderFits 7) (omega arith)
      (subst TimestampFits (sym request-answered) request-TimestampFits) refl refl
