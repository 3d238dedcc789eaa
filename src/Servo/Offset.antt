-- ===== src/Servo/Offset.antt =====
-- The offset from the master: `updateOffset`, `syntonizeFrequency`, and the state that `initClock`
-- resets.
use xge_ptpv.Common.{
  ℕ, zero, suc, ◌+◌, ◌%◌, ◌^◌, Bool, true, false, not, ◌&&◌, ◌||◌, List, [], ◌∷◌, if◌then◌else◌,
  ltb, ◌==◌,
}
use xge_ptpv.Common.Int.{ℤ, pos, ◌+ℤ◌, quot, ltb_ℤ, int32}
use xge_ptpv.Datatypes.{PtpClock, RunTimeOpts, TimeInternal, OffsetFromMasterFilter}
use xge_ptpv.Arith.{time, clear_time, sub_time}
use xge_ptpv.Servo.{Servo, Command, ofm_delay_len, abs_int, is_beyond, adj_tick_rate}

-- `P2P` and `E2E`
abbrev pub p2p : ℕ
p2p = 2

abbrev pub e2e : ℕ
e2e = 1

-- The largest offset of the delay line so far, and its position.
pub record Extreme : Type 0 where
  pub max_ofm : ℤ
  pub max_pos : ℕ

-- The loop of `syntonizeFrequency` from position `i` on.
unfoldable pub find_extreme : List ℤ → ℕ → Extreme → Extreme
find_extreme [] i m = m
find_extreme (o ∷ os) i m =
    let abs_ofm = abs_int o in
    let next =
      if ltb_ℤ m.max_ofm abs_ofm
      then record { max_ofm = abs_ofm; max_pos = i }
      else if not (ltb_ℤ abs_ofm m.max_ofm) && ltb i 15
      then record m { max_pos = i }
      else m in
    find_extreme os (i + 1) next

-- `syntonizeFrequency`. `time_dev` is `(int32_t)6.0 * 6.4`, which is 38 as an int32_t.
unfoldable pub syntonize_frequency : Servo → Bool
syntonize_frequency v =
    let m = find_extreme v.m_ofm_zline 0 (record { max_ofm = pos 0; max_pos = 0 }) in
    v.m_frequency_syntonized
    || (not (ltb v.m_update_offset_count (ofm_delay_len + 1))
        && (ltb_ℤ m.max_ofm (pos 38) && (ltb 1 m.max_pos && ltb m.max_pos 28)))

-- All but the last entry.
unfoldable pub drop_last : List ℤ → List ℤ
drop_last [] = []
drop_last (o ∷ []) = []
drop_last (o ∷ p ∷ os) = o ∷ drop_last (p ∷ os)

-- The offset before it is filtered.
unfoldable pub raw_offset : Servo → PtpClock → TimeInternal → TimeInternal
raw_offset v c ms =
    if not v.m_frequency_syntonized
    then sub_time ms clear_time
    else if c.delay_mechanism == p2p
    then sub_time ms c.peer_mean_path_delay
    else if c.delay_mechanism == e2e
    then sub_time ms c.mean_path_delay
    else c.offset_from_master

unfoldable pub ofm_output : ℤ → ℤ → ℤ
ofm_output ns prev = int32 (quot ns 2 +ℤ quot prev 2)

-- The delay line takes the offset `ns`, and the flags move on.
unfoldable pub shift_line : ℤ → Servo → Servo
shift_line ns v =
    let line = ns ∷ drop_last v.m_ofm_zline in
    record v {
      m_ofm_zline = line;
      m_frequency_syntonized_z2 = v.m_frequency_syntonized_z1;
      m_frequency_syntonized_z1 = v.m_frequency_syntonized;
      m_frequency_syntonized = syntonize_frequency (record v { m_ofm_zline = line });
      m_update_offset_count = (v.m_update_offset_count + 1) % 2 ^ 32;
    }

abbrev pub with_offset : TimeInternal → TimeInternal → OffsetFromMasterFilter → PtpClock → PtpClock
with_offset ms offset ofm c = record c {
  current_ds = record c.current_ds { offset_from_master = offset };
  exchange = record c.exchange { delay_ms = ms; ofm_filt = ofm };
}

-- What `updateOffset` changes.
pub record Updated : Type 0 where
  pub opts : RunTimeOpts
  pub servo : Servo
  pub clock : PtpClock

-- `updateOffset`
unfoldable pub update_offset :
    TimeInternal → TimeInternal → RunTimeOpts → Servo → PtpClock → TimeInternal → Updated
update_offset send recv opts v c correction =
    let ms = sub_time (sub_time recv send) correction in
    let offset = raw_offset v c ms in
    let y = ofm_output offset.nanoseconds c.ofm_filt.nsec_prev in
    let is_filtered = v.m_frequency_syntonized_z1 || not v.m_frequency_syntonized in
    let ns = if is_filtered then y else offset.nanoseconds in
    let updated = record opts { offset_first_updated = true } in
    if is_beyond opts.max_delay offset
    then record {
      opts = updated;
      servo = v;
      clock = with_offset ms offset (record c.ofm_filt { nsec_prev = pos 0 }) c;
    }
    else record {
      opts = updated;
      servo = shift_line ns v;
      clock =
          with_offset ms (time offset.seconds ns)
            (if is_filtered then record { y = y; nsec_prev = offset.nanoseconds } else c.ofm_filt)
            c;
    }

abbrev zeros : ℕ → List ℤ
zeros zero = []
zeros (suc n) = pos 0 ∷ zeros n

-- `initClock`, without its writes to the clock's offset registers: the increment 0 is to stop the
-- clock meanwhile.
unfoldable pub init_clock : RunTimeOpts → Servo → PtpClock → Updated × List Command
init_clock opts v c = (
  record {
    opts = record opts { offset_first_updated = false };
    servo = record v {
      m_update_offset_count = 0;
      m_ofm_zline = zeros ofm_delay_len;
      m_frequency_syntonized = false;
      m_frequency_syntonized_z1 = false;
      m_frequency_syntonized_z2 = false;
    };
    clock = record c {
      current_ds = record c.current_ds {
        offset_from_master = clear_time;
        mean_path_delay = clear_time;
      };
      port_ds = record c.port_ds { peer_mean_path_delay = clear_time };
      exchange = record c.exchange {
        owd_filt = record c.owd_filt { s_exp = pos 0 };
        ofm_filt = record { y = pos 0; nsec_prev = pos 0 };
        observed_drift = pos 0;
        delay_sm = clear_time;
        delay_ms = clear_time;
      };
      warned_operator_slow_slewing = false;
      warned_operator_fast_slewing = false;
    };
  },
  adj_tick_rate v.m_initial_tick (pos 0)
      ∷ adj_tick_rate v.m_initial_tick (int32 (pos v.m_initial_tick))
      ∷ [],
)
