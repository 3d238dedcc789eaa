-- ===== src/Bmc/Sets.antt =====
-- The data set updates of esl/sw/bmc.cpp: `initData`, `m1`, `p1`, `s1` and `copyD0`.
use xge_ptpv.Common.{
  ℕ, zero, suc, ◌+◌, ◌/◌, ◌%◌, ◌^◌, Bool, false, not, List, [], ◌∷◌, ◌==◌, if◌then◌else◌, get_or,
}
use xge_ptpv.Common.Int.{pos, negsuc}
use xge_ptpv.Datatypes.{
  ClockIdentity, MsgHeader, MsgAnnounce, RunTimeOpts, PtpClock, PortState, ptp_initializing,
  ptp_faulty, ptp_disabled, ptp_listening, ptp_pre_master, ptp_master, ptp_passive,
  ptp_uncalibrated, ptp_slave,
}
use xge_ptpv.Arith.{clear_time}

-- The values of the enumeration.
abbrev pub state_code : PortState → ℕ
state_code ptp_initializing = 1
state_code ptp_faulty = 2
state_code ptp_disabled = 3
state_code ptp_listening = 4
state_code ptp_pre_master = 5
state_code ptp_master = 6
state_code ptp_passive = 7
state_code ptp_uncalibrated = 8
state_code ptp_slave = 9

abbrev pub is_state : PortState → PortState → Bool
is_state s t = state_code s == state_code t

-- `IS_SET(data, bitpos)`
abbrev pub is_set : ℕ → ℕ → Bool
is_set word bitpos = (word / 2 ^ bitpos) % 2 == 1

abbrev pub li61 : ℕ
li61 = 0

abbrev pub li59 : ℕ
li59 = 1

abbrev pub utcv : ℕ
utcv = 2

abbrev pub ptpt : ℕ
ptpt = 3

abbrev pub ttra : ℕ
ttra = 4

abbrev pub ftra : ℕ
ftra = 5

abbrev pub slave_only_clock_class : ℕ
slave_only_clock_class = 255

abbrev internal_oscillator : ℕ
internal_oscillator = 0xa0

abbrev number_ports : ℕ
number_ports = 1

-- The loop of `initData` over `i`, with `left` rounds to go; `j` indexes the MAC address.
unfoldable pub fill_identity : List ℕ → ℕ → ℕ → ℕ → ClockIdentity
fill_identity uuid zero i j = []
fill_identity uuid (suc left) i j =
    (if i == 3 then 0xff else if i == 4 then 0xfe else get_or uuid j 0)
    ∷ fill_identity uuid left (i + 1) (if (i == 3) then j else if i == 4 then j else j + 1)

-- The 8 octets of the clock identity.
unfoldable pub eui64 : List ℕ → ClockIdentity
unfolding fill_identity
eui64 uuid = fill_identity uuid 8 0 0

-- `initData`. The seed of `srand` is left out. The options change too.
unfoldable pub init_data : RunTimeOpts → PtpClock → RunTimeOpts × PtpClock
init_data opts c =
    let identity = eui64 c.port_uuid_field in
    (
      (if opts.slave_only
          then record opts {
            clock_quality = record opts.clock_quality { clock_class = slave_only_clock_class };
          }
          else opts),
      record c {
        default_ds = record {
          two_step_flag = not opts.one_step;
          clock_identity = identity;
          number_ports = number_ports;
          clock_quality = opts.clock_quality;
          priority1 = opts.priority1;
          priority2 = opts.priority2;
          domain_number = opts.domain_number;
          slave_only = opts.slave_only;
        };
        port_ds = record c.port_ds {
          port_identity = record { clock_identity = identity; port_number = number_ports };
          log_min_delay_req_interval = opts.initial_delayreq;
          peer_mean_path_delay = clear_time;
          log_announce_interval = opts.announce_interval;
          announce_receipt_timeout = opts.announce_receipt_timeout;
          log_sync_interval = opts.sync_interval;
          delay_mechanism = opts.delay_mechanism;
          log_min_pdelay_req_interval = negsuc 4;
          version_number = 2;
        };
        foreign_ds = record c.foreign_ds {
          number_foreign_records = 0;
          max_foreign_records = opts.max_foreign_records;
        };
      },
    )

-- Local clock is becoming Master.
unfoldable pub m1 : RunTimeOpts → PtpClock → PtpClock
m1 opts c = record c {
  current_ds = record {
    steps_removed = 0;
    offset_from_master = clear_time;
    mean_path_delay = clear_time;
  };
  parent_ds = record {
    parent_port_identity = record { clock_identity = c.clock_identity; port_number = 0 };
    parent_stats = false;
    observed_parent_offset_scaled_log_variance = 0;
    observed_parent_clock_phase_change_rate = pos 0;
    grandmaster_identity = c.clock_identity;
    grandmaster_clock_quality = c.clock_quality;
    grandmaster_priority1 = c.priority1;
    grandmaster_priority2 = c.priority2;
  };
  time_properties_ds = record c.time_properties_ds {
    current_utc_offset = opts.current_utc_offset;
    current_utc_offset_valid = false;
    time_source = internal_oscillator;
  };
}

-- Back to the local timescale in Passive mode.
unfoldable pub p1 : PtpClock → RunTimeOpts → PtpClock
p1 c opts =
    if is_state c.port_state ptp_passive
    then record c {
      time_properties_ds = record c.time_properties_ds {
        current_utc_offset = opts.current_utc_offset;
        current_utc_offset_valid = false;
      };
    }
    else c

-- The leap flags, which only a slave takes over.
abbrev pub s1_leap : ℕ → PtpClock → PtpClock
s1_leap flags c =
    if is_state c.port_state ptp_slave
    then record c {
      time_properties_ds = record c.time_properties_ds {
        leap59 = is_set flags li59;
        leap61 = is_set flags li61;
      };
    }
    else c

-- Local clock is synchronized to Ebest. (What the function saves in `previousLeap59`,
-- `previousLeap61` and `previousUtcOffset` it does not use.)
unfoldable pub s1 : MsgHeader → MsgAnnounce → PtpClock → RunTimeOpts → PtpClock
s1 header announce c opts =
    let flags = header.flag_field1 in
    let parented = record c {
      current_ds = record c.current_ds { steps_removed = (announce.steps_removed + 1) % 2 ^ 16 };
      parent_ds = record c.parent_ds {
        parent_port_identity = header.source_port_identity;
        grandmaster_identity = announce.grandmaster_identity;
        grandmaster_clock_quality = announce.grandmaster_clock_quality;
        grandmaster_priority1 = announce.grandmaster_priority1;
        grandmaster_priority2 = announce.grandmaster_priority2;
      };
      time_properties_ds = record c.time_properties_ds {
        current_utc_offset = announce.current_utc_offset;
        current_utc_offset_valid = is_set flags utcv;
      };
    } in
    let leaping = s1_leap flags (p1 parented opts) in
    record leaping {
      time_properties_ds = record leaping.time_properties_ds {
        time_traceable = is_set flags ttra;
        frequency_traceable = is_set flags ftra;
        ptp_timescale = is_set flags ptpt;
        time_source = announce.time_source;
      };
    }

-- Copy the local data set into header and announce message.
unfoldable pub copy_d0 : MsgHeader → MsgAnnounce → PtpClock → MsgHeader × MsgAnnounce
copy_d0 header announce c = (
  record header {
    source_port_identity = record header.source_port_identity { clock_identity = c.clock_identity };
  },
  record announce {
    grandmaster_priority1 = c.priority1;
    grandmaster_identity = c.clock_identity;
    grandmaster_clock_quality = c.clock_quality;
    grandmaster_priority2 = c.priority2;
    steps_removed = 0;
  },
)
