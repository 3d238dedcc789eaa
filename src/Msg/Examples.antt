-- ===== src/Msg/Examples.antt =====
-- The theorems on messages at concrete clocks.
use xge_ptpv.Common.{ℕ, ◌≡◌, ◌≢◌, refl, ap, ◌⊎◌, get_or, arith}
use xge_ptpv.Common.Int.{pos}
use xge_ptpv.Datatypes.{
  Timestamp, ptp_master, ptp_slave, identity_of, port_of, header_of, clock_of, sample_opts,
}
use xge_ptpv.Bmc.{state_decision, m1}
use xge_ptpv.Bmc.Election.{IsCandidate}
use xge_ptpv.Msg.{
  Buffer, msg_unpack_header, msg_pack_sync, msg_pack_follow_up, msg_pack_announce,
  msg_pack_delay_req, msg_pack_pdelay_req, msg_pack_delay_resp, msg_pack_pdelay_resp,
  msg_pack_pdelay_resp_follow_up, msg_unpack_announce, msg_unpack_sync, msg_unpack_follow_up,
  msg_unpack_delay_resp, msg_unpack_pdelay_resp, msg_unpack_pdelay_resp_follow_up,
}
use xge_ptpv.Msg.RoundTrip.{
  AnnounceFits, announced, msg_unpack_announce-msg_pack_announce, TimestampFits, PortFits,
  msg_unpack_sync-msg_pack_sync, responses,
}
use xge_ptpv.Msg.Headers.{HeaderFits, IsFrom, own_headers, RequestFits, response_headers}
use xge_ptpv.Msg.Wire.{master_announce, wire_election_agrees}

-- A buffer of zeros.
abbrev blank : Buffer
blank i = 0

abbrev stamp : Timestamp
stamp = record {
  seconds_field = record { lsb = 4_000_000_000; msb = 7 };
  nanoseconds_field = 999_999_999;
}

abbrev announce_fits : (n : ℕ) → AnnounceFits (clock_of n)
announce_fits n = record {
  utc = omega arith;
  priority1_lt = omega arith;
  class_lt = omega arith;
  accuracy_lt = omega arith;
  variance_lt = omega arith;
  priority2_lt = omega arith;
  identity_length = refl;
  steps_lt = omega arith;
  source_lt = omega arith;
}

msg_unpack_announce-msg_pack_announce_example :
    msg_unpack_announce (msg_pack_announce blank (clock_of 1)) ≡ announced (clock_of 1)
msg_unpack_announce-msg_pack_announce_example =
    msg_unpack_announce-msg_pack_announce blank (clock_of 1) (announce_fits 1)

abbrev stamp_fits : TimestampFits stamp
stamp_fits = record { lsb_lt = omega arith; msb_lt = omega arith; nanoseconds_lt = omega arith }

abbrev port_fits : (n : ℕ) → PortFits (port_of n)
port_fits n = record { identity_length = refl; number_lt = omega arith }

msg_unpack_sync-msg_pack_sync_example :
    ((msg_unpack_sync (msg_pack_sync blank stamp (clock_of 1))).origin_timestamp ≡ stamp)
    × ((msg_unpack_follow_up (msg_pack_follow_up blank stamp (clock_of 1))).precise_origin_timestamp
        ≡ stamp)
msg_unpack_sync-msg_pack_sync_example =
    msg_unpack_sync-msg_pack_sync blank stamp (clock_of 1) stamp_fits

responses_example :
    (msg_unpack_delay_resp (msg_pack_delay_resp blank (header_of 7) stamp (clock_of 1))
      ≡ record { receive_timestamp = stamp; requesting_port_identity = port_of 7 })
    × (msg_unpack_pdelay_resp (msg_pack_pdelay_resp blank (header_of 7) stamp (clock_of 1))
        ≡ record { request_receipt_timestamp = stamp; requesting_port_identity = port_of 7 })
    × (msg_unpack_pdelay_resp_follow_up
          (msg_pack_pdelay_resp_follow_up blank (header_of 7) stamp (clock_of 1))
        ≡ record { response_origin_timestamp = stamp; requesting_port_identity = port_of 7 })
responses_example = responses blank (header_of 7) stamp (clock_of 1) stamp_fits (port_fits 7)

abbrev header_fits : (n : ℕ) → HeaderFits (clock_of n)
header_fits n = record { version_lt = omega arith; domain_lt = omega arith; port = port_fits n }

own_headers_example :
    IsFrom (clock_of 1) 0x0 44 3 0 (msg_unpack_header (msg_pack_sync blank stamp (clock_of 1)))
    × IsFrom
        (clock_of 1)
        0x8
        44
        3
        0
        (msg_unpack_header (msg_pack_follow_up blank stamp (clock_of 1)))
    × IsFrom (clock_of 1) 0xb 64 4 0 (msg_unpack_header (msg_pack_announce blank (clock_of 1)))
    × IsFrom
        (clock_of 1)
        0x1
        44
        2
        0
        (msg_unpack_header (msg_pack_delay_req blank stamp (clock_of 1)))
    × IsFrom
        (clock_of 1)
        0x2
        54
        1
        0
        (msg_unpack_header (msg_pack_pdelay_req blank stamp (clock_of 1)))
own_headers_example =
    own_headers blank stamp (clock_of 1) (header_fits 1) (omega arith) (omega arith) (omega arith)
      (omega arith)

abbrev request_fits : RequestFits (header_of 7)
request_fits = record {
  domain_lt = omega arith;
  sequence_lt = omega arith;
  msb_fits = (omega arith, omega arith);
  lsb_lt = omega arith;
}

response_headers_example :
    IsFrom
      (clock_of 1)
      0x9
      54
      0
      0
      (msg_unpack_header (msg_pack_delay_resp blank (header_of 7) stamp (clock_of 1)))
    × IsFrom
        (clock_of 1)
        0x3
        54
        0
        0
        (msg_unpack_header (msg_pack_pdelay_resp blank (header_of 7) stamp (clock_of 1)))
    × IsFrom
        (clock_of 1)
        0xa
        54
        0
        0
        (msg_unpack_header (msg_pack_pdelay_resp_follow_up blank (header_of 7) stamp (clock_of 1)))
    × ((msg_unpack_header
          (msg_pack_delay_resp blank (header_of 7) stamp (clock_of 1))).correction_field
        ≡ record { lsb = 0; msb = pos 0 })
    × ((msg_unpack_header
          (msg_pack_pdelay_resp_follow_up blank (header_of 7) stamp (clock_of 1))).correction_field
        ≡ record { lsb = 0; msb = pos 0 })
    × ((msg_unpack_header
          (msg_pack_pdelay_resp blank (header_of 7) stamp (clock_of 1))).correction_field
        ≡ record { lsb = 0; msb = pos 0 })
response_headers_example =
    response_headers blank (header_of 7) stamp (clock_of 1) (header_fits 1) request_fits
      (omega arith)

abbrev candidate : (n : ℕ) → IsCandidate sample_opts (clock_of n)
candidate n = record {
  not_slave_only = refl;
  class_from_128 = omega arith;
  has_record = omega arith;
}

-- What `m1` makes of the clock fits too.
master_fits : (n : ℕ) → AnnounceFits (m1 sample_opts (clock_of n))
unfolding m1
master_fits n = record {
  utc = omega arith;
  priority1_lt = omega arith;
  class_lt = omega arith;
  accuracy_lt = omega arith;
  variance_lt = omega arith;
  priority2_lt = omega arith;
  identity_length = refl;
  steps_lt = omega arith;
  source_lt = omega arith;
}

identity_apart : identity_of 1 ≢ identity_of 2
identity_apart e = absurd (omega (arith, ap (λ i. get_or i 7 0) e))

wire_election_agrees_example :
    (((state_decision
          (header_of 2)
          (master_announce blank sample_opts (clock_of 2))
          sample_opts
          (clock_of 1)).0
        ≡ ptp_master)
      × ((state_decision
            (header_of 1)
            (master_announce blank sample_opts (clock_of 1))
            sample_opts
            (clock_of 2)).0
          ≡ ptp_slave))
    ⊎ (((state_decision
            (header_of 2)
            (master_announce blank sample_opts (clock_of 2))
            sample_opts
            (clock_of 1)).0
          ≡ ptp_slave)
        × ((state_decision
              (header_of 1)
              (master_announce blank sample_opts (clock_of 1))
              sample_opts
              (clock_of 2)).0
            ≡ ptp_master))
wire_election_agrees_example =
    wire_election_agrees blank blank sample_opts sample_opts (clock_of 1) (clock_of 2) (header_of 1)
      (header_of 2) (candidate 1) (candidate 2) (master_fits 1) (master_fits 2) refl identity_apart
