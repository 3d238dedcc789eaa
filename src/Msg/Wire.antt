-- ===== src/Msg/Wire.antt =====
-- The announces of a clock that has become master, as another clock reads them.
use xge_ptpv.Common.{◌≡◌, ◌≢◌, ap, ◌⊎◌, length}
use xge_ptpv.Datatypes.{PtpClock, RunTimeOpts, MsgHeader, MsgAnnounce, ptp_master, ptp_slave}
use xge_ptpv.Bmc.{m1, state_decision}
use xge_ptpv.Bmc.Election.{Describes, IsCandidate, election_agrees}
use xge_ptpv.Msg.{Buffer, msg_pack_announce, msg_unpack_announce}
use xge_ptpv.Msg.RoundTrip.{AnnounceFits, msg_unpack_announce-msg_pack_announce}

-- What another clock unpacks of the announce that `c` sends once `m1` has made it master.
abbrev pub master_announce : Buffer → RunTimeOpts → PtpClock → MsgAnnounce
master_announce buf opts c = msg_unpack_announce (msg_pack_announce buf (m1 opts c))

-- It tells the data set that `c` compares itself by.
pub master_announce-Describes :
    (buf : Buffer) (opts : RunTimeOpts) (c : PtpClock)
    → AnnounceFits (m1 opts c)
    → Describes c (master_announce buf opts c)
unfolding m1
master_announce-Describes buf opts c h =
    let e = msg_unpack_announce-msg_pack_announce buf (m1 opts c) h in
    record {
      identity = ap (λ a. a.grandmaster_identity) e;
      quality = ap (λ a. a.grandmaster_clock_quality) e;
      first = ap (λ a. a.grandmaster_priority1) e;
      second = ap (λ a. a.grandmaster_priority2) e;
    }

-- Two clocks of class 128 or more that are not for slaves only and have a foreign record, with
-- different identities of one length, whose announces as masters fit their fields, agree when each hears what the other would send as a master: one becomes master and the
-- other slave.
pub wire_election_agrees :
    (buf_a buf_b : Buffer) (opts_a opts_b : RunTimeOpts) (a b : PtpClock)
    (header_a header_b : MsgHeader)
    → IsCandidate opts_a a
    → IsCandidate opts_b b
    → AnnounceFits (m1 opts_a a)
    → AnnounceFits (m1 opts_b b)
    → length a.clock_identity ≡ length b.clock_identity
    → a.clock_identity ≢ b.clock_identity
    → (((state_decision header_b (master_announce buf_b opts_b b) opts_a a).0 ≡ ptp_master)
        × ((state_decision header_a (master_announce buf_a opts_a a) opts_b b).0 ≡ ptp_slave))
      ⊎ (((state_decision header_b (master_announce buf_b opts_b b) opts_a a).0 ≡ ptp_slave)
          × ((state_decision header_a (master_announce buf_a opts_a a) opts_b b).0 ≡ ptp_master))
wire_election_agrees buf_a buf_b opts_a opts_b a b header_a header_b ka kb fa fb =
    election_agrees opts_a opts_b a b header_a header_b _ _ ka kb
      (master_announce-Describes buf_a opts_a a fa) (master_announce-Describes buf_b opts_b b fb)
