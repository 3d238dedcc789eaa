-- ===== src/Bmc.antt =====
-- esl/sw/bmc.cpp: the best master clock algorithm. `initData`, the data set updates `m1`, `p1` and
-- `s1`, the data set comparison, the state decision and `bmcExec`, each on the whole `PtpClock`.
-- Pointers into the foreign master table are records of the table.
mod Sets
pub mod Compare
pub mod Order
pub mod Best
pub mod Decide
pub mod Choice
pub mod Election
pub mod Identity
mod Examples
use Prim.Native.Nat.{compare}
use xge_ptpv.Common.{
  ℕ, zero, suc, ◌+◌, ◌-◌, ◌/◌, ◌%◌, ◌^◌, Ordering, Bool, true, false, ◌&&◌, not, List, [], ◌∷◌, ltb,
  ◌==◌, if◌then◌else◌, get_or, memcmp, is_eq,
}
use xge_ptpv.Common.Int.{ℤ, pos, negsuc}
use xge_ptpv.Datatypes.{
  ClockIdentity, TimeInternal, Timestamp, PortIdentity, ClockQuality, MsgHeader, MsgAnnounce,
  UInteger48, Integer64, RunTimeOpts, PtpClock, ForeignMasterRecord, PortState, ptp_initializing,
  ptp_faulty, ptp_disabled, ptp_listening, ptp_pre_master, ptp_master, ptp_passive,
  ptp_uncalibrated, ptp_slave, zero_record,
}
use xge_ptpv.Arith.{clear_time}
unfoldable pub use Sets.*

-- -1, 0 or 1 for a result of `memcmp`.
abbrev pub sign_of : Ordering → ℤ
sign_of Ordering.lt = negsuc 0
sign_of Ordering.eq = pos 0
sign_of Ordering.gt = pos 1

-- The branch of the comparison with one grandmaster (Fig 28). `parent` is the clock identity of
-- the current parent.
unfoldable pub compare_paths : MsgHeader → MsgAnnounce → MsgHeader → MsgAnnounce → ClockIdentity → ℤ
compare_paths header_a announce_a header_b announce_b parent =
    let steps_a = announce_a.steps_removed in
    let steps_b = announce_b.steps_removed in
    let sender_a = header_a.source_port_identity.clock_identity in
    let sender_b = header_b.source_port_identity.clock_identity in
    if ltb (steps_b + 1) steps_a
    then pos 1
    else if ltb (steps_a + 1) steps_b
    then negsuc 0
    else if ltb steps_b steps_a
    then (if is_eq (memcmp sender_a parent) then pos 0 else pos 1)
    else if ltb steps_a steps_b
    then (if is_eq (memcmp sender_b parent) then pos 0 else negsuc 0)
    else sign_of (memcmp sender_a sender_b)

-- The branch with two grandmasters (Fig 27).
unfoldable pub compare_grandmasters : MsgAnnounce → MsgAnnounce → ℤ
compare_grandmasters a b =
    let qa = a.grandmaster_clock_quality in
    let qb = b.grandmaster_clock_quality in
    if a.grandmaster_priority1 == b.grandmaster_priority1
    then (if qa.clock_class == qb.clock_class
        then (if qa.clock_accuracy == qb.clock_accuracy
            then (if qa.offset_scaled_log_variance == qb.offset_scaled_log_variance
                then (if a.grandmaster_priority2 == b.grandmaster_priority2
                    then sign_of (memcmp a.grandmaster_identity b.grandmaster_identity)
                    else sign_of (compare a.grandmaster_priority2 b.grandmaster_priority2))
                else (if ltb qa.offset_scaled_log_variance qb.offset_scaled_log_variance
                    then negsuc 0
                    else pos 1))
            else sign_of (compare qa.clock_accuracy qb.clock_accuracy))
        else sign_of (compare qa.clock_class qb.clock_class))
    else sign_of (compare a.grandmaster_priority1 b.grandmaster_priority1)

-- `bmcDataSetComparison`: negative when A is the better master.
unfoldable pub data_set_comparison :
    MsgHeader → MsgAnnounce → MsgHeader → MsgAnnounce → PtpClock → ℤ
data_set_comparison header_a announce_a header_b announce_b c =
    if is_eq (memcmp announce_a.grandmaster_identity announce_b.grandmaster_identity)
    then compare_paths header_a announce_a header_b announce_b c.parent_port_identity.clock_identity
    else compare_grandmasters announce_a announce_b

-- What a comparison of the local data set with the best foreign master leads to.
unfoldable pub decide : ℤ → MsgHeader → MsgAnnounce → RunTimeOpts → PtpClock → PortState × PtpClock
decide (negsuc n) header announce opts c = (ptp_master, m1 opts c)
decide (pos zero) header announce opts c = (ptp_faulty, c)
decide (pos (suc n)) header announce opts c = (
  (if ltb c.clock_quality.clock_class 128 then ptp_passive else ptp_slave),
  s1 header announce c opts,
)

-- `bmcStateDecision`: the new state and the changed clock.
unfoldable pub state_decision :
    MsgHeader → MsgAnnounce → RunTimeOpts → PtpClock → PortState × PtpClock
state_decision header announce opts c =
    let d0 = copy_d0 c.msg_tmp_header c.msg_tmp_announce c in
    let noted = record c { msg_tmp_header = d0.0; msg_tmp_announce = d0.1 } in
    if opts.slave_only
    then (ptp_slave, s1 header announce c opts)
    else if (c.number_foreign_records == 0) && is_state c.port_state ptp_listening
    then (ptp_listening, c)
    else decide (data_set_comparison d0.0 d0.1 header announce noted) header announce opts noted

-- `foreignMaster[i]`
unfoldable pub record_at : List ForeignMasterRecord → ℕ → ForeignMasterRecord
record_at foreign i = get_or foreign i zero_record

-- `bmcDataSetComparison` of two records of the table, as in the loop of `bmcExec`.
unfoldable pub compare_records : PtpClock → ForeignMasterRecord → ForeignMasterRecord → ℤ
compare_records c a b = data_set_comparison a.header a.announce b.header b.announce c

abbrev pub is_better : ℤ → Bool
is_better (negsuc n) = true
is_better (pos n) = false

-- The loop of `bmcExec` at record `i`, with `left` rounds to go.
unfoldable pub find_best : PtpClock → List ForeignMasterRecord → ℕ → ℕ → ℕ → ℕ
find_best c foreign zero i best = best
find_best c foreign (suc left) i best = find_best c foreign left (i + 1) (
    if is_better (compare_records c (record_at foreign i) (record_at foreign best))
    then i
    else best)

-- `bmcExec`
unfoldable pub bmc_exec : List ForeignMasterRecord → RunTimeOpts → PtpClock → PortState × PtpClock
bmc_exec foreign opts c =
    let best = find_best c foreign (c.number_foreign_records - 1) 1 0 in
    let chosen = record_at foreign best in
    let marked = record c { foreign_ds = record c.foreign_ds { foreign_record_best = best } } in
    if (c.number_foreign_records == 0) && is_state c.port_state ptp_master
    then (c.port_state, m1 opts c)
    else state_decision chosen.header chosen.announce opts marked
