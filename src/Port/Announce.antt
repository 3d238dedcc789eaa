-- ===== src/Port/Announce.antt =====
-- `handleAnnounce` of esl/sw/protocol.cpp.
use xge_ptpv.Common.{Bool, true, set, if◌then◌else◌}
use xge_ptpv.Common.Int.{ℤ}
use xge_ptpv.Datatypes.{
  PtpClock, MsgHeader, PortState, ptp_initializing, ptp_faulty, ptp_disabled, ptp_listening,
  ptp_pre_master, ptp_master, ptp_passive, ptp_uncalibrated, ptp_slave,
}
use xge_ptpv.Bmc.{s1, record_at}
use xge_ptpv.Foreign.{add_foreign}
use xge_ptpv.Msg.{msg_unpack_announce}
use xge_ptpv.Protocol.{announce_receipt_timer, start, receipt_timeout}
use xge_ptpv.Port.{Port, on_clock, on_engine, is_from_parent, if_long}

-- The announce receipt timeout begins anew.
unfoldable pub restart_wait : Port → Port
restart_wait p = on_engine (λ e. start announce_receipt_timer (receipt_timeout e.clock) e) p

abbrev pub request_update : PtpClock → PtpClock
request_update c = record c { foreign_ds = record c.foreign_ds { record_update = true } }

-- The data sets are the parent's.
unfoldable pub follow_parent : MsgHeader → Port → Port
follow_parent header p =
    let a = msg_unpack_announce p.msg_ibuf in
    on_clock (λ c. s1 header a (record c { msg_tmp_announce = a }) p.engine.opts) p

-- The parent's record too, which is taken to be the best one's.
unfoldable pub refresh_parent : MsgHeader → Port → Port
refresh_parent header p =
    let a = msg_unpack_announce p.msg_ibuf in
    on_clock
      (λ c. record c {
        foreign_ds = record c.foreign_ds {
          foreign =
              set c.foreign c.foreign_record_best
                (record (record_at c.foreign c.foreign_record_best) {
                  header = header;
                  announce = a;
                });
        };
      })
      p

unfoldable pub note_foreign : MsgHeader → Port → Port
note_foreign header p = on_clock (add_foreign p.msg_ibuf header) p

-- The slave's case.
unfoldable pub announce_to_slave : MsgHeader → Port → Port
announce_to_slave header p =
    let q = on_clock request_update p in
    if is_from_parent header q
    then restart_wait (refresh_parent header (follow_parent header q))
    else restart_wait (note_foreign header q)

-- The passive clock's case.
unfoldable pub announce_to_passive : MsgHeader → Port → Port
announce_to_passive header p =
    let q = on_clock request_update p in
    if is_from_parent header q then restart_wait (follow_parent header q) else note_foreign header q

-- The switch on the state, for an announce of another clock.
unfoldable pub announce_in : PortState → MsgHeader → Port → Port
announce_in ptp_initializing header p = p
announce_in ptp_faulty header p = p
announce_in ptp_disabled header p = p
announce_in ptp_uncalibrated header p = announce_to_slave header p
announce_in ptp_slave header p = announce_to_slave header p
announce_in ptp_passive header p = announce_to_passive header p
announce_in ptp_master header p = on_clock request_update (note_foreign header p)
announce_in ptp_listening header p = on_clock request_update (note_foreign header p)
announce_in ptp_pre_master header p = on_clock request_update (note_foreign header p)

-- `handleAnnounce`: an announce of the port itself is ignored in every state.
unfoldable pub handle_announce : MsgHeader → ℤ → Bool → Port → Port
handle_announce header length is_from_self p =
    if_long 64 length
      (λ q. if is_from_self then q else announce_in q.engine.clock.port_state header q) p
