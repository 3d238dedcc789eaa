-- ===== src/Foreign/Stale.antt =====
-- What `initData` leaves of the foreign master table.
use xge_ptpv.Common.{◌<◌, ◌≡◌, ◌≢◌, arith, get_or-set_ne}
use xge_ptpv.Datatypes.{MsgHeader, PtpClock, RunTimeOpts, zero_record}
use xge_ptpv.Bmc.{record_at, init_data}
use xge_ptpv.Msg.{Buffer}
use xge_ptpv.Foreign.{admit, find_known, add_record, add_foreign}

-- When `foreign_record_i` is not 0, the first announce after `initData` is counted, but slot 0, the
-- only one in the table then, keeps the record it had before. There are to be records in the
-- options.
pub init_data-add_foreign :
    (opts : RunTimeOpts) (c : PtpClock) (buf : Buffer) (header : MsgHeader)
    → 0 < opts.max_foreign_records
    → c.foreign_record_i ≢ 0
    → ((add_foreign buf header (init_data opts c).1).number_foreign_records ≡ 1)
      × (record_at (add_foreign buf header (init_data opts c).1).foreign 0 ≡ record_at c.foreign 0)
unfolding init_data add_foreign add_record admit find_known record_at
init_data-add_foreign opts c buf header h d =
    (ground arith, get_or-set_ne c.foreign c.foreign_record_i 0 _ zero_record d)
