-- ===== src/Port/Deciding.antt =====
-- A change of state and the state decision event keep the timers those of the state.
use xge_ptpv.Common.{zero, suc, ◌≢◌, refl, sym, subst, List, false, ◌&&◌, ◌==◌, if_rule, ltb, arith}
use xge_ptpv.Common.Int.{ℤ, pos, negsuc}
use xge_ptpv.Datatypes.{
  PtpClock, RunTimeOpts, PortState, MsgHeader, MsgAnnounce, ForeignMasterRecord, ptp_initializing,
  ptp_faulty, ptp_disabled, ptp_listening, ptp_pre_master, ptp_master, ptp_passive,
  ptp_uncalibrated, ptp_slave,
}
use xge_ptpv.Bmc.{is_state, decide, state_decision, bmc_exec}
use xge_ptpv.Protocol.{Engine, to_state}
use xge_ptpv.Protocol.States.{to_state-RightTimers}
use xge_ptpv.Port.{Port, on_clock}
use xge_ptpv.Port.Loop.{decides, decide_state}
use xge_ptpv.Port.Frame.{Sound, Frame-clock, to_state-pre_master}
use xge_ptpv.Port.Keeps.{bmc_exec-Same}

abbrev IsCalibrated : PortState → Type 0
IsCalibrated s = s ≢ ptp_uncalibrated

to_state-IsCalibrated :
    (s : PortState) (e : Engine)
    → Sound e
    → IsCalibrated s
    → IsCalibrated (to_state s e).clock.port_state
to_state-IsCalibrated ptp_pre_master e r u =
    subst IsCalibrated (sym (to_state-pre_master e)) r.calibrated
to_state-IsCalibrated ptp_initializing e r u =
    subst IsCalibrated (sym ((to_state-RightTimers ptp_initializing e r.timers).1 (grind arith))) u
to_state-IsCalibrated ptp_faulty e r u =
    subst IsCalibrated (sym ((to_state-RightTimers ptp_faulty e r.timers).1 (grind arith))) u
to_state-IsCalibrated ptp_disabled e r u =
    subst IsCalibrated (sym ((to_state-RightTimers ptp_disabled e r.timers).1 (grind arith))) u
to_state-IsCalibrated ptp_listening e r u =
    subst IsCalibrated (sym ((to_state-RightTimers ptp_listening e r.timers).1 (grind arith))) u
to_state-IsCalibrated ptp_master e r u =
    subst IsCalibrated (sym ((to_state-RightTimers ptp_master e r.timers).1 (grind arith))) u
to_state-IsCalibrated ptp_passive e r u =
    subst IsCalibrated (sym ((to_state-RightTimers ptp_passive e r.timers).1 (grind arith))) u
to_state-IsCalibrated ptp_uncalibrated e r u = absurd (u refl)
to_state-IsCalibrated ptp_slave e r u =
    subst IsCalibrated (sym ((to_state-RightTimers ptp_slave e r.timers).1 (grind arith))) u

pub to_state-Sound : (s : PortState) (e : Engine) → IsCalibrated s → Sound e → Sound (to_state s e)
to_state-Sound s e u r = record {
  timers = (to_state-RightTimers s e r.timers).0;
  calibrated = to_state-IsCalibrated s e r u;
}

abbrev GoesOn : PortState × PtpClock → Type 0
GoesOn r = IsCalibrated r.0

decide-IsCalibrated :
    (k : ℤ) (h : MsgHeader) (a : MsgAnnounce) (opts : RunTimeOpts) (c : PtpClock)
    → GoesOn (decide k h a opts c)
unfolding decide
decide-IsCalibrated (negsuc n) h a opts c = grind arith
decide-IsCalibrated (pos zero) h a opts c = grind arith
decide-IsCalibrated (pos (suc n)) h a opts c =
    if_rule IsCalibrated (ltb c.clock_quality.clock_class 128) (λ e. grind arith) (λ e. grind arith)

state_decision-IsCalibrated :
    (h : MsgHeader) (a : MsgAnnounce) (opts : RunTimeOpts) (c : PtpClock)
    → GoesOn (state_decision h a opts c)
unfolding state_decision
state_decision-IsCalibrated h a opts c =
    if_rule GoesOn opts.slave_only (λ p. grind arith)
      (λ p.
        if_rule GoesOn (c.number_foreign_records == 0 && is_state c.port_state ptp_listening)
          (λ q. grind arith) (λ q. decide-IsCalibrated _ h a opts _))

bmc_exec-IsCalibrated :
    (foreign : List ForeignMasterRecord) (opts : RunTimeOpts) (c : PtpClock)
    → IsCalibrated c.port_state
    → GoesOn (bmc_exec foreign opts c)
unfolding bmc_exec
bmc_exec-IsCalibrated foreign opts c u =
    if_rule GoesOn (c.number_foreign_records == 0 && is_state c.port_state ptp_master) (λ p. u)
      (λ p. state_decision-IsCalibrated _ _ opts _)

abbrev pub IsSound : Port → Type 0
IsSound p = Sound p.engine

pub decide_state-Sound : (p : Port) → IsSound p → IsSound (decide_state p)
unfolding decide_state
decide_state-Sound p s =
    if_rule IsSound (decides p.engine.clock.port_state)
      (λ d.
        if_rule IsSound p.engine.clock.record_update
          (λ u.
            let c = p.engine.clock in
            let noted = record c { foreign_ds = record c.foreign_ds { record_update = false } } in
            let r = bmc_exec noted.foreign p.engine.opts noted in
            let q = on_clock (λ c'. r.1) p in
            let k = bmc_exec-Same noted.foreign p.engine.opts noted in
            let t = (Frame-clock p.engine q.engine refl k.state k.default).sound s in
            if_rule IsSound (is_state r.0 r.1.port_state) (λ e. t)
              (λ e.
                to_state-Sound r.0 q.engine
                  (bmc_exec-IsCalibrated noted.foreign p.engine.opts noted s.calibrated) t))
          (λ u. s))
      (λ d. s)
