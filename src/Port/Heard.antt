-- ===== src/Port/Heard.antt =====
-- `handleAnnounce` leaves the state of the port, but for a fault, and its default data set; the
-- timers stay those of the state.
use xge_ptpv.Common.{◌≡◌, ◌≢◌, inl, refl, sym, ◌∙◌, Bool, true, if_rule, length, subst, ap, arith}
use mathlib.Core.Bool.{false≢true}
use xge_ptpv.Common.Int.{ℤ, pos, ltb_ℤ}
use xge_ptpv.Datatypes.{
  PortState, MsgHeader, ptp_initializing, ptp_faulty, ptp_disabled, ptp_listening, ptp_pre_master,
  ptp_master, ptp_passive, ptp_uncalibrated, ptp_slave,
}
use xge_ptpv.Foreign.{add_foreign}
use xge_ptpv.Protocol.{
  Engine, receipt_timeout, announce_receipt_timer, sync_interval_timer, announce_interval_timer,
}
use xge_ptpv.Protocol.Intervals.{timer_start-Has, timer_start-Has_ne}
use xge_ptpv.Protocol.Quiet.{hears}
use xge_ptpv.Port.{Port, on_clock, is_from_parent}
use xge_ptpv.Port.Announce.{
  restart_wait, request_update, follow_parent, refresh_parent, note_foreign, announce_to_slave,
  announce_to_passive, announce_in, handle_announce,
}
use xge_ptpv.Port.Frame.{Frame, Framed, Frame-refl, Frame-trans, Frame-clock, Frame-fault}
use xge_ptpv.Port.Keeps.{Same, s1-Same}

-- The clock changes as `Same` allows.
Frame-Same : (e f : Engine) → f.timers ≡ e.timers → Same e.clock f.clock → Frame e f
Frame-Same e f t s = Frame-clock e f t s.state s.default

-- The wait begins anew in a state that waits.
restart_wait-Frame : (p : Port) → hears p.engine.clock.port_state ≡ true → Framed p (restart_wait p)
unfolding restart_wait
restart_wait-Frame p h =
    let t = p.engine.timers in
    let i = receipt_timeout p.engine.clock in
    record {
      state = inl refl;
      default = refl;
      sound = λ r. record {
        timers = record {
          size = (timer_start-Has announce_receipt_timer i t (omega arith) r.timers.size).size;
          syncs = λ e.
              timer_start-Has_ne announce_receipt_timer sync_interval_timer (pos 0) i t
                (omega arith) (r.timers.syncs e);
          announces = λ e.
              timer_start-Has_ne announce_receipt_timer announce_interval_timer (pos 0) i t
                (omega arith) (r.timers.announces e);
          waits = λ e. absurd (false≢true (sym e ∙ h));
        };
        calibrated = r.calibrated;
      };
    }

follow_parent-Same :
    (h : MsgHeader) (p : Port) → Same p.engine.clock (follow_parent h p).engine.clock
unfolding follow_parent
follow_parent-Same h p =
    let s = s1-Same h _ _ p.engine.opts in record { state = s.state; default = s.default }

refresh_parent-Same :
    (h : MsgHeader) (p : Port) → Same p.engine.clock (refresh_parent h p).engine.clock
unfolding refresh_parent
refresh_parent-Same h p = record { state = refl; default = refl }

note_foreign-Frame : (h : MsgHeader) (p : Port) → Framed p (note_foreign h p)
unfolding note_foreign add_foreign
note_foreign-Frame h p = Frame-clock p.engine _ refl refl refl

-- The restart after steps that keep the state.
restart_after :
    (p q : Port)
    → Framed p q
    → q.engine.clock.port_state ≡ p.engine.clock.port_state
    → hears p.engine.clock.port_state ≡ true
    → Framed p (restart_wait q)
restart_after p q f s h =
    Frame-trans p.engine q.engine _ f (restart_wait-Frame q (subst (λ x. hears x ≡ true) (sym s) h))

-- The slave's case, in a state that waits for announces.
announce_to_slave-Frame :
    (h : MsgHeader) (p : Port)
    → hears p.engine.clock.port_state ≡ true
    → Framed p (announce_to_slave h p)
unfolding announce_to_slave follow_parent refresh_parent note_foreign add_foreign
announce_to_slave-Frame h p w =
    let q = on_clock request_update p in
    let f = follow_parent h q in
    let g = refresh_parent h f in
    let n = note_foreign h q in
    let a : Framed p q = Frame-clock p.engine q.engine refl refl refl in
    if_rule (Framed p) (is_from_parent h q)
      (λ e.
        let b = follow_parent-Same h q in
        let c = refresh_parent-Same h f in
        restart_after p g
          (Frame-trans p.engine q.engine g.engine a (
            Frame-trans q.engine f.engine g.engine
              (Frame-clock q.engine f.engine (follow_parent-timers h q) b.state b.default)
              (Frame-clock f.engine g.engine (refresh_parent-timers h f) c.state c.default)))
          (c.state ∙ b.state) w)
      (λ e.
        restart_after p n (Frame-trans p.engine q.engine n.engine a (note_foreign-Frame h q))
          (note_foreign-state h q) w)
  where
    follow_parent-timers :
        (h : MsgHeader) (p : Port) → (follow_parent h p).engine.timers ≡ p.engine.timers
    follow_parent-timers h p = refl

    refresh_parent-timers :
        (h : MsgHeader) (p : Port) → (refresh_parent h p).engine.timers ≡ p.engine.timers
    refresh_parent-timers h p = refl

    note_foreign-state :
        (h : MsgHeader) (p : Port)
        → (note_foreign h p).engine.clock.port_state ≡ p.engine.clock.port_state
    note_foreign-state h p = refl

announce_to_passive-Frame :
    (h : MsgHeader) (p : Port)
    → hears p.engine.clock.port_state ≡ true
    → Framed p (announce_to_passive h p)
unfolding announce_to_passive follow_parent
announce_to_passive-Frame h p w =
    let q = on_clock request_update p in
    let f = follow_parent h q in
    let a : Framed p q = Frame-clock p.engine q.engine refl refl refl in
    if_rule (Framed p) (is_from_parent h q)
      (λ e.
        let b = follow_parent-Same h q in
        restart_after p f
          (Frame-trans p.engine q.engine f.engine a
            (Frame-clock q.engine f.engine refl b.state b.default))
          b.state w)
      (λ e. Frame-trans p.engine q.engine _ a (note_foreign-Frame h q))

note_and_update-Frame :
    (h : MsgHeader) (p : Port) → Framed p (on_clock request_update (note_foreign h p))
note_and_update-Frame h p =
    Frame-trans p.engine (note_foreign h p).engine _ (note_foreign-Frame h p)
      (Frame-clock (note_foreign h p).engine _ refl refl refl)

-- By the state, which is not the uncalibrated one.
announce_in-Frame :
    (s : PortState) (h : MsgHeader) (p : Port)
    → p.engine.clock.port_state ≡ s
    → s ≢ ptp_uncalibrated
    → Framed p (announce_in s h p)
unfolding announce_in
announce_in-Frame ptp_initializing h p e u = Frame-refl p.engine
announce_in-Frame ptp_faulty h p e u = Frame-refl p.engine
announce_in-Frame ptp_disabled h p e u = Frame-refl p.engine
announce_in-Frame ptp_uncalibrated h p e u = absurd (u refl)
announce_in-Frame ptp_slave h p e u = announce_to_slave-Frame h p (ap (λ s. hears s) e)
announce_in-Frame ptp_passive h p e u = announce_to_passive-Frame h p (ap (λ s. hears s) e)
announce_in-Frame ptp_master h p e u = note_and_update-Frame h p
announce_in-Frame ptp_listening h p e u = note_and_update-Frame h p
announce_in-Frame ptp_pre_master h p e u = note_and_update-Frame h p

pub handle_announce-Frame :
    (h : MsgHeader) (length : ℤ) (own : Bool) (p : Port)
    → p.engine.clock.port_state ≢ ptp_uncalibrated
    → Framed p (handle_announce h length own p)
unfolding handle_announce
handle_announce-Frame h length own p u =
    if_rule (Framed p) (ltb_ℤ length (pos 64)) (λ k. Frame-fault p.engine)
      (λ k.
        if_rule (Framed p) own (λ e. Frame-refl p.engine)
          (λ e. announce_in-Frame p.engine.clock.port_state h p refl u))
