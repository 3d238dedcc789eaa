-- ===== src/Port/Handlers.antt =====
-- The handlers leave the state of the port, but for a fault, and its default data set; the timers
-- stay those of the state.
use xge_ptpv.Common.{refl, ◌∙◌, Bool, false, ◌==◌, if_rule, length, arith}
use xge_ptpv.Common.Int.{ℤ, pos, ltb_ℤ}
use xge_ptpv.Datatypes.{MsgHeader, TimeInternal}
use xge_ptpv.Servo.Offset.{p2p, e2e, update_offset}
use xge_ptpv.Protocol.{Engine, delayreq_interval_timer, pdelayreq_interval_timer}
use xge_ptpv.Port.{Outside, Port, is_from_parent}
use xge_ptpv.Port.Sync.{
  arm_requests, first_sync, is_two_step, sync_clock, await_follow_up, use_sync, sync_from_parent,
  follows, handle_sync, use_follow_up, accepts_follow_up, handle_follow_up,
}
use xge_ptpv.Port.Frame.{Frame, Framed, Frame-refl, Frame-trans, Frame-clock, Frame-fault}
use xge_ptpv.Port.Keeps.{update_offset-Same, update_clock-Same}
use xge_ptpv.Port.Sends.{Frame-start}

first_sync-Frame : (p : Port) → Framed p (first_sync p)
unfolding first_sync arm_requests
first_sync-Frame p =
    if_rule (Framed p) p.engine.clock.waiting_for_first_sync
      (λ e.
        let c = record p.engine.clock { waiting_for_first_sync = false } in
        let f = record p.engine { clock = c } in
        Frame-trans p.engine f _ (Frame-clock p.engine f refl refl refl) (
          if_rule (Frame f) (c.delay_mechanism == e2e)
            (λ q. Frame-start f _ delayreq_interval_timer _ (omega arith) refl)
            (λ q.
              if_rule (Frame f) (c.delay_mechanism == p2p)
                (λ r. Frame-start f _ pdelayreq_interval_timer _ (omega arith) refl)
                (λ r. Frame-refl f))))
      (λ e. Frame-refl p.engine)

sync_clock-Frame : (t k : TimeInternal) (e : Engine) → Frame e (sync_clock t k e)
unfolding sync_clock
sync_clock-Frame t k e =
    let u = update_offset t e.clock.sync_receive_time e.opts e.servo e.clock k in
    let a = update_offset-Same t e.clock.sync_receive_time e.opts e.servo e.clock k in
    let b = update_clock-Same u.opts u.servo u.clock in
    Frame-clock e (sync_clock t k e) refl (b.state ∙ a.state) (b.default ∙ a.default)

use_sync-Frame : (h : MsgHeader) (p : Port) → Framed p (use_sync h p)
unfolding use_sync
use_sync-Frame h p =
    Frame-trans p.engine _ _ (Frame-clock p.engine _ refl refl refl) (sync_clock-Frame _ _ _)

sync_from_parent-Frame :
    (o : Outside) (h : MsgHeader) (t : TimeInternal) (p : Port)
    → Framed p (sync_from_parent o h t p)
unfolding sync_from_parent await_follow_up
sync_from_parent-Frame o h t p =
    let q = first_sync p in
    Frame-trans p.engine q.engine _ (first_sync-Frame p) (
      if_rule (Framed q) (is_two_step h) (λ e. Frame-clock q.engine _ refl refl refl)
        (λ e.
          Frame-trans q.engine _ _ (Frame-clock q.engine _ refl refl refl) (use_sync-Frame h _)))

pub handle_sync-Frame :
    (o : Outside) (h : MsgHeader) (length : ℤ) (t : TimeInternal) (own : Bool) (p : Port)
    → Framed p (handle_sync o h length t own p)
unfolding handle_sync
handle_sync-Frame o h length t own p =
    if_rule (Framed p) (ltb_ℤ length (pos 44)) (λ k. Frame-fault p.engine)
      (λ k.
        if_rule (Framed p) (follows p.engine.clock.port_state)
          (λ e.
            if_rule (Framed p) own (λ f. Frame-refl p.engine)
              (λ f.
                if_rule (Framed p) (is_from_parent h p) (λ g. sync_from_parent-Frame o h t p)
                  (λ g. Frame-refl p.engine)))
          (λ e. Frame-refl p.engine))

pub handle_follow_up-Frame :
    (h : MsgHeader) (length : ℤ) (own : Bool) (p : Port)
    → Framed p (handle_follow_up h length own p)
unfolding handle_follow_up use_follow_up
handle_follow_up-Frame h length own p =
    if_rule (Framed p) (ltb_ℤ length (pos 44)) (λ k. Frame-fault p.engine)
      (λ k.
        if_rule (Framed p) own (λ e. Frame-refl p.engine)
          (λ e.
            if_rule (Framed p) (follows p.engine.clock.port_state)
              (λ f.
                if_rule (Framed p) (accepts_follow_up h p)
                  (λ g.
                    Frame-trans p.engine _ _ (Frame-clock p.engine _ refl refl refl)
                      (sync_clock-Frame _ _ _))
                  (λ g. Frame-refl p.engine))
              (λ f. Frame-refl p.engine)))
