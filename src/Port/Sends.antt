-- ===== src/Port/Sends.antt =====
-- The issue functions leave the state of the port, but for a fault, and its default data set.
use xge_ptpv.Common.{ℕ, ◌<◌, ◌≡◌, ◌≢◌, inl, refl, if_rule, subst, sym, arith}
use xge_ptpv.Common.Int.{pos}
use xge_ptpv.Datatypes.{PortState, MsgHeader, TimeInternal}
use xge_ptpv.Timer.{Timers, Interval, timer_start, timer_start_random, timer_array_size}
use xge_ptpv.Msg.{Buffer}
use xge_ptpv.Protocol.{
  Engine, delayreq_interval_timer, sync_interval_timer, announce_interval_timer,
  announce_receipt_timer,
}
use xge_ptpv.Protocol.Intervals.{timer_start-Has, timer_start-Has_ne}
use xge_ptpv.Protocol.Quiet.{RightTimers}
use xge_ptpv.Port.{Outside, Port, next}
use xge_ptpv.Port.Issue.{
  send, transmit, issue_announce, issue_followup, follow_sync, issue_sync, stamp_delay_req,
  rearm_delay_req, issue_delay_req, stamp_pdelay_req, issue_pdelay_req, issue_pdelay_resp_follow_up,
  follow_pdelay_resp, issue_pdelay_resp, issue_delay_resp, is_stamp_of, sent_stamp,
}
use xge_ptpv.Port.Frame.{Frame, Framed, Frame-refl, Frame-trans, Frame-clock, Frame-fault}

-- Starting a timer of none of the three kinds.
pub start-RightTimers :
    (i : ℕ) (s : Interval) (st : PortState) (t : Timers)
    → i ≢ sync_interval_timer
    → i ≢ announce_interval_timer
    → i ≢ announce_receipt_timer
    → i < timer_array_size
    → RightTimers st t
    → RightTimers st (timer_start i s t)
start-RightTimers i s st t a b c h r = record {
  size = (timer_start-Has i s t h r.size).size;
  syncs = λ e. timer_start-Has_ne i sync_interval_timer (pos 0) s t a (r.syncs e);
  announces = λ e. timer_start-Has_ne i announce_interval_timer (pos 0) s t b (r.announces e);
  waits = λ e. timer_start-Has_ne i announce_receipt_timer (pos 0) s t c (r.waits e);
}

-- A timer of requests started.
pub Frame-start :
    (e f : Engine) (i : ℕ) (s : Interval)
    → i < sync_interval_timer
    → f ≡ record e { timers = timer_start i s e.timers }
    → Frame e f
Frame-start e f i s h q = subst (Frame e) (sym q) (record {
  state = inl refl;
  default = refl;
  sound = λ r. record {
    timers =
        start-RightTimers i s e.clock.port_state e.timers (omega arith) (omega arith) (omega arith)
          (omega arith) r.timers;
    calibrated = r.calibrated;
  };
})

abbrev kept : (p q : Port) → q.engine ≡ p.engine → Framed p q
kept p q h = subst (Frame p.engine) (sym h) (Frame-refl p.engine)

module _ (o : Outside) where
  transmit-Frame :
      (len type : ℕ) (buf : Buffer) (f : Port → Port) (p : Port)
      → ((q : Port) → Framed q (f q))
      → Framed p (transmit o len type buf f p)
  unfolding transmit send
  transmit-Frame len type buf f p h =
      if_rule (Framed p) (o.net_send p.asked) (λ e. h _) (λ e. Frame-fault p.engine)

  pub issue_announce-Frame : (p : Port) → Framed p (issue_announce o p)
  unfolding issue_announce
  issue_announce-Frame p = transmit-Frame 64 0xb _ _ p (λ q. Frame-clock q.engine _ refl refl refl)

  issue_followup-Frame : (t : TimeInternal) (p : Port) → Framed p (issue_followup o t p)
  unfolding issue_followup
  issue_followup-Frame t p = transmit-Frame 44 0x8 _ _ p (λ q. Frame-refl q.engine)

  follow_sync-Frame : (p : Port) → Framed p (follow_sync o p)
  unfolding follow_sync
  follow_sync-Frame p =
      if_rule (Framed p) p.engine.clock.two_step_flag
        (λ e.
          if_rule (Framed p) (is_stamp_of 0x0 p.engine.clock.sent_sync_sequence_id (sent_stamp o p))
            (λ e'. issue_followup-Frame _ (next p)) (λ e'. Frame-refl p.engine))
        (λ e. Frame-refl p.engine)

  pub issue_sync-Frame : (p : Port) → Framed p (issue_sync o p)
  unfolding issue_sync
  issue_sync-Frame p = transmit-Frame 44 0x0 _ _ (next p) (λ q.
      Frame-trans q.engine (follow_sync o q).engine _ (follow_sync-Frame q)
        (Frame-clock (follow_sync o q).engine _ refl refl refl))

  stamp_delay_req-Frame : (p : Port) → Framed p (stamp_delay_req o p)
  unfolding stamp_delay_req
  stamp_delay_req-Frame p =
      if_rule (Framed p)
        (is_stamp_of 0x1 p.engine.clock.sent_delay_req_sequence_id (sent_stamp o p))
        (λ e. Frame-clock p.engine _ refl refl refl) (λ e. Frame-refl p.engine)

  rearm_delay_req-Frame : (p : Port) → Framed p (rearm_delay_req o p)
  unfolding rearm_delay_req timer_start_random
  rearm_delay_req-Frame p =
      Frame-start p.engine (rearm_delay_req o p).engine delayreq_interval_timer _ (omega arith) refl

  pub issue_delay_req-Frame : (p : Port) → Framed p (issue_delay_req o p)
  unfolding issue_delay_req
  issue_delay_req-Frame p = transmit-Frame 44 0x1 _ _ p (λ q.
      Frame-trans q.engine (stamp_delay_req o q).engine _ (stamp_delay_req-Frame q) (
        Frame-trans (stamp_delay_req o q).engine _ _
          (Frame-clock (stamp_delay_req o q).engine _ refl refl refl) (rearm_delay_req-Frame _)))

  stamp_pdelay_req-Frame : (p : Port) → Framed p (stamp_pdelay_req o p)
  unfolding stamp_pdelay_req
  stamp_pdelay_req-Frame p =
      if_rule (Framed p)
        (is_stamp_of 0x2 p.engine.clock.sent_pdelay_req_sequence_id (sent_stamp o p))
        (λ e. Frame-clock p.engine _ refl refl refl) (λ e. Frame-refl p.engine)

  pub issue_pdelay_req-Frame : (p : Port) → Framed p (issue_pdelay_req o p)
  unfolding issue_pdelay_req
  issue_pdelay_req-Frame p = transmit-Frame 54 0x2 _ _ p (λ q.
      Frame-trans q.engine (stamp_pdelay_req o q).engine _ (stamp_pdelay_req-Frame q)
        (Frame-clock (stamp_pdelay_req o q).engine _ refl refl refl))

  follow_pdelay_resp-Frame : (h : MsgHeader) (p : Port) → Framed p (follow_pdelay_resp o h p)
  unfolding follow_pdelay_resp issue_pdelay_resp_follow_up
  follow_pdelay_resp-Frame h p =
      if_rule (Framed p) p.engine.clock.two_step_flag
        (λ e.
          if_rule (Framed p) (is_stamp_of 0x3 h.sequence_id (sent_stamp o p))
            (λ e'. transmit-Frame 54 0xa _ _ (next p) (λ q. Frame-refl q.engine))
            (λ e'. Frame-refl p.engine))
        (λ e. Frame-refl p.engine)

  pub issue_pdelay_resp-Frame :
      (t : TimeInternal) (h : MsgHeader) (p : Port) → Framed p (issue_pdelay_resp o t h p)
  unfolding issue_pdelay_resp
  issue_pdelay_resp-Frame t h p = transmit-Frame 54 0x3 _ _ p (follow_pdelay_resp-Frame h)

  pub issue_delay_resp-Frame :
      (t : TimeInternal) (h : MsgHeader) (p : Port) → Framed p (issue_delay_resp o t h p)
  unfolding issue_delay_resp
  issue_delay_resp-Frame t h p = transmit-Frame 54 0x9 _ _ p (λ q. Frame-refl q.engine)
