-- ===== src/Port/Safety.antt =====
-- The rounds of the main loop as a whole: every round keeps the timers those of the state, and a
-- clock for slaves only is no master after it.
use xge_ptpv.Common.{
  ℕ, ◌%◌, ◌≡◌, ◌≢◌, inl, inr, refl, sym, ◌∙◌, ap, Bool, true, false, not, ◌||◌, ◌==◌, if_rule,
  arith,
}
use mathlib.Core.Bool.{false≢true}
use xge_ptpv.Common.Int.{ℤ}
use xge_ptpv.Datatypes.{
  PortState, MsgHeader, ptp_initializing, ptp_faulty, ptp_disabled, ptp_listening, ptp_pre_master,
  ptp_master, ptp_passive, ptp_uncalibrated, ptp_slave,
}
use xge_ptpv.Bmc.{m1, init_data, is_state}
use xge_ptpv.Servo.Offset.{init_clock}
use xge_ptpv.Protocol.{
  Engine, to_state, reset_servo, announce_receipt_timer, operator_messages_timer,
  sync_interval_timer, announce_interval_timer,
}
use xge_ptpv.Protocol.States.{to_state-RightTimers}
use xge_ptpv.Timer.{timer_expired}
use xge_ptpv.Port.{Outside, Port, on_clock, on_engine}
use xge_ptpv.Port.Issue.{issue_announce, issue_sync}
use xge_ptpv.Port.Receive.{handle}
use xge_ptpv.Port.Loop.{
  initialised, restarted, leading, on_expiry, do_init, decide_state, is_slave_only, lose_master,
  reset_operator_messages, request_delay, request_peer_delay, announce_first, do_waiting, do_master,
  do_in, do_state, round,
}
use xge_ptpv.Port.Frame.{Sound, Framed, Frame-clock, to_state-default_ds}
use xge_ptpv.Port.Sends.{issue_announce-Frame, issue_sync-Frame}
use xge_ptpv.Port.Rounds.{
  asked_timer, asked_timer-Frame, on_expiry-Frame, handle-Frame, request_delay-Frame,
  request_peer_delay-Frame, announce_first-Frame,
}
use xge_ptpv.Port.Deciding.{IsSound, to_state-Sound, decide_state-Sound}

-- A clock for slaves only is no master.
abbrev pub Obeys : Port → Type 0
Obeys p = is_slave_only p.engine.clock ≡ true → p.engine.clock.port_state ≢ ptp_master

-- What holds of a port between the rounds.
pub record IsSafe (p : Port) : Type 0 where
  pub sound : IsSound p
  pub obeys : Obeys p

-- What frames keeps it.
frame-IsSafe : (p q : Port) → Framed p q → IsSafe p → IsSafe q
frame-IsSafe p q f s = record {
  sound = f.sound s.sound;
  obeys = λ h m. elim f.state [
    | inl e ↦
        s.obeys (sym (ap (λ d. d.slave_only || d.clock_quality.clock_class == 255) f.default) ∙ h)
          (sym e ∙ m)
    | inr e ↦ faulty≢master (sym e ∙ m)
  ];
}
  where
    faulty≢master : ptp_faulty ≢ ptp_master
    faulty≢master = grind arith

not_master-IsSafe :
    (s : PortState) (p : Port)
    → IsSound p
    → p.engine.clock.port_state ≡ s
    → s ≢ ptp_master
    → IsSafe p
not_master-IsSafe s p r e d = record { sound = r; obeys = λ h m. d (sym e ∙ m) }

-- Entering a state that is not the master's.
enters-IsSafe :
    (s : PortState) (p : Port)
    → s ≢ ptp_master
    → s ≢ ptp_pre_master
    → s ≢ ptp_uncalibrated
    → IsSound p
    → IsSafe (on_engine (to_state s) p)
enters-IsSafe s p m n u r =
    not_master-IsSafe s (on_engine (to_state s) p) (to_state-Sound s p.engine u r)
      ((to_state-RightTimers s p.engine r.timers).1 n) m

lose_master-IsSafe : (p : Port) → IsSound p → IsSafe (lose_master p)
unfolding lose_master m1
lose_master-IsSafe p r =
    let q =
      on_clock
        (λ c. record c {
          foreign_ds = record c.foreign_ds { number_foreign_records = 0; foreign_record_i = 0 };
        })
        p in
    let e = record q.engine { clock = m1 q.engine.opts q.engine.clock } in
    let s = (Frame-clock p.engine q.engine refl refl refl).sound r in
    let t = (Frame-clock q.engine e refl refl refl).sound s in
    if_rule IsSafe (not (is_slave_only q.engine.clock))
      (λ n. record {
        sound = to_state-Sound ptp_master e (grind arith) t;
        obeys = λ h. absurd (
            false≢true (
              ap not (sym h)
              ∙ ap (λ d. not (d.slave_only || d.clock_quality.clock_class == 255))
                  (to_state-default_ds ptp_master e)
              ∙ n));
      })
      (λ n. enters-IsSafe ptp_listening q (grind arith) (grind arith) (grind arith) s)

expires-IsSafe : (p : Port) → IsSafe p → IsSafe (on_expiry announce_receipt_timer lose_master p)
unfolding on_expiry
expires-IsSafe p s =
    let q = asked_timer announce_receipt_timer p in
    let a = asked_timer-Frame announce_receipt_timer p in
    if_rule IsSafe (timer_expired announce_receipt_timer p.engine.timers).0
      (λ e. lose_master-IsSafe q (a.sound s.sound)) (λ e. frame-IsSafe p q a s)

-- `doInit` up to the state that it enters.
restart-Sound : (e : Engine) → Sound e → Sound (leading (reset_servo (restarted (initialised e))))
unfolding reset_servo init_clock m1 init_data
restart-Sound e r = record {
  timers = record {
    size = r.timers.size;
    syncs = λ n. let h = r.timers.syncs n in record { size = h.size; interval_is = h.interval_is };
    announces =
        λ n. let h = r.timers.announces n in record { size = h.size; interval_is = h.interval_is };
    waits = λ n. let h = r.timers.waits n in record { size = h.size; interval_is = h.interval_is };
  };
  calibrated = r.calibrated;
}

do_init-IsSafe : (is_connected : Bool) (p : Port) → IsSound p → IsSafe (do_init is_connected p)
unfolding do_init
do_init-IsSafe is_connected p r =
    if_rule IsSafe is_connected
      (λ e.
        enters-IsSafe ptp_listening _ (grind arith) (grind arith) (grind arith)
          (restart-Sound p.engine r))
      (λ e. enters-IsSafe ptp_faulty p (grind arith) (grind arith) (grind arith) r)

module _ (o : Outside) (manage : MsgHeader → ℤ → Bool → Port → Port)
    (no_management : (n : ℕ) → (o.net_recv n).octets 0 % 16 ≢ 13) where
  do_waiting-IsSafe :
      (p : Port)
      → IsSound p
      → p.engine.clock.port_state ≢ ptp_master
      → IsSafe (do_waiting o manage p)
  unfolding do_waiting
  do_waiting-IsSafe p r d =
      let h = handle o manage p in
      let safe =
        frame-IsSafe p h (handle-Frame o manage no_management p r.calibrated)
          (record { sound = r; obeys = λ e m. d m }) in
      let l = on_expiry announce_receipt_timer lose_master h in
      let m = on_expiry operator_messages_timer reset_operator_messages l in
      frame-IsSafe m (request_delay o manage m) (request_delay-Frame o manage no_management m) (
        frame-IsSafe l m
          (on_expiry-Frame operator_messages_timer reset_operator_messages l
            (λ q. Frame-clock q.engine _ refl refl refl))
          (expires-IsSafe h safe))

  do_master-IsSafe : (p : Port) → IsSound p → IsSafe (do_master o manage p)
  unfolding do_master
  do_master-IsSafe p r =
      let a = announce_first o manage p in
      let b = on_expiry sync_interval_timer (issue_sync o) a in
      let c = on_expiry announce_interval_timer (issue_announce o) b in
      let d = request_peer_delay o manage c in
      let f = handle o manage d in
      let ra = (announce_first-Frame o manage no_management p).sound r in
      let rb =
        (on_expiry-Frame sync_interval_timer (issue_sync o) a (issue_sync-Frame o)).sound ra in
      let rc =
        (on_expiry-Frame announce_interval_timer (issue_announce o) b
            (issue_announce-Frame o)).sound
          rb in
      let rd = (request_peer_delay-Frame o manage no_management c).sound rc in
      let rf = (handle-Frame o manage no_management d rd.calibrated).sound rd in
      if_rule IsSafe (is_slave_only f.engine.clock)
        (λ e. enters-IsSafe ptp_listening f (grind arith) (grind arith) (grind arith) rf)
        (λ e. record { sound = rf; obeys = λ h. absurd (false≢true (sym e ∙ h)) })

  do_in-IsSafe :
      (s : PortState) (p : Port)
      → IsSound p
      → p.engine.clock.port_state ≡ s
      → IsSafe (do_in o manage s p)
  unfolding do_in
  do_in-IsSafe ptp_faulty p r e =
      enters-IsSafe ptp_initializing p (grind arith) (grind arith) (grind arith) r
  do_in-IsSafe ptp_listening p r e = do_waiting-IsSafe p r (λ m. listening≢master (sym e ∙ m))
    where
      listening≢master : ptp_listening ≢ ptp_master
      listening≢master = grind arith
  do_in-IsSafe ptp_uncalibrated p r e = absurd (r.calibrated e)
  do_in-IsSafe ptp_slave p r e = do_waiting-IsSafe p r (λ m. slave≢master (sym e ∙ m))
    where
      slave≢master : ptp_slave ≢ ptp_master
      slave≢master = grind arith
  do_in-IsSafe ptp_passive p r e = do_waiting-IsSafe p r (λ m. passive≢master (sym e ∙ m))
    where
      passive≢master : ptp_passive ≢ ptp_master
      passive≢master = grind arith
  do_in-IsSafe ptp_master p r e = do_master-IsSafe p r
  do_in-IsSafe ptp_disabled p r e =
      frame-IsSafe p (handle o manage p) (handle-Frame o manage no_management p r.calibrated)
        (not_master-IsSafe ptp_disabled p r e (grind arith))
  do_in-IsSafe ptp_initializing p r e = not_master-IsSafe ptp_initializing p r e (grind arith)
  do_in-IsSafe ptp_pre_master p r e = not_master-IsSafe ptp_pre_master p r e (grind arith)

  do_state-IsSafe : (p : Port) → IsSound p → IsSafe (do_state o manage p)
  unfolding do_state
  do_state-IsSafe p r =
      let q = on_clock (λ c. record c { message_activity = false }) p in
      let s = decide_state-Sound q ((Frame-clock p.engine q.engine refl refl refl).sound r) in
      do_in-IsSafe (decide_state q).engine.clock.port_state (decide_state q) s refl

  -- Every round, whatever comes in and whatever the hardware answers, leaves the timers of Sync and
  -- Announce stopped but in the master's state, and the wait for announces stopped but in listening,
  -- passive and slave, if they were so before it and the state was not the uncalibrated one; and
  -- after the round a clock for slaves only is no master. Nothing of what comes in has the type of a
  -- management message.
  pub round-IsSafe :
      (is_connected : Bool) (p : Port) → IsSound p → IsSafe (round o manage is_connected p)
  unfolding round
  round-IsSafe is_connected p r =
      if_rule IsSafe (is_state p.engine.clock.port_state ptp_initializing)
        (λ e. do_init-IsSafe is_connected p r) (λ e. do_state-IsSafe p r)
