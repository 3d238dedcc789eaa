-- ===== src/Port/Rounds.antt =====
-- The rounds of the main loop: `handle`, `doState` and `doInit` keep the timers those of the state,
-- and a clock for slaves only does not stay a master.
use xge_ptpv.Common.{
  ℕ, ◌%◌, ◌≡◌, ◌≢◌, inl, refl, sym, ap, subst, ◌∙◌, Bool, true, false, ◌==◌, if_rule, if_true,
  if◌then◌else◌, ltb, arith,
}
use xge_ptpv.Common.Int.{ℤ, pos, pos_part, ltb_ℤ}
use xge_ptpv.Datatypes.{MsgHeader, TimeInternal, ptp_uncalibrated}
use xge_ptpv.Arith.{clear_time, is_negative}
use xge_ptpv.Servo.{is_zero}
use xge_ptpv.Servo.Offset.{p2p, e2e}
use xge_ptpv.Msg.{Buffer, msg_unpack_header}
use xge_ptpv.Timer.{timer_expired}
use xge_ptpv.Protocol.{delayreq_interval_timer, pdelayreq_interval_timer}
use xge_ptpv.Protocol.Reach.{asks-RightTimers}
use xge_ptpv.Port.{Outside, Port, Receipt, on_clock, on_engine, next, read_rtc}
use xge_ptpv.Port.Issue.{issue_announce, issue_delay_req, issue_pdelay_req}
use xge_ptpv.Port.Receive.{received, is_own, message_type_of, management, accept, take, handle}
use xge_ptpv.Port.Loop.{on_expiry, request_delay, request_peer_delay, announce_first}
use xge_ptpv.Port.Frame.{Framed, Frame-refl, Frame-trans, Frame-clock, Frame-fault}
use xge_ptpv.Port.Sends.{issue_announce-Frame, issue_delay_req-Frame, issue_pdelay_req-Frame}
use xge_ptpv.Port.Exchanges.{dispatch-Frame}

-- The port when timer `i` has been asked.
abbrev pub asked_timer : ℕ → Port → Port
asked_timer i p = on_engine (λ e. record e { timers = (timer_expired i p.engine.timers).1 }) p

pub asked_timer-Frame : (i : ℕ) (p : Port) → Framed p (asked_timer i p)
asked_timer-Frame i p = record {
  state = inl refl;
  default = refl;
  sound = λ s. record {
    timers = asks-RightTimers i p.engine.clock.port_state p.engine.timers s.timers;
    calibrated = s.calibrated;
  };
}

pub on_expiry-Frame :
    (i : ℕ) (f : Port → Port) (p : Port)
    → ((q : Port) → Framed q (f q))
    → Framed p (on_expiry i f p)
unfolding on_expiry
on_expiry-Frame i f p h =
    let q = asked_timer i p in
    if_rule (Framed p) (timer_expired i p.engine.timers).0
      (λ e. Frame-trans p.engine q.engine (f q).engine (asked_timer-Frame i p) (h q))
      (λ e. asked_timer-Frame i p)

-- A type that is not that of management.
not_management : (n : ℕ) → n ≢ 13 → message_type_of n ≢ management
unfolding message_type_of
not_management n d = ground arith

-- The type of what was received.
received_type :
    (r : Receipt) (b : Buffer)
    → ltb_ℤ r.length (pos 34) ≡ false
    → (msg_unpack_header (received r b)).message_type ≡ r.octets 0 % 16
unfolding msg_unpack_header
received_type r b k =
    ap (λ n. n % 16) (if_true (ltb 0 (pos_part r.length)) (r.octets 0) (b 0) (ground arith))

module _ (o : Outside) (manage : MsgHeader → ℤ → Bool → Port → Port)
    (no_management : (n : ℕ) → (o.net_recv n).octets 0 % 16 ≢ 13) where
  accept-Frame :
      (length : ℤ) (t : TimeInternal) (p : Port)
      → p.engine.clock.port_state ≢ ptp_uncalibrated
      → message_type_of (msg_unpack_header p.msg_ibuf).message_type ≢ management
      → Framed p (accept o manage length t p)
  unfolding accept
  accept-Frame length t p u m =
      let h = msg_unpack_header p.msg_ibuf in
      let q = on_clock (λ c. record c { msg_tmp_header = h }) p in
      let c = q.engine.clock in
      let a : Framed p q = Frame-clock p.engine q.engine refl refl refl in
      if_rule (Framed p) (h.version_ptp == c.version_number)
        (λ e.
          if_rule (Framed p) (h.domain_number == c.domain_number)
            (λ f. Frame-trans p.engine q.engine _ a (
              dispatch-Frame o manage (message_type_of h.message_type) h length t (is_own h c) q u
                m))
            (λ f. a))
        (λ e. a)

  take-Frame :
      (p : Port) → p.engine.clock.port_state ≢ ptp_uncalibrated → Framed p (take o manage p)
  unfolding take
  take-Frame p u =
      let r = o.net_recv p.asked in
      let q = next (record p { msg_ibuf = received r p.msg_ibuf }) in
      let is_event = ltb r.message_type 8 in
      let t = if is_event then read_rtc o q else clear_time in
      let active : Port → Port = λ s. on_clock (λ c. record c { message_activity = true }) s in
      let both : Framed p (active (if is_event then next q else q)) =
        if_rule (λ s. Framed p (active s)) is_event (λ e. Frame-clock p.engine _ refl refl refl)
          (λ e. Frame-clock p.engine _ refl refl refl) in
      let calm : (active (if is_event then next q else q)).engine.clock.port_state
          ≡ p.engine.clock.port_state =
        if_rule (λ s. (active s).engine.clock.port_state ≡ p.engine.clock.port_state) is_event
          (λ e. refl) (λ e. refl) in
      let a = active (if is_event then next q else q) in
      let same : a.msg_ibuf ≡ received r p.msg_ibuf =
        if_rule (λ s. (active s).msg_ibuf ≡ received r p.msg_ibuf) is_event (λ e. refl)
          (λ e. refl) in
      if_rule (Framed p) (is_negative r.length) (λ e. Frame-fault p.engine)
        (λ e.
          if_rule (Framed p) (is_zero r.length) (λ f. Frame-refl p.engine)
            (λ f.
              if_rule (Framed p) (ltb_ℤ r.length (pos 34))
                (λ k. Frame-trans p.engine a.engine _ both (Frame-fault a.engine))
                (λ k. Frame-trans p.engine a.engine _ both (
                  accept-Frame r.length t a (λ v. u (sym calm ∙ v))
                    (subst (λ b. message_type_of (msg_unpack_header b).message_type ≢ management)
                      (sym same)
                      (subst (λ n. message_type_of n ≢ management)
                        (sym (received_type r p.msg_ibuf k))
                        (not_management _ (no_management p.asked))))))))

  pub handle-Frame :
      (p : Port) → p.engine.clock.port_state ≢ ptp_uncalibrated → Framed p (handle o manage p)
  unfolding handle
  handle-Frame p u =
      if_rule (Framed p) p.engine.clock.message_activity (λ e. take-Frame p u)
        (λ e.
          let ret = o.net_select p.asked in
          if_rule (Framed p) (is_negative ret) (λ f. Frame-fault p.engine)
            (λ f.
              if_rule (Framed p) (is_zero ret) (λ g. Frame-refl p.engine)
                (λ g. take-Frame (next p) u)))

  pub request_delay-Frame : (p : Port) → Framed p (request_delay o manage p)
  unfolding request_delay
  request_delay-Frame p =
      if_rule (Framed p) (p.engine.clock.delay_mechanism == e2e)
        (λ e.
          on_expiry-Frame delayreq_interval_timer (issue_delay_req o) p (issue_delay_req-Frame o))
        (λ e.
          if_rule (Framed p) (p.engine.clock.delay_mechanism == p2p)
            (λ f.
              on_expiry-Frame pdelayreq_interval_timer (issue_pdelay_req o) p
                (issue_pdelay_req-Frame o))
            (λ f. Frame-refl p.engine))

  pub request_peer_delay-Frame : (p : Port) → Framed p (request_peer_delay o manage p)
  unfolding request_peer_delay
  request_peer_delay-Frame p =
      if_rule (Framed p) (p.engine.clock.delay_mechanism == p2p)
        (λ f.
          on_expiry-Frame pdelayreq_interval_timer (issue_pdelay_req o) p
            (issue_pdelay_req-Frame o))
        (λ f. Frame-refl p.engine)

  pub announce_first-Frame : (p : Port) → Framed p (announce_first o manage p)
  unfolding announce_first
  announce_first-Frame p =
      if_rule (Framed p) p.engine.master_has_sent_announce (λ e. Frame-refl p.engine)
        (λ e.
          Frame-trans p.engine (issue_announce o p).engine _ (issue_announce-Frame o p)
            (Frame-clock (issue_announce o p).engine _ refl refl refl))
