-- ===== src/Port/Frame.antt =====
-- What the steps of a port leave as it is: its default data set, and its state but for a fault.
use xge_ptpv.Common.{◌≡◌, ◌≢◌, ◌⊎◌, inl, inr, refl, sym, ◌∙◌, ap, subst, true, if_rule, ◌==◌, arith}
use xge_ptpv.Datatypes.{
  PortState, ptp_initializing, ptp_faulty, ptp_disabled, ptp_listening, ptp_pre_master, ptp_master,
  ptp_passive, ptp_uncalibrated, ptp_slave,
}
use xge_ptpv.Bmc.{p1, is_state}
use xge_ptpv.Servo.Offset.{p2p, e2e, init_clock}
use xge_ptpv.Protocol.{
  Engine, to_state, leave_state, enter_state, reset_servo, stop_requests, listen_anew, slave_anew,
}
use xge_ptpv.Protocol.Quiet.{RightTimers}
use xge_ptpv.Protocol.States.{to_state-RightTimers}
use xge_ptpv.Port.{Port}

stop_requests-clock : (e : Engine) → (stop_requests e).clock ≡ e.clock
unfolding stop_requests
stop_requests-clock e =
    if_rule (λ (r : Engine). r.clock ≡ e.clock) (e.clock.delay_mechanism == e2e) (λ p. refl)
      (λ p.
        if_rule (λ (r : Engine). r.clock ≡ e.clock) (e.clock.delay_mechanism == p2p) (λ q. refl)
          (λ q. refl))

reset_servo-default_ds : (e : Engine) → (reset_servo e).clock.default_ds ≡ e.clock.default_ds
unfolding reset_servo init_clock
reset_servo-default_ds e = refl

leave_state-default_ds :
    (s : PortState) (e : Engine) → (leave_state s e).clock.default_ds ≡ e.clock.default_ds
unfolding leave_state
leave_state-default_ds ptp_master e = refl
leave_state-default_ds ptp_slave e =
    reset_servo-default_ds _ ∙ ap (λ c. c.default_ds) (stop_requests-clock _)
leave_state-default_ds ptp_passive e = refl
leave_state-default_ds ptp_listening e = refl
leave_state-default_ds ptp_initializing e = refl
leave_state-default_ds ptp_faulty e = refl
leave_state-default_ds ptp_disabled e = refl
leave_state-default_ds ptp_pre_master e = refl
leave_state-default_ds ptp_uncalibrated e = refl

listen_anew-default_ds : (e : Engine) → (listen_anew e).clock.default_ds ≡ e.clock.default_ds
unfolding listen_anew
listen_anew-default_ds e =
    if_rule (λ (r : Engine). r.clock.default_ds ≡ e.clock.default_ds)
      (is_state e.clock.port_state ptp_listening) (λ p. refl) (λ p. refl)

enter_state-default_ds :
    (s : PortState) (e : Engine) → (enter_state s e).clock.default_ds ≡ e.clock.default_ds
unfolding enter_state reset_servo slave_anew p1 init_clock
enter_state-default_ds ptp_initializing e = refl
enter_state-default_ds ptp_faulty e = refl
enter_state-default_ds ptp_disabled e = refl
enter_state-default_ds ptp_listening e = listen_anew-default_ds _
enter_state-default_ds ptp_pre_master e = refl
enter_state-default_ds ptp_master e = refl
enter_state-default_ds ptp_passive e = refl
enter_state-default_ds ptp_uncalibrated e = refl
enter_state-default_ds ptp_slave e = refl

pub to_state-default_ds :
    (s : PortState) (e : Engine) → (to_state s e).clock.default_ds ≡ e.clock.default_ds
unfolding to_state
to_state-default_ds s e =
    let active = record e { clock = record e.clock { message_activity = true } } in
    enter_state-default_ds s (leave_state e.clock.port_state active)
    ∙ leave_state-default_ds e.clock.port_state active

-- The timers are those of the state, which is not the uncalibrated one.
pub record Sound (e : Engine) : Type 0 where
  pub timers : RightTimers e.clock.port_state e.timers
  pub calibrated : e.clock.port_state ≢ ptp_uncalibrated

-- What a handler does to the engine at most: it may come to a fault.
pub record Frame (e f : Engine) : Type 0 where
  pub state : (f.clock.port_state ≡ e.clock.port_state) ⊎ (f.clock.port_state ≡ ptp_faulty)
  pub default : f.clock.default_ds ≡ e.clock.default_ds
  pub sound : Sound e → Sound f

abbrev pub Framed : Port → Port → Type 0
Framed p q = Frame p.engine q.engine

pub Frame-refl : (e : Engine) → Frame e e
Frame-refl e = record { state = inl refl; default = refl; sound = λ s. s }

pub Frame-trans : (e f g : Engine) → Frame e f → Frame f g → Frame e g
Frame-trans e f g a b = record {
  state = elim b.state [
    | inr y ↦ inr y
    | inl x ↦ elim a.state [ inl z ↦ inl (x ∙ z) | inr z ↦ inr (x ∙ z) ]
  ];
  default = b.default ∙ a.default;
  sound = λ s. b.sound (a.sound s);
}

-- Only the clock changes, and in it neither the state nor the default data set.
pub Frame-clock :
    (e f : Engine)
    → f.timers ≡ e.timers
    → f.clock.port_state ≡ e.clock.port_state
    → f.clock.default_ds ≡ e.clock.default_ds
    → Frame e f
Frame-clock e f t s d = record {
  state = inl s;
  default = d;
  sound = λ r. record {
    timers =
        subst (λ t'. RightTimers f.clock.port_state t') (sym t)
          (subst (λ s'. RightTimers s' e.timers) (sym s) r.timers);
    calibrated = λ u. r.calibrated (sym s ∙ u);
  };
}

faulty≢uncalibrated : ptp_faulty ≢ ptp_uncalibrated
faulty≢uncalibrated = grind arith

pub to_state-faulty : (e : Engine) → (to_state ptp_faulty e).clock.port_state ≡ ptp_faulty
unfolding to_state enter_state
to_state-faulty e = refl

pub Frame-fault : (e : Engine) → Frame e (to_state ptp_faulty e)
Frame-fault e = record {
  state = inr (to_state-faulty e);
  default = to_state-default_ds ptp_faulty e;
  sound = λ r. record {
    timers = (to_state-RightTimers ptp_faulty e r.timers).0;
    calibrated = λ u. faulty≢uncalibrated (sym (to_state-faulty e) ∙ u);
  };
}

leave_state-port_state :
    (s : PortState) (e : Engine) → (leave_state s e).clock.port_state ≡ e.clock.port_state
unfolding leave_state reset_servo init_clock
leave_state-port_state ptp_master e = refl
leave_state-port_state ptp_slave e = ap (λ c. c.port_state) (stop_requests-clock _)
leave_state-port_state ptp_passive e = refl
leave_state-port_state ptp_listening e = refl
leave_state-port_state ptp_initializing e = refl
leave_state-port_state ptp_faulty e = refl
leave_state-port_state ptp_disabled e = refl
leave_state-port_state ptp_pre_master e = refl
leave_state-port_state ptp_uncalibrated e = refl

pub to_state-pre_master :
    (e : Engine) → (to_state ptp_pre_master e).clock.port_state ≡ e.clock.port_state
unfolding to_state enter_state
to_state-pre_master e = leave_state-port_state e.clock.port_state _
