-- ===== src/Port/Guards.antt =====
-- What the handlers refuse: messages that are too short, that come from the port itself, or that
-- come while the port is down.
use xge_ptpv.Common.{
  ℕ, ◌≡◌, ◌≢◌, ◌⊎◌, inl, inr, if_rule, if_true, if_false, refl, sym, ◌∙◌, Bool, true, false, ◌==◌,
}
use mathlib.Core.Bool.{false≢true}
use xge_ptpv.Common.Int.{ℤ, pos, ltb_ℤ}
use xge_ptpv.Datatypes.{
  MsgHeader, TimeInternal, PortState, PtpClock, ptp_initializing, ptp_faulty, ptp_disabled,
  ptp_listening, ptp_pre_master, ptp_master, ptp_passive, ptp_uncalibrated, ptp_slave,
}
use xge_ptpv.Bmc.{is_state, state_code}
use xge_ptpv.Servo.Offset.{p2p, e2e}
use xge_ptpv.Port.{Outside, Port, fault, is_down}
use xge_ptpv.Port.Announce.{handle_announce, announce_in}
use xge_ptpv.Port.Sync.{follows, handle_sync, handle_follow_up}
use xge_ptpv.Port.Delay.{handle_delay_req, handle_delay_resp}
use xge_ptpv.Port.Peer.{
  answers_peers, takes_follow_ups, handle_pdelay_req, handle_pdelay_resp,
  handle_pdelay_resp_follow_up,
}
use xge_ptpv.Port.Receive.{
  MessageType, dispatch, sync, delay_req, pdelay_req, pdelay_resp, follow_up, delay_resp,
  pdelay_resp_follow_up, announce, signaling, management, unrecognized,
}

-- The length of a message of each kind that has a handler of its own here.
abbrev pub least : MessageType → ℕ
least announce = 64
least sync = 44
least follow_up = 44
least delay_req = 44
least delay_resp = 54
least pdelay_req = 54
least pdelay_resp = 54
least pdelay_resp_follow_up = 54
least k = 0

-- The kinds that the clock handles, by its delay mechanism.
abbrev pub is_handled : MessageType → PtpClock → Bool
is_handled announce c = true
is_handled sync c = true
is_handled follow_up c = true
is_handled delay_req c = c.delay_mechanism == e2e
is_handled delay_resp c = c.delay_mechanism == e2e
is_handled pdelay_req c = c.delay_mechanism == p2p
is_handled pdelay_resp c = c.delay_mechanism == p2p
is_handled pdelay_resp_follow_up c = c.delay_mechanism == p2p
is_handled management c = true
is_handled k c = false

module _ (o : Outside) (manage : MsgHeader → ℤ → Bool → Port → Port) (h : MsgHeader) (length : ℤ)
    (t : TimeInternal) (own : Bool) (p : Port) where
  -- The first test of each handler, and the second.
  guarded :
      (k : MessageType)
      → (ltb_ℤ length (pos (least k)) ≡ true
          → is_handled k p.engine.clock ≡ true
          → k ≢ management
          → dispatch o manage k h length t own p ≡ fault p)
        × (is_handled k p.engine.clock ≡ false → dispatch o manage k h length t own p ≡ p)
  unfolding dispatch handle_sync handle_delay_req handle_pdelay_req handle_pdelay_resp
      handle_follow_up handle_delay_resp handle_pdelay_resp_follow_up handle_announce
  guarded sync = (λ e f m. if_true _ _ _ e, λ f. absurd (false≢true (sym f)))
  guarded delay_req = (λ e f m. if_true _ _ _ f ∙ if_true _ _ _ e, λ f. if_false _ _ _ f)
  guarded pdelay_req = (λ e f m. if_true _ _ _ f ∙ if_true _ _ _ e, λ f. if_false _ _ _ f)
  guarded pdelay_resp = (λ e f m. if_true _ _ _ f ∙ if_true _ _ _ e, λ f. if_false _ _ _ f)
  guarded follow_up = (λ e f m. if_true _ _ _ e, λ f. absurd (false≢true (sym f)))
  guarded delay_resp = (λ e f m. if_true _ _ _ f ∙ if_true _ _ _ e, λ f. if_false _ _ _ f)
  guarded pdelay_resp_follow_up =
      (λ e f m. if_true _ _ _ f ∙ if_true _ _ _ e, λ f. if_false _ _ _ f)
  guarded announce = (λ e f m. if_true _ _ _ e, λ f. absurd (false≢true (sym f)))
  guarded signaling = (λ e f m. absurd (false≢true f), λ f. refl)
  guarded management = (λ e f m. absurd (m refl), λ f. absurd (false≢true (sym f)))
  guarded unrecognized = (λ e f m. absurd (false≢true f), λ f. refl)

-- What a state that is down rules out.
record RulesOut (s : PortState) : Type 0 where
  follows_not : follows s ≡ false
  master_not : is_state s ptp_master ≡ false
  slave_not : is_state s ptp_slave ≡ false
  peers_not : answers_peers s ≡ false
  follow_ups_not : takes_follow_ups s ≡ false
  announces_not : (header : MsgHeader) (q : Port) → announce_in s header q ≡ q

is_down-RulesOut : (s : PortState) → is_down s ≡ true → RulesOut s
unfolding is_state state_code announce_in
is_down-RulesOut ptp_initializing e = record {
  follows_not = refl;
  master_not = refl;
  slave_not = refl;
  peers_not = refl;
  follow_ups_not = refl;
  announces_not = λ header q. refl;
}
is_down-RulesOut ptp_faulty e = record {
  follows_not = refl;
  master_not = refl;
  slave_not = refl;
  peers_not = refl;
  follow_ups_not = refl;
  announces_not = λ header q. refl;
}
is_down-RulesOut ptp_disabled e = record {
  follows_not = refl;
  master_not = refl;
  slave_not = refl;
  peers_not = refl;
  follow_ups_not = refl;
  announces_not = λ header q. refl;
}
is_down-RulesOut ptp_listening e = absurd (false≢true e)
is_down-RulesOut ptp_pre_master e = absurd (false≢true e)
is_down-RulesOut ptp_master e = absurd (false≢true e)
is_down-RulesOut ptp_passive e = absurd (false≢true e)
is_down-RulesOut ptp_uncalibrated e = absurd (false≢true e)
is_down-RulesOut ptp_slave e = absurd (false≢true e)

-- The kinds whose handlers look whether the message is from the port itself.
abbrev pub looks_at_sender : MessageType → Bool
looks_at_sender announce = true
looks_at_sender sync = true
looks_at_sender follow_up = true
looks_at_sender pdelay_req = true
looks_at_sender k = false

abbrev Ignores : Port → Port → Type 0
Ignores p q = q ≡ p

module _ (o : Outside) (manage : MsgHeader → ℤ → Bool → Port → Port) (h : MsgHeader) (length : ℤ)
    (t : TimeInternal) (own : Bool) (p : Port) where
  -- A message that is long enough, by the state of the port and by its sender.
  ignored :
      (k : MessageType)
      → ltb_ℤ length (pos (least k)) ≡ false
      → (is_down p.engine.clock.port_state ≡ true
          → k ≢ management
          → dispatch o manage k h length t own p ≡ p)
        × (looks_at_sender k ≡ true → own ≡ true → dispatch o manage k h length t own p ≡ p)
  unfolding dispatch handle_sync handle_delay_req handle_pdelay_req handle_pdelay_resp
      handle_follow_up handle_delay_resp handle_pdelay_resp_follow_up handle_announce
  ignored sync e = (
    λ d m.
        let r = is_down-RulesOut p.engine.clock.port_state d in
        if_false _ _ _ e ∙ if_false _ _ _ r.follows_not,
    λ l w.
        if_false _ _ _ e
        ∙ if_rule (Ignores p) (follows p.engine.clock.port_state) (λ f. if_true _ _ _ w)
            (λ f. refl),
  )
  ignored delay_req e = (
    λ d m.
        let r = is_down-RulesOut p.engine.clock.port_state d in
        if_rule (Ignores p) (p.engine.clock.delay_mechanism == e2e)
          (λ f. if_false _ _ _ e ∙ if_false _ _ _ r.master_not) (λ f. refl),
    λ l w. absurd (false≢true l),
  )
  ignored pdelay_req e = (
    λ d m.
        let r = is_down-RulesOut p.engine.clock.port_state d in
        if_rule (Ignores p) (p.engine.clock.delay_mechanism == p2p)
          (λ f. if_false _ _ _ e ∙ if_false _ _ _ r.peers_not) (λ f. refl),
    λ l w.
        if_rule (Ignores p) (p.engine.clock.delay_mechanism == p2p)
          (λ f.
            if_false _ _ _ e
            ∙ if_rule (Ignores p) (answers_peers p.engine.clock.port_state) (λ g. if_true _ _ _ w)
                (λ g. refl))
          (λ f. refl),
  )
  ignored pdelay_resp e = (
    λ d m.
        let r = is_down-RulesOut p.engine.clock.port_state d in
        if_rule (Ignores p) (p.engine.clock.delay_mechanism == p2p)
          (λ f. if_false _ _ _ e ∙ if_false _ _ _ r.peers_not) (λ f. refl),
    λ l w. absurd (false≢true l),
  )
  ignored follow_up e = (
    λ d m.
        let r = is_down-RulesOut p.engine.clock.port_state d in
        if_false _ _ _ e ∙ if_rule (Ignores p) own (λ f. refl) (λ f. if_false _ _ _ r.follows_not),
    λ l w. if_false _ _ _ e ∙ if_true _ _ _ w,
  )
  ignored delay_resp e = (
    λ d m.
        let r = is_down-RulesOut p.engine.clock.port_state d in
        if_rule (Ignores p) (p.engine.clock.delay_mechanism == e2e)
          (λ f. if_false _ _ _ e ∙ if_false _ _ _ r.slave_not) (λ f. refl),
    λ l w. absurd (false≢true l),
  )
  ignored pdelay_resp_follow_up e = (
    λ d m.
        let r = is_down-RulesOut p.engine.clock.port_state d in
        if_rule (Ignores p) (p.engine.clock.delay_mechanism == p2p)
          (λ f. if_false _ _ _ e ∙ if_false _ _ _ r.follow_ups_not) (λ f. refl),
    λ l w. absurd (false≢true l),
  )
  ignored announce e = (
    λ d m.
        let r = is_down-RulesOut p.engine.clock.port_state d in
        if_false _ _ _ e ∙ if_rule (Ignores p) own (λ f. refl) (λ f. r.announces_not h p),
    λ l w. if_false _ _ _ e ∙ if_true _ _ _ w,
  )
  ignored signaling e = (λ d m. refl, λ l w. refl)
  ignored management e = (λ d m. absurd (m refl), λ l w. absurd (false≢true l))
  ignored unrecognized e = (λ d m. refl, λ l w. refl)

  -- A message that is not too short for its kind leaves the port as it is when the port is
  -- initializing, faulty or disabled and the message is not management; when the clock's delay
  -- mechanism does not handle the kind; and when it is an Announce, Sync, Follow_Up or Pdelay_Req of
  -- the port itself.
  pub dispatch_none :
      (k : MessageType)
      → ltb_ℤ length (pos (least k)) ≡ false
      → ((is_down p.engine.clock.port_state ≡ true) × (k ≢ management))
        ⊎ ((is_handled k p.engine.clock ≡ false) ⊎ ((looks_at_sender k ≡ true) × (own ≡ true)))
      → dispatch o manage k h length t own p ≡ p
  dispatch_none k e (inl d) = (ignored k e).0 d.0 d.1
  dispatch_none k e (inr (inl f)) = (guarded o manage h length t own p k).1 f
  dispatch_none k e (inr (inr l)) = (ignored k e).1 l.0 l.1
