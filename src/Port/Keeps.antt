-- ===== src/Port/Keeps.antt =====
-- What the servo and the data set updates leave of the clock: its state and its default data set.
use xge_ptpv.Common.{ℕ, zero, suc, ◌==◌, ◌≡◌, refl, ◌∙◌, List, Bool, ◌&&◌, not, if_rule}
use xge_ptpv.Common.Int.{ℤ, pos, negsuc, ltb_ℤ, int32, neg}
use xge_ptpv.Datatypes.{
  PtpClock, RunTimeOpts, TimeInternal, PortState, MsgHeader, MsgAnnounce, ptp_listening, ptp_master,
  ForeignMasterRecord,
}
use xge_ptpv.Arith.{is_negative, sub_time}
use xge_ptpv.Bmc.{s1, s1_leap, m1, p1, is_state, decide, state_decision, bmc_exec}
use xge_ptpv.Servo.{
  Servo, Command, is_zero, is_aborted, is_large, jump, control, warn_fast, warn_slow, with_drift,
  update_clock,
}
use xge_ptpv.Servo.Offset.{Updated, update_offset}
use xge_ptpv.Servo.Paths.{
  update_delay, update_peer_delay, filter_peer, measure_peer, take_delay, autotune, is_rejected,
}

pub record Same (c d : PtpClock) : Type 0 where
  pub state : d.port_state ≡ c.port_state
  pub default : d.default_ds ≡ c.default_ds

abbrev pub same : (c : PtpClock) → Same c c
same c = record { state = refl; default = refl }

pub update_offset-Same :
    (send recv : TimeInternal) (opts : RunTimeOpts) (v : Servo) (c : PtpClock) (k : TimeInternal)
    → Same c (update_offset send recv opts v c k).clock
unfolding update_offset
update_offset-Same send recv opts v c k =
    if_rule (λ (u : Updated). Same c u.clock) _ (λ p. record { state = refl; default = refl })
      (λ p. record { state = refl; default = refl })

warn_fast-Same : (opts : RunTimeOpts) (adj : ℤ) (c : PtpClock) → Same c (warn_fast opts adj c)
unfolding warn_fast
warn_fast-Same opts adj c =
    if_rule (Same c) _ (λ p. record { state = refl; default = refl }) (λ p. same c)

warn_slow-Same : (c : PtpClock) → Same c (warn_slow c)
unfolding warn_slow
warn_slow-Same c = if_rule (Same c) _ (λ p. same c) (λ p. record { state = refl; default = refl })

Same-trans : (c d f : PtpClock) → Same c d → Same d f → Same c f
Same-trans c d f a b = record { state = b.state ∙ a.state; default = b.default ∙ a.default }

with_drift-Same : (d : ℤ) (c : PtpClock) → Same c (with_drift d c)
unfolding with_drift
with_drift-Same d c = record { state = refl; default = refl }

abbrev SameAs : PtpClock → PtpClock × List Command → Type 0
SameAs c r = Same c r.0

jump-Same : (opts : RunTimeOpts) (v : Servo) (c : PtpClock) → SameAs c (jump opts v c)
unfolding jump
jump-Same opts v c =
    if_rule (SameAs c) opts.no_adjust (λ p. same c)
      (λ p.
        if_rule (SameAs c) opts.no_reset_clock
          (λ q.
            Same-trans c _ _ (with_drift-Same _ c)
              (Same-trans _ _ _ (warn_slow-Same _) (warn_fast-Same opts _ _)))
          (λ q. same c))

control-Same : (opts : RunTimeOpts) (v : Servo) (c : PtpClock) → SameAs c (control opts v c)
unfolding control
control-Same opts v c = Same-trans c _ _ (with_drift-Same _ c) (warn_fast-Same opts _ _)

pub update_clock-Same :
    (opts : RunTimeOpts) (v : Servo) (c : PtpClock) → SameAs c (update_clock opts v c)
unfolding update_clock
update_clock-Same opts v c =
    if_rule (SameAs c) (is_aborted opts c) (λ p. same c)
      (λ p.
        if_rule (SameAs c) (is_large opts v c) (λ q. jump-Same opts v c)
          (λ q. control-Same opts v c))

abbrev SameWith : PtpClock → RunTimeOpts × PtpClock → Type 0
SameWith c r = Same c r.1

autotune-Same : (opts : RunTimeOpts) (c : PtpClock) → SameWith c (autotune opts c)
unfolding autotune
autotune-Same opts c =
    if_rule (SameWith c) (not opts.max_delay_auto_tune) (λ p. same c)
      (λ p.
        if_rule (SameWith c) (not (ltb_ℤ c.discarded_packet_count opts.discarded_packet_threshold))
          (λ q. record { state = refl; default = refl })
          (λ q.
            if_rule (SameWith c)
              (ltb_ℤ c.discarded_packet_count (int32 (neg opts.discarded_packet_threshold)))
              (λ r. record { state = refl; default = refl }) (λ r. same c)))

take_delay-Same :
    (opts : RunTimeOpts) (d : TimeInternal) (c : PtpClock) → SameWith c (take_delay opts d c)
unfolding take_delay
take_delay-Same opts d c =
    if_rule (SameWith c) (not (is_zero d.seconds)) (λ p. record { state = refl; default = refl })
      (λ p.
        if_rule (SameWith c) (is_negative d.nanoseconds) (λ q. same c)
          (λ q. Same-trans c _ _ (record { state = refl; default = refl }) (autotune-Same opts _)))

pub update_delay-Same :
    (opts : RunTimeOpts) (c : PtpClock) (k : TimeInternal) → SameWith c (update_delay opts c k)
unfolding update_delay
update_delay-Same opts c k =
    let sm = sub_time c.delay_req_receive_time c.delay_req_send_time in
    if_rule (SameWith c) (is_rejected opts sm)
      (λ p. Same-trans c _ _ (record { state = refl; default = refl }) (autotune-Same opts _))
      (λ p.
        if_rule (SameWith c) opts.offset_first_updated
          (λ q.
            Same-trans c _ _ (record { state = refl; default = refl }) (take_delay-Same opts _ _))
          (λ q. autotune-Same opts c))

filter_peer-Same : (opts : RunTimeOpts) (c : PtpClock) → Same c (filter_peer opts c)
unfolding filter_peer
filter_peer-Same opts c =
    if_rule (Same c) _ (λ p. record { state = refl; default = refl })
      (λ p. record { state = refl; default = refl })

measure_peer-Same : (b : Bool) (k : TimeInternal) (c : PtpClock) → Same c (measure_peer b k c)
unfolding measure_peer
measure_peer-Same b k c =
    if_rule (Same c) b (λ p. record { state = refl; default = refl })
      (λ p. record { state = refl; default = refl })

pub update_peer_delay-Same :
    (opts : RunTimeOpts) (c : PtpClock) (k : TimeInternal) (b : Bool)
    → Same c (update_peer_delay opts c k b)
unfolding update_peer_delay
update_peer_delay-Same opts c k b =
    Same-trans c _ _ (measure_peer-Same b k c) (filter_peer-Same opts _)

p1-Same : (c : PtpClock) (opts : RunTimeOpts) → Same c (p1 c opts)
unfolding p1
p1-Same c opts = if_rule (Same c) _ (λ p. record { state = refl; default = refl }) (λ p. same c)

pub m1-Same : (opts : RunTimeOpts) (c : PtpClock) → Same c (m1 opts c)
unfolding m1
m1-Same opts c = record { state = refl; default = refl }

s1_leap-Same : (n : ℕ) (c : PtpClock) → Same c (s1_leap n c)
s1_leap-Same n c = if_rule (Same c) _ (λ p. record { state = refl; default = refl }) (λ p. same c)

pub s1-Same :
    (h : MsgHeader) (a : MsgAnnounce) (c : PtpClock) (opts : RunTimeOpts) → Same c (s1 h a c opts)
unfolding s1
s1-Same h a c opts =
    Same-trans c _ _ (record { state = refl; default = refl })
      (Same-trans _ _ _ (p1-Same _ opts)
        (Same-trans _ _ _ (s1_leap-Same h.flag_field1 _) (record { state = refl; default = refl })))

abbrev SameBut : PtpClock → PortState × PtpClock → Type 0
SameBut c r = Same c r.1

decide-Same :
    (k : ℤ) (h : MsgHeader) (a : MsgAnnounce) (opts : RunTimeOpts) (c : PtpClock)
    → Same c (decide k h a opts c).1
unfolding decide
decide-Same (negsuc n) h a opts c = m1-Same opts c
decide-Same (pos zero) h a opts c = same c
decide-Same (pos (suc n)) h a opts c = s1-Same h a c opts

state_decision-Same :
    (h : MsgHeader) (a : MsgAnnounce) (opts : RunTimeOpts) (c : PtpClock)
    → Same c (state_decision h a opts c).1
unfolding state_decision
state_decision-Same h a opts c =
    if_rule (SameBut c) opts.slave_only (λ p. s1-Same h a c opts)
      (λ p.
        if_rule (SameBut c) (c.number_foreign_records == 0 && is_state c.port_state ptp_listening)
          (λ q. same c)
          (λ q.
            Same-trans c _ _ (record { state = refl; default = refl }) (decide-Same _ h a opts _)))

pub bmc_exec-Same :
    (foreign : List ForeignMasterRecord) (opts : RunTimeOpts) (c : PtpClock)
    → Same c (bmc_exec foreign opts c).1
unfolding bmc_exec
bmc_exec-Same foreign opts c =
    if_rule (SameBut c) (c.number_foreign_records == 0 && is_state c.port_state ptp_master)
      (λ p. m1-Same opts c)
      (λ p.
        Same-trans c _ _ (record { state = refl; default = refl }) (state_decision-Same _ _ opts _))
