-- ===== src/Bmc/Decide.antt =====
-- The decisions of `bmcStateDecision`, with the data sets that go with them.
use xge_ptpv.Common.{
  zero, suc, ◌+◌, ◌%◌, ◌^◌, ◌≤◌, ◌<◌, ◌≡◌, refl, sym, ◌⊎◌, inl, inr, Ordering, Bool, true, false,
  ◌&&◌, ltb, ◌==◌, if◌then◌else◌, Bool-cases, if_rule, arith,
}
use xge_ptpv.Common.Int.{ℤ, pos, negsuc}
use xge_ptpv.Datatypes.{
  MsgHeader, MsgAnnounce, PtpClock, RunTimeOpts, PortState, ptp_listening, ptp_master, ptp_passive,
  ptp_slave, ptp_faulty,
}
use xge_ptpv.Bmc.{
  m1, s1, p1, copy_d0, sign_of, data_set_comparison, decide, state_decision, state_code,
  compare_paths, compare_grandmasters,
}

-- The clock is its own grandmaster.
pub record Leads (c : PtpClock) : Type 0 where
  pub parent :
      c.parent_port_identity ≡ record { clock_identity = c.clock_identity; port_number = 0 }
  pub grandmaster : c.grandmaster_identity ≡ c.clock_identity
  pub quality : c.grandmaster_clock_quality ≡ c.clock_quality
  pub first : c.grandmaster_priority1 ≡ c.priority1
  pub second : c.grandmaster_priority2 ≡ c.priority2
  pub steps : c.steps_removed ≡ 0

-- The clock's parent is the sender of the announce, and its grandmaster the announced one.
pub record Follows (header : MsgHeader) (announce : MsgAnnounce) (c : PtpClock) : Type 0 where
  pub parent : c.parent_port_identity ≡ header.source_port_identity
  pub grandmaster : c.grandmaster_identity ≡ announce.grandmaster_identity
  pub quality : c.grandmaster_clock_quality ≡ announce.grandmaster_clock_quality
  pub first : c.grandmaster_priority1 ≡ announce.grandmaster_priority1
  pub second : c.grandmaster_priority2 ≡ announce.grandmaster_priority2
  pub steps : c.steps_removed ≡ (announce.steps_removed + 1) % 2 ^ 16

-- The data sets that tell where the clock gets its time from are as they were.
pub record Keeps (before after : PtpClock) : Type 0 where
  pub parent : after.parent_ds ≡ before.parent_ds
  pub current : after.current_ds ≡ before.current_ds
  pub properties : after.time_properties_ds ≡ before.time_properties_ds

-- How the local data set compares with the announced one.
abbrev pub local_comparison : MsgHeader → MsgAnnounce → PtpClock → ℤ
local_comparison header announce c =
    let d0 = copy_d0 c.msg_tmp_header c.msg_tmp_announce c in
    data_set_comparison d0.0 d0.1 header announce
      (record c { msg_tmp_header = d0.0; msg_tmp_announce = d0.1 })

-- The decisions of the code, by the comparison of the data sets, each with what it does to them.
pub data Decision (header : MsgHeader) (announce : MsgAnnounce) (opts : RunTimeOpts) (c : PtpClock)
    (after : PtpClock) : PortState → Type 0 where
  obeys :
      opts.slave_only ≡ true
      → Follows header announce after
      → Decision header announce opts c after ptp_slave
  waits :
      opts.slave_only ≡ false
      → c.number_foreign_records ≡ 0
      → c.port_state ≡ ptp_listening
      → Keeps c after
      → Decision header announce opts c after ptp_listening
  wins :
      opts.slave_only ≡ false
      → local_comparison header announce c ≡ negsuc 0
      → Leads after
      → Decision header announce opts c after ptp_master
  loses :
      opts.slave_only ≡ false
      → 128 ≤ c.clock_quality.clock_class
      → local_comparison header announce c ≡ pos 1
      → Follows header announce after
      → Decision header announce opts c after ptp_slave
  stands_by :
      opts.slave_only ≡ false
      → c.clock_quality.clock_class < 128
      → local_comparison header announce c ≡ pos 1
      → Follows header announce after
      → Decision header announce opts c after ptp_passive
  ties :
      opts.slave_only ≡ false
      → local_comparison header announce c ≡ pos 0
      → Keeps c after
      → Decision header announce opts c after ptp_faulty

m1-Leads : (opts : RunTimeOpts) (c : PtpClock) → Leads (m1 opts c)
unfolding m1
m1-Leads opts c = record {
  parent = refl;
  grandmaster = refl;
  quality = refl;
  first = refl;
  second = refl;
  steps = refl;
}

s1-Follows :
    (header : MsgHeader) (announce : MsgAnnounce) (c : PtpClock) (opts : RunTimeOpts)
    → Follows header announce (s1 header announce c opts)
unfolding s1 p1
s1-Follows header announce c opts = ground arith

-- A comparison is -1, 0 or 1.
abbrev IsSign : ℤ → Type 0
IsSign z = (z ≡ negsuc 0) ⊎ ((z ≡ pos 0) ⊎ (z ≡ pos 1))

sign_of-IsSign : (o : Ordering) → IsSign (sign_of o)
sign_of-IsSign Ordering.lt = inl refl
sign_of-IsSign Ordering.eq = inr (inl refl)
sign_of-IsSign Ordering.gt = inr (inr refl)

if-IsSign : (b : Bool) (x y : ℤ) → IsSign x → IsSign y → IsSign (if b then x else y)
if-IsSign true x y p q = p
if-IsSign false x y p q = q

data_set_comparison-IsSign :
    (ha : MsgHeader) (a : MsgAnnounce) (hb : MsgHeader) (b : MsgAnnounce) (c : PtpClock)
    → IsSign (data_set_comparison ha a hb b c)
unfolding data_set_comparison compare_paths compare_grandmasters
data_set_comparison-IsSign ha a hb b c = search (if-IsSign, sign_of-IsSign, inl, inr) depth 12

decide-Decision :
    (header : MsgHeader) (announce : MsgAnnounce) (opts : RunTimeOpts) (c noted : PtpClock) (z : ℤ)
    → opts.slave_only ≡ false
    → z ≡ local_comparison header announce c
    → IsSign z
    → noted.clock_quality ≡ c.clock_quality
    → Keeps c noted
    → Decision header announce opts c
        (decide z header announce opts noted).1
        (decide z header announce opts noted).0
unfolding decide
decide-Decision header announce opts c noted (negsuc zero) so e s q k =
    wins so (sym e) (m1-Leads opts noted)
decide-Decision header announce opts c noted (negsuc (suc n)) so e s q k = absurd (ground arith)
decide-Decision header announce opts c noted (pos zero) so e s q k = ties so (sym e) k
decide-Decision header announce opts c noted (pos (suc zero)) so e s q k =
    elim (Bool-cases (ltb noted.clock_quality.clock_class 128)) [
      | inl low ↦
          rw low (stands_by so (ground (arith, q)) (sym e) (s1-Follows header announce noted opts))
      | inr high ↦
          rw high (loses so (ground (arith, q)) (sym e) (s1-Follows header announce noted opts))
    ]
decide-Decision header announce opts c noted (pos (suc (suc n))) so e s q k = absurd (ground arith)

listening_code : (s : PortState) → (state_code s == 4) ≡ true → s ≡ ptp_listening
listening_code s e = ground arith

-- Every state decision is one of these, by the comparison of the data sets: a master is its own
-- grandmaster, a slave or passive port follows the announced master, and otherwise they are kept.
pub state_decision-Decision :
    (header : MsgHeader) (announce : MsgAnnounce) (opts : RunTimeOpts) (c : PtpClock)
    → Decision header announce opts c
        (state_decision header announce opts c).1
        (state_decision header announce opts c).0
unfolding state_decision
state_decision-Decision header announce opts c =
    if_rule Right opts.slave_only (λ so. obeys so (s1-Follows header announce c opts))
      λ so.
        if_rule Right ((c.number_foreign_records == 0) && (state_code c.port_state == 4))
          (λ e.
            waits so (ground arith) (listening_code c.port_state (ground arith))
              (record { parent = refl; current = refl; properties = refl }))
          (λ e.
            decide-Decision header announce opts c _ _ so refl
              (data_set_comparison-IsSign _ _ _ _ _) refl
              (record { parent = refl; current = refl; properties = refl }))
  where
    Right : PortState × PtpClock → Type 0
    Right r = Decision header announce opts c r.1 r.0
