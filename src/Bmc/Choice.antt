-- ===== src/Bmc/Choice.antt =====
-- `bmcStateDecision` by the lexicographic order of what masters are ranked by.
use xge_ptpv.Common.{
  ◌<◌, ◌≡◌, ◌≢◌, refl, sym, ◌∙◌, ap, ◌⊎◌, inl, inr, Ordering, false, length, memcmp, memcmp-eq, ltb,
  if◌then◌else◌, arith,
}
use xge_ptpv.Common.Int.{pos, negsuc}
use xge_ptpv.Datatypes.{
  MsgHeader, MsgAnnounce, PtpClock, RunTimeOpts, PortState, ptp_master, ptp_slave, ptp_passive,
}
use xge_ptpv.Bmc.{copy_d0, sign_of, state_decision}
use xge_ptpv.Bmc.Compare.{rank, data_set_comparison-rank}
use xge_ptpv.Bmc.Decide.{
  Decision, Leads, Follows, local_comparison, state_decision-Decision, obeys, waits, wins, loses,
  stands_by, ties,
}
use xge_ptpv.Bmc.Election.{own_rank, tail_from}

-- A clock that loses stands by if its class is below 128.
abbrev pub losing_state : PtpClock → PortState
losing_state c = if ltb c.clock_quality.clock_class 128 then ptp_passive else ptp_slave

-- The state and the data sets that the better of the two ranks calls for.
abbrev pub ByRank : MsgHeader → MsgAnnounce → PtpClock → PortState × PtpClock → Type 0
ByRank header announce c r =
    ((memcmp (own_rank c) (rank announce) ≡ Ordering.lt) × (r.0 ≡ ptp_master) × Leads r.1)
    ⊎ ((memcmp (own_rank c) (rank announce) ≡ Ordering.gt)
        × (r.0 ≡ losing_state c)
        × Follows header announce r.1)

sign-lt : (o : Ordering) → sign_of o ≡ negsuc 0 → o ≡ Ordering.lt
sign-lt Ordering.lt e = refl
sign-lt Ordering.eq e = grind arith
sign-lt Ordering.gt e = grind arith

sign-gt : (o : Ordering) → sign_of o ≡ pos 1 → o ≡ Ordering.gt
sign-gt Ordering.lt e = grind arith
sign-gt Ordering.eq e = grind arith
sign-gt Ordering.gt e = refl

sign-eq : (o : Ordering) → sign_of o ≡ pos 0 → o ≡ Ordering.eq
sign-eq Ordering.lt e = grind arith
sign-eq Ordering.eq e = refl
sign-eq Ordering.gt e = grind arith

module _ (header : MsgHeader) (announce : MsgAnnounce) (opts : RunTimeOpts) (c : PtpClock)
    (so : opts.slave_only ≡ false) (has_record : 0 < c.number_foreign_records)
    (l : length c.clock_identity ≡ length announce.grandmaster_identity)
    (ne : c.clock_identity ≢ announce.grandmaster_identity) where
  comparison-rank :
      local_comparison header announce c ≡ sign_of (memcmp (own_rank c) (rank announce))
  unfolding copy_d0
  comparison-rank = data_set_comparison-rank _ header _ announce _ l ne

  apart : memcmp (own_rank c) (rank announce) ≢ Ordering.eq
  apart e =
      ne (ap (λ r. tail_from 5 r) (memcmp-eq (own_rank c) (rank announce) (omega (arith, l)) e))

  Decision-ByRank :
      (after : PtpClock) (s : PortState)
      → Decision header announce opts c after s
      → ByRank header announce c (s, after)
  Decision-ByRank after _ (obeys h f) = grind arith
  Decision-ByRank after _ (waits h n s k) = absurd (omega arith)
  Decision-ByRank after _ (wins h e f) = inl (sign-lt _ (sym comparison-rank ∙ e), refl, f)
  Decision-ByRank after _ (loses h k e f) =
      inr (sign-gt _ (sym comparison-rank ∙ e), ground arith, f)
  Decision-ByRank after _ (stands_by h k e f) =
      inr (sign-gt _ (sym comparison-rank ∙ e), ground arith, f)
  Decision-ByRank after _ (ties h e k) = absurd (apart (sign-eq _ (sym comparison-rank ∙ e)))

  -- A clock that is not for slaves only, has a foreign record and an identity other than the announced
  -- grandmaster's, of the same length, decides by the lexicographic order of the ranks (priority 1,
  -- class, accuracy, variance, priority 2, identity): if its own is the lower, it becomes master and
  -- its data sets name itself; if not, it becomes slave, or passive if its class is below 128, and its
  -- data sets name the announced master.
  pub state_decision-ByRank : ByRank header announce c (state_decision header announce opts c)
  state_decision-ByRank = Decision-ByRank _ _ (state_decision-Decision header announce opts c)
