-- ===== src/Bmc/Election.antt =====
-- `bmcStateDecision` of two clocks that hear each other.
use xge_ptpv.Common.{
  ℕ, zero, suc, ◌≤◌, ◌<◌, ◌≡◌, ◌≢◌, refl, sym, ◌∙◌, ap, ◌⊎◌, inl, inr, Ordering, false, List, [],
  ◌∷◌, length, memcmp, memcmp_flip, memcmp-eq, flip_order, arith,
}
use xge_ptpv.Datatypes.{
  MsgHeader, MsgAnnounce, PtpClock, RunTimeOpts, PortState, ptp_master, ptp_slave, ptp_faulty,
}
use xge_ptpv.Bmc.{copy_d0, sign_of, decide, state_decision}
use xge_ptpv.Bmc.Compare.{rank, data_set_comparison-rank}
use xge_ptpv.Bmc.Decide.{local_comparison}

-- The announce tells the clock's own data set.
pub record Describes (c : PtpClock) (a : MsgAnnounce) : Type 0 where
  pub identity : a.grandmaster_identity ≡ c.clock_identity
  pub quality : a.grandmaster_clock_quality ≡ c.clock_quality
  pub first : a.grandmaster_priority1 ≡ c.priority1
  pub second : a.grandmaster_priority2 ≡ c.priority2

-- A port that may become master: not for slaves only, of a class from 128 on, and not listening to
-- an empty table.
pub record IsCandidate (opts : RunTimeOpts) (c : PtpClock) : Type 0 where
  pub not_slave_only : opts.slave_only ≡ false
  pub class_from_128 : 128 ≤ c.clock_quality.clock_class
  pub has_record : 0 < c.number_foreign_records

abbrev pub tail_from : ℕ → List ℕ → List ℕ
tail_from zero xs = xs
tail_from (suc n) [] = []
tail_from (suc n) (x ∷ xs) = tail_from n xs

-- The rank of a clock's own data set.
abbrev pub own_rank : PtpClock → List ℕ
own_rank c =
    c.priority1 ∷ c.clock_quality.clock_class ∷ c.clock_quality.clock_accuracy
    ∷ c.clock_quality.offset_scaled_log_variance ∷ c.priority2 ∷ c.clock_identity

rank-Describes : (c : PtpClock) (a : MsgAnnounce) → Describes c a → rank a ≡ own_rank c
rank-Describes c a d = rw (d.identity, d.quality, d.first, d.second)

-- The state that a comparison leads a candidate to.
abbrev outcome : Ordering → PortState
outcome Ordering.lt = ptp_master
outcome Ordering.eq = ptp_faulty
outcome Ordering.gt = ptp_slave

module _ (opts : RunTimeOpts) (c : PtpClock) (k : IsCandidate opts c) where
  candidate_decides :
      (header : MsgHeader) (announce : MsgAnnounce) (o : Ordering)
      → local_comparison header announce c ≡ sign_of o
      → (state_decision header announce opts c).0 ≡ outcome o
  unfolding state_decision decide
  candidate_decides header announce Ordering.lt e = ground (arith, k.not_slave_only, k.has_record)
  candidate_decides header announce Ordering.eq e = ground (arith, k.not_slave_only, k.has_record)
  candidate_decides header announce Ordering.gt e =
      ground (arith, k.not_slave_only, k.has_record, k.class_from_128)

  local_comparison-rank :
      (other : PtpClock) (header : MsgHeader) (announce : MsgAnnounce)
      → Describes other announce
      → length c.clock_identity ≡ length other.clock_identity
      → c.clock_identity ≢ other.clock_identity
      → local_comparison header announce c ≡ sign_of (memcmp (own_rank c) (own_rank other))
  unfolding copy_d0
  local_comparison-rank other header announce d l ne =
      data_set_comparison-rank _ header _ announce _ (rw d.identity l) (rw d.identity ne)
      ∙ ap (λ r. sign_of (memcmp (own_rank c) r)) (rank-Describes other announce d)

-- Two candidates hear announces that describe one another.
module _ (opts_a opts_b : RunTimeOpts) (a b : PtpClock) (header_a header_b : MsgHeader)
    (announce_a announce_b : MsgAnnounce) (ka : IsCandidate opts_a a) (kb : IsCandidate opts_b b)
    (da : Describes a announce_a) (db : Describes b announce_b)
    (l : length a.clock_identity ≡ length b.clock_identity)
    (ne : a.clock_identity ≢ b.clock_identity) where
  order : Ordering
  order = memcmp (own_rank a) (own_rank b)

  order_apart : order ≢ Ordering.eq
  unfolding order
  order_apart e =
      ne (ap (λ r. tail_from 5 r) (memcmp-eq (own_rank a) (own_rank b) (omega (arith, l)) e))

  a_decides : (state_decision header_b announce_b opts_a a).0 ≡ outcome order
  unfolding order
  a_decides =
      candidate_decides opts_a a ka header_b announce_b _
        (local_comparison-rank opts_a a ka b header_b announce_b db l ne)

  b_decides : (state_decision header_a announce_a opts_b b).0 ≡ outcome (flip_order order)
  unfolding order
  b_decides = candidate_decides opts_b b kb header_a announce_a _ (
      local_comparison-rank opts_b b kb a header_a announce_a da (sym l) (λ e. ne (sym e))
      ∙ ap sign_of (memcmp_flip (own_rank a) (own_rank b) (omega (arith, l))))

  -- Two candidates with different identities of one length that hear announces of each other's data
  -- sets agree: one becomes master and the other slave.
  pub election_agrees :
      (((state_decision header_b announce_b opts_a a).0 ≡ ptp_master)
        × ((state_decision header_a announce_a opts_b b).0 ≡ ptp_slave))
      ⊎ (((state_decision header_b announce_b opts_a a).0 ≡ ptp_slave)
          × ((state_decision header_a announce_a opts_b b).0 ≡ ptp_master))
  election_agrees = agree order order_apart a_decides b_decides
    where
      agree :
          {s t : PortState} (o : Ordering)
          → o ≢ Ordering.eq
          → s ≡ outcome o
          → t ≡ outcome (flip_order o)
          → ((s ≡ ptp_master) × (t ≡ ptp_slave)) ⊎ ((s ≡ ptp_slave) × (t ≡ ptp_master))
      agree Ordering.lt apart p q = inl (p, q)
      agree Ordering.eq apart p q = absurd (apart refl)
      agree Ordering.gt apart p q = inr (p, q)
