-- ===== src/Arith/Compare.antt =====
-- `gtTime` and `is_Time_close` as comparisons of numbers.
use xge_ptpv.Common.{ℕ, ◌*◌, ◌^◌, ◌≤◌, ◌<◌, ◌≡◌, refl, ◌↔◌, ◌∙◌, true, false, Bool, not, arith}
use xge_ptpv.Common.Int.{ℤ, pos, negsuc, pos_part, neg_part, ◌-ℤ◌, ◌≤ℤ◌, magnitude, int_laws}
use xge_ptpv.Datatypes.{TimeInternal}
use xge_ptpv.Arith.{
  billion, time, sub_time, gt_time, is_time_internal_negative, abs_time, nano_to_time,
  is_time_close,
}
use xge_ptpv.Arith.Total.{total, total_parts, InRange, IsNormal}
use xge_ptpv.Arith.Sum.{sub_time-total}
use xge_ptpv.Arith.Normalize.{HasRoom, normalize_time-total, normalize_time-IsNormal}

negative_lem :
    (s n : ℤ)
    → IsNormal (time s n)
    → (is_time_internal_negative (time s n) ≡ false) ↔ (pos 0 ≤ℤ total (time s n))
unfolding is_time_internal_negative
negative_lem (pos s) (pos n) h = (λ _. omega (int_laws, total_parts), λ _. refl)
negative_lem (pos s) (negsuc n) h =
    (λ e. cc, λ k. absurd (omega (int_laws, total_parts (time (pos s) (negsuc n)))))
negative_lem (negsuc s) n h =
    (λ e. cc, λ k. absurd (omega (int_laws, total_parts (time (negsuc s) n))))

not_iff : (b : Bool) → (not b ≡ true) ↔ (b ≡ false)
not_iff true = (λ e. cc, λ e. cc)
not_iff false = (λ e. refl, λ e. refl)

not-not_iff : (b : Bool) → (not b ≡ true) ↔ ¬ (b ≡ true)
not-not_iff true = (λ e. cc, λ e. absurd (e refl))
not-not_iff false = (λ e f. cc, λ e. refl)

sign-difference : (d a b : ℤ) → d ≡ a -ℤ b → (pos 0 ≤ℤ d) ↔ (b ≤ℤ a)
sign-difference d a b e = rw e (λ h. omega int_laws, λ h. omega int_laws)

-- Of two times in range, `gtTime` holds just when the first is at least the second: it is `>=`.
pub gt_time_iff :
    (x y : TimeInternal) → InRange x → InRange y → (gt_time x y ≡ true) ↔ (total y ≤ℤ total x)
unfolding gt_time
gt_time_iff x y hx hy = (λ e. d.0 (c.0 ((not_iff _).0 e)), λ h. (not_iff _).1 (c.1 (d.1 h)))
  where
    c : (is_time_internal_negative (sub_time x y) ≡ false) ↔ (pos 0 ≤ℤ total (sub_time x y))
    c = negative_lem (sub_time x y).seconds (sub_time x y).nanoseconds (sub_time-total x y hx hy).1

    d : (pos 0 ≤ℤ total (sub_time x y)) ↔ (total y ≤ℤ total x)
    d = sign-difference _ _ _ (sub_time-total x y hx hy).0

-- A time since the epoch: 48 bits of seconds and less than a second of nanoseconds.
pub record IsEpochTime (t : TimeInternal) : Type 0 where
  pub seconds_pos : pos_part t.seconds < 2 ^ 48
  pub seconds_neg : neg_part t.seconds ≡ 0
  pub nanoseconds_pos : pos_part t.nanoseconds < billion
  pub nanoseconds_neg : neg_part t.nanoseconds ≡ 0

pub IsEpochTime-InRange : (t : TimeInternal) → IsEpochTime t → InRange t
IsEpochTime-InRange t h = omega arith

module _ (x y : TimeInternal) (hx : IsEpochTime x) (hy : IsEpochTime y) where
  difference : (total (sub_time x y) ≡ total x -ℤ total y) × IsNormal (sub_time x y)
  difference = sub_time-total x y (IsEpochTime-InRange x hx) (IsEpochTime-InRange y hy)

  difference_bounds : magnitude (total (sub_time x y)) < 2 ^ 49 * billion
  difference_bounds = rw difference.0 (omega (int_laws, total_parts))

abs_time-total :
    (d : TimeInternal)
    → IsNormal d
    → magnitude (total d) < 2 ^ 49 * billion
    → (total (abs_time d) ≡ pos (magnitude (total d))) × InRange (abs_time d)
unfolding abs_time
abs_time-total d n h = (omega (int_laws, total_parts), omega (int_laws, total_parts))

normal-InRange : (t : TimeInternal) → IsNormal t → magnitude (total t) < 2 ^ 61 → InRange t
normal-InRange t n h = omega (int_laws, total_parts)

nano_to_time-total :
    (n : ℕ) → n < 2 ^ 30 → (total (nano_to_time (pos n)) ≡ pos n) × InRange (nano_to_time (pos n))
unfolding nano_to_time
nano_to_time-total n h = (e, normal-InRange _ (normalize_time-IsNormal _ room) (rw e (omega arith)))
  where
    room : HasRoom (time (pos 0) (pos n))
    room = omega arith

    e : total (nano_to_time (pos n)) ≡ pos n
    e = normalize_time-total _ room ∙ omega (int_laws, total_parts)

apart : {m n : ℕ} → ¬ (n ≤ m) → m < n
apart h = omega arith

lt_contra : {m n : ℕ} → m < n → ¬ (n ≤ m)
lt_contra h k = omega arith

module _ (x y : TimeInternal) (n : ℕ) (hx : IsEpochTime x) (hy : IsEpochTime y)
    (hn : n < 2 ^ 30) where
  distance_and_limit :
      (gt_time (abs_time (sub_time x y)) (nano_to_time (pos n)) ≡ true)
      ↔ (n ≤ magnitude (total x -ℤ total y))
  distance_and_limit =
      let distance = abs_time-total _ (difference x y hx hy).1 (difference_bounds x y hx hy) in
      let limit = nano_to_time-total n hn in
      let at_most = gt_time_iff _ _ distance.1 limit.1 in
      let both = rw (distance.0, limit.0, (difference x y hx hy).0) at at_most in
      (λ e. omega (arith, both.0 e), λ h. both.1 (omega arith))

  -- `is_Time_close` holds of two times since the epoch just when they are less than `n` nanoseconds
  -- apart, for `n` below 2^30.
  pub is_time_close_iff : (is_time_close x y (pos n) ≡ true) ↔ (magnitude (total x -ℤ total y) < n)
  unfolding is_time_close
  is_time_close_iff = (
    λ e. apart (λ h. (not-not_iff _).0 e (distance_and_limit.1 h)),
    λ h. (not-not_iff _).1 (λ e. lt_contra h (distance_and_limit.0 e)),
  )
