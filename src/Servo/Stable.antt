-- ===== src/Servo/Stable.antt =====
-- The bounds of the one-way delay filter of `updateDelay` and `updatePeerDelay`.
use xge_ptpv.Common.{ℕ, zero, suc, ◌+◌, ◌-◌, ◌*◌, ◌/◌, ◌^◌, ◌≤◌, ◌<◌, ◌≡◌, if_rule, ◌==◌, arith}
use xge_ptpv.Common.Int.{
  ℤ, pos, negsuc, pos_part, neg_part, ◌+ℤ◌, ◌-ℤ◌, ◌*ℤ◌, ◌≤ℤ◌, quot, magnitude, int32, int_laws,
  +ℤ_parts, int32_parts,
}
use native.Mathlib.Nat.{div-mul-le_self, mul-le-mul_left, mul-le-mul_right, le_of_mul-le-mul_right}
use xge_ptpv.Datatypes.{OneWayDelayFilter}
use xge_ptpv.Servo.Filter.{filter_shift, next_s_exp, filter_output, filter_step}

pow_pos : (n : ℕ) → 0 < 2 ^ n
pow_pos zero = omega arith
pow_pos (suc n) = omega (arith, pow_pos n)

pow_split : (a b c : ℕ) → a + b ≡ c → 2 ^ a * 2 ^ b ≡ 2 ^ c
pow_split zero b c h = let e : b ≡ c = omega arith in rw e (omega arith)
pow_split (suc a) b zero h = absurd (omega arith)
pow_split (suc a) b (suc c) h = grind (arith, pow_split a b c (omega arith))

pow_le : (a b : ℕ) → a ≤ b → 2 ^ a ≤ 2 ^ b
pow_le zero b h = pow_pos b
pow_le (suc a) zero h = absurd (omega arith)
pow_le (suc a) (suc b) h = omega (arith, pow_le a b (omega arith))

-- A number that a shift by `31 - s` clears.
shift_clears : (s m : ℕ) → s ≤ 31 → m / 2 ^ (31 - s) ≡ 0 → m * 2 ^ s < 2 ^ 31
shift_clears s m h e =
    let d : 0 < 2 ^ (31 - s) = pow_pos (31 - s) in
    let below : m < 2 ^ (31 - s) = grind (arith) in
    let split : 2 ^ (31 - s) * 2 ^ s ≡ 2 ^ 31 = pow_split (31 - s) s 31 (omega arith) in
    grind (arith, pow_pos s)

pub filter_shift_lem :
    (s : ℕ) (y : ℤ)
    → s ≤ 31
    → magnitude y < 2 ^ 31
    → (filter_shift s y ≤ s) × (magnitude y * 2 ^ filter_shift s y < 2 ^ 31)
unfolding filter_shift
filter_shift_lem zero y h b = (omega arith, omega arith)
filter_shift_lem (suc s) y h b =
    let r = filter_shift_lem s y (omega arith) b in
    if_rule (λ n. (n ≤ suc s) × (magnitude y * 2 ^ n < 2 ^ 31))
      (magnitude y / 2 ^ (31 - suc s) == 0)
      (λ p. (omega arith, shift_clears (suc s) (magnitude y) h (ground arith)))
      (λ p. (omega (arith, r.0), r.1))

pub next_s_exp_lem :
    (e : ℤ) (s : ℕ)
    → s ≤ 30
    → (neg_part (next_s_exp e s) ≡ 0)
      × (1 ≤ pos_part (next_s_exp e s))
      × (pos_part (next_s_exp e s) ≤ 2 ^ s)
unfolding next_s_exp
next_s_exp_lem e s h =
    ground (arith, +ℤ_parts e (pos 1), int32_parts (e +ℤ pos 1), pow_pos s, pow_le s 30 h)

-- A weighted mean of two numbers up to `b` is at most `b`, with both quotients rounded down.
weighted : (k y m b : ℕ) → y ≤ b → m ≤ b → (k * y) / suc k + m / suc k ≤ b
weighted k y m b h l =
    let p : (k * y) / suc k * suc k ≤ k * y = div-mul-le_self (k * y) (suc k) in
    let q : m / suc k * suc k ≤ m = div-mul-le_self m (suc k) in
    let up : k * y ≤ k * b = mul-le-mul_left k h in
    let all : ((k * y) / suc k + m / suc k) * suc k ≤ b * suc k = grind (arith, p, q, up) in
    le_of_mul-le-mul_right {k = suc k} all (omega arith)

magnitude_mul :
    (k : ℕ) (y : ℤ) → k * magnitude y < 2 ^ 31 → magnitude (int32 (pos k *ℤ y)) ≡ k * magnitude y
unfolding ◌*ℤ◌ int32
magnitude_mul k (pos n) h = ground arith
magnitude_mul k (negsuc n) h = ground arith

magnitude-quot : (a : ℤ) (n : ℕ) → magnitude (quot a (suc n)) ≡ magnitude a / suc n
unfolding quot
magnitude-quot (pos a) n = ground arith
magnitude-quot (negsuc a) n = ground arith

le_trans : {a b c : ℕ} → a ≤ b → b ≤ c → a ≤ c
le_trans h l = omega arith

-- The sum of two numbers of which not more than an int is asked.
magnitude_sum :
    (a b : ℤ) (m : ℕ)
    → magnitude a + magnitude b ≤ m
    → m < 2 ^ 31
    → magnitude (int32 (a +ℤ b)) ≤ magnitude a + magnitude b
magnitude_sum a b m h l = omega int_laws

halves :
    (ns prev : ℤ) (b : ℕ)
    → magnitude ns ≤ b
    → magnitude prev ≤ b
    → b < 2 ^ 31
    → magnitude (int32 (quot ns 2 +ℤ quot prev 2)) ≤ b
halves ns prev b h l m = omega int_laws

one_less :
    (e : ℤ) (k : ℕ) → neg_part e ≡ 0 → pos_part e ≡ suc k → k < 2 ^ 31 → int32 (e -ℤ pos 1) ≡ pos k
one_less e k z p h = omega int_laws

filter_output_bounds :
    (e y ns prev : ℤ) (k b : ℕ)
    → neg_part e ≡ 0
    → pos_part e ≡ suc k
    → k * magnitude y < 2 ^ 31
    → k < 2 ^ 31
    → magnitude y ≤ b
    → magnitude ns ≤ b
    → magnitude prev ≤ b
    → b < 2 ^ 31
    → magnitude (filter_output e y ns prev) ≤ b
unfolding filter_output
filter_output_bounds e y ns prev k b z p small hk hy hn hp hb =
    let less = one_less e k z p hk in
    let product = magnitude_mul k y small in
    let first = int32 (pos k *ℤ y) in
    let second = int32 (quot ns 2 +ℤ quot prev 2) in
    let w : magnitude (quot first (suc k)) + magnitude (quot second (suc k)) ≤ b =
      rw (magnitude-quot first k, magnitude-quot second k, product)
        (weighted k (magnitude y) (magnitude second) b hy (halves ns prev b hn hp hb)) in
    rw (less, p) (le_trans (magnitude_sum (quot first (suc k)) (quot second (suc k)) b w hb) w)

le_of_pred : {n m : ℕ} → n ≤ m → n - 1 ≤ m
le_of_pred h = omega arith

-- The output and the last delay are within `b`.
pub record IsWithin (b : ℕ) (owd : OneWayDelayFilter) : Type 0 where
  pub output : magnitude owd.y ≤ b
  pub last : magnitude owd.nsec_prev ≤ b

-- For a shift of at most 30, a filter whose output and last delay are within a bound, and that takes
-- a delay within the bound, has its output and last delay within it again. Its cutoff is
-- then between 1 and 2^s.
pub filter_step-IsWithin :
    (s : ℕ) (owd : OneWayDelayFilter) (ns : ℤ) (b : ℕ)
    → s ≤ 30
    → b < 2 ^ 31
    → magnitude ns ≤ b
    → IsWithin b owd
    → IsWithin b (filter_step s owd ns)
      × (pos 1 ≤ℤ (filter_step s owd ns).s_exp)
      × ((filter_step s owd ns).s_exp ≤ℤ pos (2 ^ s))
unfolding filter_step
filter_step-IsWithin s owd ns b hs hb hn h =
    let f = filter_shift_lem s owd.y (omega arith) (omega (arith, h)) in
    let n = next_s_exp_lem owd.s_exp (filter_shift s owd.y) (omega (arith, f.0)) in
    let k = pos_part (next_s_exp owd.s_exp (filter_shift s owd.y)) - 1 in
    let top : 2 ^ filter_shift s owd.y ≤ 2 ^ 30 =
      pow_le (filter_shift s owd.y) 30 (omega (arith, f.0)) in
    let small : k * magnitude owd.y < 2 ^ 31 =
      grind (arith, f.1, mul-le-mul_right (magnitude owd.y) (le_of_pred n.2)) in
    (
      record {
        output =
            filter_output_bounds (next_s_exp owd.s_exp (filter_shift s owd.y)) owd.y ns
              owd.nsec_prev k b n.0 (omega (arith, n.1)) small (omega (arith, n.2)) h.output hn
              h.last hb;
        last = hn;
      },
      omega (arith, n.0, n.1),
      omega (arith, n.0, n.2, pow_le (filter_shift s owd.y) s f.0),
    )
