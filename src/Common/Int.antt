-- ===== src/Common/Int.antt =====
-- Signed integers over the native numbers, under the library's names, with C's truncating division
-- and the wrap-around of `int32_t` and `int64_t`.
use Prim.Native.Nat.{ℕ, suc, ◌+◌, ◌-◌, ◌*◌, ◌/◌, ◌%◌, ◌^◌, ◌≤◌, ◌<◌}
use mathlib.Core.Path.{◌≡◌, refl, ap}
use mathlib.Core.Logic.{◌⊎◌, inl, inr}
use mathlib.Core.Bool.{Bool}
use native.Mathlib.Omega.{arith}
use xge_ptpv.Common.Tests.{ltb, leb, if◌then◌else◌}

-- `negsuc n` is -(n + 1).
pub data ℤ : Type 0 where
  pos : ℕ → ℤ
  negsuc : ℕ → ℤ

abbrev pub pos_part : ℤ → ℕ
pos_part (pos n) = n
pos_part (negsuc n) = 0

abbrev pub neg_part : ℤ → ℕ
neg_part (pos n) = 0
neg_part (negsuc n) = suc n

-- a - b, as an integer.
abbrev pub sub_ℕ : ℕ → ℕ → ℤ
sub_ℕ a b = if leb b a then pos (a - b) else negsuc (b - a - 1)

infixl 65 ◌+ℤ◌ ◌-ℤ◌
infixl 70 ◌*ℤ◌
infix 50 ◌≤ℤ◌
unfoldable pub ◌+ℤ◌ : ℤ → ℤ → ℤ
a +ℤ b = sub_ℕ (pos_part a + pos_part b) (neg_part a + neg_part b)

unfoldable pub ◌-ℤ◌ : ℤ → ℤ → ℤ
a -ℤ b = sub_ℕ (pos_part a + neg_part b) (neg_part a + pos_part b)

unfoldable pub ◌*ℤ◌ : ℤ → ℤ → ℤ
a *ℤ b =
    sub_ℕ (pos_part a * pos_part b + neg_part a * neg_part b)
      (pos_part a * neg_part b + neg_part a * pos_part b)

-- `-a`
unfoldable pub neg : ℤ → ℤ
neg a = sub_ℕ (neg_part a) (pos_part a)

-- `a / n` and `a % n` of C, for a positive `n`: both truncate towards zero.
unfoldable pub quot : ℤ → ℕ → ℤ
quot a n = sub_ℕ (pos_part a / n) (neg_part a / n)

unfoldable pub rem : ℤ → ℕ → ℤ
rem a n = sub_ℕ (pos_part a % n) (neg_part a % n)

-- `abs(a)`, as a number.
abbrev pub magnitude : ℤ → ℕ
magnitude a = pos_part a + neg_part a

abbrev pub ◌≤ℤ◌ : ℤ → ℤ → Type 0
a ≤ℤ b = pos_part a + neg_part b ≤ pos_part b + neg_part a

abbrev pub ltb_ℤ : ℤ → ℤ → Bool
ltb_ℤ a b = ltb (pos_part a + neg_part b) (pos_part b + neg_part a)

-- The number that the low 32 (64) bits of `z` stand for in two's complement.
abbrev signed : ℕ → ℕ → ℤ
signed half w = if ltb w half then pos w else negsuc (half + half - w - 1)

abbrev pub residue : ℕ → ℤ → ℕ
residue m (pos n) = n % m
residue m (negsuc n) = m - 1 - n % m

unfoldable pub int32 : ℤ → ℤ
int32 z = signed (2 ^ 31) (residue (2 ^ 32) z)

unfoldable pub int64 : ℤ → ℤ
int64 z = signed (2 ^ 63) (residue (2 ^ 64) z)

unfoldable pub int16 : ℤ → ℤ
int16 z = signed (2 ^ 15) (residue (2 ^ 16) z)

unfoldable pub int8 : ℤ → ℤ
int8 z = signed (2 ^ 7) (residue (2 ^ 8) z)

abbrev pub Fits16 : ℤ → Type 0
Fits16 z = (pos_part z < 2 ^ 15) × (neg_part z ≤ 2 ^ 15)

abbrev pub Fits8 : ℤ → Type 0
Fits8 z = (pos_part z < 2 ^ 7) × (neg_part z ≤ 2 ^ 7)

abbrev pub Fits32 : ℤ → Type 0
Fits32 z = (pos_part z < 2 ^ 31) × (neg_part z ≤ 2 ^ 31)

abbrev pub Fits64 : ℤ → Type 0
Fits64 z = (pos_part z < 2 ^ 63) × (neg_part z ≤ 2 ^ 63)

-- In range, nothing wraps.
pub int32_fits : (z : ℤ) → Fits32 z → int32 z ≡ z
unfolding int32
int32_fits (pos n) h = ground arith
int32_fits (negsuc n) h = ground arith

pub int64_fits : (z : ℤ) → Fits64 z → int64 z ≡ z
unfolding int64
int64_fits (pos n) h = ground arith
int64_fits (negsuc n) h = ground arith

pub int32_parts :
    (z : ℤ) → Fits32 z → (pos_part (int32 z) ≡ pos_part z) × (neg_part (int32 z) ≡ neg_part z)
int32_parts z h = rw (int32_fits z h) (refl, refl)

pub int64_parts :
    (z : ℤ) → Fits64 z → (pos_part (int64 z) ≡ pos_part z) × (neg_part (int64 z) ≡ neg_part z)
int64_parts z h = rw (int64_fits z h) (refl, refl)

pub int32-Fits32 : (z : ℤ) → Fits32 (int32 z)
unfolding int32
int32-Fits32 (pos n) = ground arith
int32-Fits32 (negsuc n) = ground arith

-- A signed number goes through its bit pattern unchanged.
pub int32-residue : (z : ℤ) → Fits32 z → int32 (pos (residue (2 ^ 32) z)) ≡ z
unfolding int32
int32-residue (pos n) h = ground arith
int32-residue (negsuc n) h = ground arith

pub int16-residue : (z : ℤ) → Fits16 z → int16 (pos (residue (2 ^ 16) z)) ≡ z
unfolding int16
int16-residue (pos n) h = ground arith
int16-residue (negsuc n) h = ground arith

pub int8-residue : (z : ℤ) → Fits8 z → int8 (pos (residue (2 ^ 8) z)) ≡ z
unfolding int8
int8-residue (pos n) h = ground arith
int8-residue (negsuc n) h = ground arith

pub residue-lt : (m : ℕ) (z : ℤ) → 0 < m → residue m z < m
residue-lt m (pos n) h = omega arith
residue-lt m (negsuc n) h = omega arith

-- One lemma for each operation lets `omega` work with the operations shut.
pub +ℤ_parts :
    (a b : ℤ)
    → pos_part (a +ℤ b) + neg_part a + neg_part b ≡ neg_part (a +ℤ b) + pos_part a + pos_part b
unfolding ◌+ℤ◌
+ℤ_parts a b = ground arith

pub -ℤ_parts :
    (a b : ℤ)
    → pos_part (a -ℤ b) + neg_part a + pos_part b ≡ neg_part (a -ℤ b) + pos_part a + neg_part b
unfolding ◌-ℤ◌
-ℤ_parts a b = ground arith

-- A number has one part only.
pub parts : (a : ℤ) → (pos_part a ≡ 0) ⊎ (neg_part a ≡ 0)
parts (pos n) = inr refl
parts (negsuc n) = inl refl

pub neg_parts : (a : ℤ) → (pos_part (neg a) ≡ neg_part a) × (neg_part (neg a) ≡ pos_part a)
unfolding neg
neg_parts (pos n) = ground arith
neg_parts (negsuc n) = ground arith

pub quot_parts :
    (a : ℤ) (n : ℕ)
    → (pos_part (quot a n) ≡ pos_part a / n) × (neg_part (quot a n) ≡ neg_part a / n)
unfolding quot
quot_parts (pos k) n = ground arith
quot_parts (negsuc k) n = ground arith

pub rem_parts :
    (a : ℤ) (n : ℕ) → (pos_part (rem a n) ≡ pos_part a % n) × (neg_part (rem a n) ≡ neg_part a % n)
unfolding rem
rem_parts (pos k) n = ground arith
rem_parts (negsuc k) n = ground arith

pub *ℤ_parts :
    (a : ℤ) (n : ℕ)
    → (pos_part (a *ℤ pos n) ≡ pos_part a * n) × (neg_part (a *ℤ pos n) ≡ neg_part a * n)
unfolding ◌*ℤ◌
*ℤ_parts (pos k) n = ground arith
*ℤ_parts (negsuc k) n = ground arith

pub eq_of_parts : (a b : ℤ) → pos_part a + neg_part b ≡ pos_part b + neg_part a → a ≡ b
eq_of_parts a b h = ground arith

-- Equal numbers have equal parts: this is how `omega` reads an equation of integers.
pub parts_of : {a b : ℤ} → a ≡ b → (pos_part a ≡ pos_part b) × (neg_part a ≡ neg_part b)
parts_of e = (ap pos_part e, ap neg_part e)

-- What `omega` needs to know of the operations, and of the wraps where nothing wraps.
pub ruleset int_laws = (
  arith, +ℤ_parts, -ℤ_parts, neg_parts, *ℤ_parts, quot_parts, rem_parts, int32_parts, int64_parts,
  parts, eq_of_parts,
)
