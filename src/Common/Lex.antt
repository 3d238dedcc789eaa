-- ===== src/Common/Lex.antt =====
-- Lexicographic comparison of byte strings: `memcmp` on two buffers of one length.
use Prim.Native.Nat.{ℕ, compare, Ordering}
use mathlib.Core.Path.{◌≡◌, refl}
use mathlib.Core.Bool.{Bool, true, false}
use mathlib.Core.List.{List, [], ◌∷◌}
use native.Mathlib.Omega.{arith}
use xge_ptpv.Common.Lists.{length}

unfoldable pub memcmp : List ℕ → List ℕ → Ordering
memcmp [] ys = Ordering.eq
memcmp (x ∷ xs) [] = Ordering.eq
memcmp (x ∷ xs) (y ∷ ys) = elim (compare x y) [
  | Ordering.lt ↦ Ordering.lt
  | Ordering.gt ↦ Ordering.gt
  | _ ↦ memcmp xs ys
]

-- `!memcmp(a, b, n)`
abbrev pub is_eq : Ordering → Bool
is_eq Ordering.eq = true
is_eq _ = false

abbrev pub flip_order : Ordering → Ordering
flip_order Ordering.lt = Ordering.gt
flip_order Ordering.eq = Ordering.eq
flip_order Ordering.gt = Ordering.lt

pub memcmp_refl : (xs : List ℕ) → memcmp xs xs ≡ Ordering.eq
unfolding memcmp
memcmp_refl [] = refl
memcmp_refl (x ∷ xs) = ground (arith, memcmp_refl xs)

pub memcmp_flip :
    (xs ys : List ℕ) → length xs ≡ length ys → memcmp ys xs ≡ flip_order (memcmp xs ys)
unfolding memcmp
memcmp_flip [] [] h = refl
memcmp_flip [] (y ∷ ys) h = absurd (omega arith)
memcmp_flip (x ∷ xs) [] h = absurd (omega arith)
memcmp_flip (x ∷ xs) (y ∷ ys) h = ground (arith, memcmp_flip xs ys)

pub memcmp-eq : (xs ys : List ℕ) → length xs ≡ length ys → memcmp xs ys ≡ Ordering.eq → xs ≡ ys
unfolding memcmp
memcmp-eq [] [] h e = refl
memcmp-eq [] (y ∷ ys) h e = absurd (omega arith)
memcmp-eq (x ∷ xs) [] h e = absurd (omega arith)
memcmp-eq (x ∷ xs) (y ∷ ys) h e = ground (arith, memcmp-eq xs ys)

pub memcmp_trans :
    (xs ys zs : List ℕ)
    → length xs ≡ length ys
    → length ys ≡ length zs
    → memcmp xs ys ≡ Ordering.lt
    → memcmp ys zs ≡ Ordering.lt
    → memcmp xs zs ≡ Ordering.lt
unfolding memcmp
memcmp_trans [] ys zs h k p q = cc
memcmp_trans (x ∷ xs) [] zs h k p q = cc
memcmp_trans (x ∷ xs) (y ∷ ys) [] h k p q = cc
memcmp_trans (x ∷ xs) (y ∷ ys) (z ∷ zs) h k p q = ground (arith, memcmp_trans xs ys zs)
