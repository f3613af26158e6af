-- ===== src/Base/Int.antt =====
-- Go's `int` on a 64-bit machine: signed integers over the native numbers, with the wrap-around of
-- two's complement written out in `int_add` and `int_sub`.
use lodeen.Base.Tests.{ltb, leb, if◌then◌else◌}
use Prim.Native.Nat.{ℕ, suc, ◌+◌, ◌-◌, ◌*◌, ◌%◌, ◌≤◌, ◌<◌}
use mathlib.Core.Path.{◌≡◌}
use mathlib.Core.Bool.{Bool, ◌&&◌}
use native.Mathlib.Omega.{arith}

-- `negsuc n` is -(n + 1).
pub data ℤ : Type 0 where
  pos : ℕ → ℤ
  negsuc : ℕ → ℤ

abbrev pub pos_part : ℤ → ℕ
pos_part (pos n) = n
pos_part (negsuc n) = 0

abbrev pub neg_part : ℤ → ℕ
neg_part (pos n) = 0
neg_part (negsuc n) = suc n

-- a - b, as an integer.
abbrev pub sub_ℕ : ℕ → ℕ → ℤ
sub_ℕ a b = if leb b a then pos (a - b) else negsuc (b - a - 1)

infixl 65 ◌+ℤ◌ ◌-ℤ◌
infixl 70 ◌*ℤ◌
infix 50 ◌≤ℤ◌ ◌<ℤ◌
unfoldable pub ◌+ℤ◌ : ℤ → ℤ → ℤ
a +ℤ b = sub_ℕ (pos_part a + pos_part b) (neg_part a + neg_part b)

unfoldable pub ◌-ℤ◌ : ℤ → ℤ → ℤ
a -ℤ b = sub_ℕ (pos_part a + neg_part b) (neg_part a + pos_part b)

unfoldable pub ◌*ℤ◌ : ℤ → ℤ → ℤ
a *ℤ b =
    sub_ℕ (pos_part a * pos_part b + neg_part a * neg_part b)
      (pos_part a * neg_part b + neg_part a * pos_part b)

abbrev pub ◌≤ℤ◌ : ℤ → ℤ → Type 0
a ≤ℤ b = pos_part a + neg_part b ≤ pos_part b + neg_part a

abbrev pub ◌<ℤ◌ : ℤ → ℤ → Type 0
a <ℤ b = pos_part a + neg_part b < pos_part b + neg_part a

abbrev pub ltb_ℤ : ℤ → ℤ → Bool
ltb_ℤ a b = ltb (pos_part a + neg_part b) (pos_part b + neg_part a)

abbrev pub leb_ℤ : ℤ → ℤ → Bool
leb_ℤ a b = leb (pos_part a + neg_part b) (pos_part b + neg_part a)

abbrev pub eqb_ℤ : ℤ → ℤ → Bool
eqb_ℤ a b = leb_ℤ a b && leb_ℤ b a

-- 2^63, the magnitude of the least int64.
abbrev pub int_bound : ℕ
int_bound = 9223372036854775808

-- The values that an int64 can hold.
abbrev pub IsInt64 : ℤ → Type 0
IsInt64 z = (pos_part z < int_bound) × (neg_part z ≤ int_bound)

-- The int64 that is congruent to an integer modulo 2^64.
unfoldable pub wrap_int : ℤ → ℤ
wrap_int (pos n) =
    let r = n % (2 * int_bound) in if ltb r int_bound then pos r else negsuc (2 * int_bound - 1 - r)
wrap_int (negsuc n) =
    let r = n % (2 * int_bound) in if ltb r int_bound then negsuc r else pos (2 * int_bound - 1 - r)

-- Go's `a + b`, `a - b` and `a * b` at type int.
unfoldable pub int_add : ℤ → ℤ → ℤ
int_add a b = wrap_int (a +ℤ b)

unfoldable pub int_sub : ℤ → ℤ → ℤ
int_sub a b = wrap_int (a -ℤ b)

unfoldable pub int_mul : ℤ → ℤ → ℤ
int_mul a b = wrap_int (a *ℤ b)

pub +ℤ_parts :
    (a b : ℤ)
    → pos_part (a +ℤ b) + neg_part a + neg_part b ≡ neg_part (a +ℤ b) + pos_part a + pos_part b
unfolding ◌+ℤ◌
+ℤ_parts a b = ground arith

pub -ℤ_parts :
    (a b : ℤ)
    → pos_part (a -ℤ b) + neg_part a + pos_part b ≡ neg_part (a -ℤ b) + pos_part a + neg_part b
unfolding ◌-ℤ◌
-ℤ_parts a b = ground arith

pub eq_of_parts : (a b : ℤ) → pos_part a + neg_part b ≡ pos_part b + neg_part a → a ≡ b
eq_of_parts a b h = ground arith

pub ruleset int_laws = (arith, +ℤ_parts, -ℤ_parts, eq_of_parts)

pub wrap_int-id : (z : ℤ) → IsInt64 z → wrap_int z ≡ z
unfolding wrap_int
wrap_int-id (pos n) h = ground arith
wrap_int-id (negsuc n) h = ground arith

pub wrap_int-IsInt64 : (z : ℤ) → IsInt64 (wrap_int z)
unfolding wrap_int
wrap_int-IsInt64 (pos n) = ground arith
wrap_int-IsInt64 (negsuc n) = ground arith

-- Arithmetic that stays in range does not wrap.
pub int_add-eq : (a b : ℤ) → IsInt64 (a +ℤ b) → int_add a b ≡ a +ℤ b
unfolding int_add
int_add-eq a b h = wrap_int-id (a +ℤ b) h

pub int_sub-eq : (a b : ℤ) → IsInt64 (a -ℤ b) → int_sub a b ≡ a -ℤ b
unfolding int_sub
int_sub-eq a b h = wrap_int-id (a -ℤ b) h

-- On numbers that are not negative.
pub int_add-pos : (m n : ℕ) → m + n < int_bound → int_add (pos m) (pos n) ≡ pos (m + n)
unfolding int_add ◌+ℤ◌ wrap_int
int_add-pos m n h = ground arith

pub int_sub-pos : (m n : ℕ) → m < int_bound → n ≤ m → int_sub (pos m) (pos n) ≡ pos (m - n)
unfolding int_sub ◌-ℤ◌ wrap_int
int_sub-pos m n h k = ground arith
