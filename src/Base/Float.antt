-- ===== src/Base/Float.antt =====
-- Go's float32 and float64. The arithmetic is a parameter: a type of float32 values `F`, with an
-- instance of `Float F` that gives its operations, and with it the float64 type `Wide`.
use lodeen.Base.Int.{ℤ}
use Prim.Native.Nat.{ℕ, ◌≤◌}
use mathlib.Core.Path.{◌≡◌}
use mathlib.Core.Bool.{Bool, true, false, not}

-- The operations of one floating-point type. `lit n d` is the constant n / 10^d; `lt`, `le` and
-- `eq` are three operations, since a comparison with NaN fails.
pub record Ops (A : Type 0) : Type 0 where
  pub lit : ℕ → ℕ → A
  pub add : A → A → A
  pub sub : A → A → A
  pub mul : A → A → A
  pub div : A → A → A
  pub neg : A → A
  pub sqrt : A → A
  pub sin : A → A
  pub cos : A → A
  pub acos : A → A
  pub asin : A → A
  pub atan2 : A → A → A
  pub exp : A → A
  pub lt : A → A → Bool
  pub le : A → A → Bool
  pub eq : A → A → Bool

-- float32 with its conversions: `widen` is `float64(x)`, `narrow` is `float32(x)`, and `to_int` is
-- `int(x)`.
pub record Float (F : Type 0) : Type 1 where
  pub ops : Ops F
  pub Wide : Type 0
  pub wide : Ops Wide
  pub widen : F → Wide
  pub narrow : Wide → F
  pub to_int : F → ℤ

infixl 65 ◌⊕◌ ◌⊖◌
infixl 70 ◌⊗◌ ◌⊘◌
module _ {F : Type 0} ⦃fl : Float F⦄ where
  abbrev pub ◌⊕◌ : F → F → F
  ◌⊕◌ = fl.ops.add

  abbrev pub ◌⊖◌ : F → F → F
  ◌⊖◌ = fl.ops.sub

  abbrev pub ◌⊗◌ : F → F → F
  ◌⊗◌ = fl.ops.mul

  abbrev pub ◌⊘◌ : F → F → F
  ◌⊘◌ = fl.ops.div

  -- A constant n / 10^d.
  abbrev pub lit : ℕ → ℕ → F
  lit = fl.ops.lit

  -- A constant that is a whole number.
  abbrev pub num : ℕ → F
  num n = fl.ops.lit n 0

  abbrev pub flt : F → F → Bool
  flt = fl.ops.lt

  abbrev pub fle : F → F → Bool
  fle = fl.ops.le

  abbrev pub fne : F → F → Bool
  fne a b = not (fl.ops.eq a b)

  -- `float32(math.Sqrt(float64(x)))`
  abbrev pub sqrt32 : F → F
  sqrt32 x = fl.narrow (fl.wide.sqrt (fl.widen x))

-- What the theorems use of the order of float32 constants.
pub record HasOrderedConstants (F : Type 0) ⦃fl : Float F⦄ : Type 0 where
  pub num_order : (m n : ℕ) → m ≤ n → flt (num {F = F} n) (num m) ≡ false

-- What the theorems use of the order of float32 values: it is strict, with NaN too.
pub record IsStrictOrder (F : Type 0) ⦃fl : Float F⦄ : Type 0 where
  pub flt_irrefl : (a : F) → flt a a ≡ false
  pub flt_trans : (a b c : F) → flt a b ≡ true → flt b c ≡ true → flt a c ≡ true
