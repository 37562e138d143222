-- ===== src/Floats.antt =====
-- Python's `float` as a parameter: its type, the operations that the code uses, and the laws of
-- binary64 that the theorems rely on. `decimal m k` is the literal m · 10⁻ᵏ. Nothing is assumed of
-- rounding, nor of a comparison with a NaN, which is false. The conversions between `int` and
-- `float` are total here: they fail in Python only beyond 2¹⁰²³, or on a NaN or an infinity.
use mathlib.Core.Path.{◌≡◌}
use mathlib.Core.Bool.{Bool, true, false}
use native.Mathlib.Omega.{arith}
use younggeul.Prelude.{ℕ, ℤ, ◌≤ℤ◌, if◌then◌else◌}

pub record FloatOps : Type 1 where
  pub Float : Type 0
  pub add : Float → Float → Float
  pub sub : Float → Float → Float
  pub mul : Float → Float → Float
  pub div : Float → Float → Float
  -- `a < b` and `a <= b`
  pub lt : Float → Float → Bool
  pub le : Float → Float → Bool
  -- `float(n)` and `int(x)`
  pub of_int : ℤ → Float
  pub trunc : Float → ℤ
  pub decimal : ℤ → ℕ → Float

pub record FloatLaws (F : FloatOps) : Type 0 where
  pub lt-le : (a b : F.Float) → F.lt a b ≡ true → F.le a b ≡ true
  pub decimal-le : (m n : ℤ) (k : ℕ) → m ≤ℤ n → F.le (F.decimal m k) (F.decimal n k) ≡ true

module _ (F : FloatOps) where
  open F use {Float, lt, le}

  -- The built-in `max` and `min` keep the first argument unless the second is beyond it.
  unfoldable pub max : Float → Float → Float
  max a b = if lt a b then b else a

  unfoldable pub min : Float → Float → Float
  min a b = if lt b a then b else a

  -- `low <= value <= high`
  abbrev pub between : Float → Float → Float → Bool
  between low value high = if le low value then le value high else false

  abbrev pub Between : Float → Float → Float → Type 0
  Between low value high = between low value high ≡ true

  -- `max(min_value, min(max_value, value))`
  unfoldable pub clamp : Float → Float → Float → Float
  unfolding max min
  clamp value low high = max low (min high value)

module _ (F : FloatOps) (laws : FloatLaws F) where
  open F use {Float, le, decimal}

  -- A clamped value is in its range, whatever the value is, a NaN included.
  pub clamp-Between :
      (value low high : Float)
      → le low high ≡ true
      → le low low ≡ true
      → le high high ≡ true
      → Between F low (clamp F value low high) high
  unfolding clamp
  clamp-Between value low high h k m =
      ground (arith, laws.lt-le value high, laws.lt-le low value, laws.lt-le low high)

  pub clamp_decimal-Between :
      (value : Float) (m n : ℤ) (k : ℕ)
      → m ≤ℤ n
      → Between F (decimal m k) (clamp F value (decimal m k) (decimal n k)) (decimal n k)
  clamp_decimal-Between value m n k h =
      clamp-Between value (decimal m k) (decimal n k) (laws.decimal-le m n k h)
        (laws.decimal-le m m k (omega arith)) (laws.decimal-le n n k (omega arith))
