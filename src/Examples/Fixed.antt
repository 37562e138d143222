-- ===== src/Examples/Fixed.antt =====
-- A float for the examples: a number of thousandths, which rounds towards 0.
use Prim.Native.Nat.{◌/◌}
use mathlib.Core.Path.{◌≡◌}
use mathlib.Core.Bool.{true}
use native.Mathlib.Omega.{arith}
use younggeul.Prelude.{ℕ, zero, suc, ◌+◌, ℤ, pos, negsuc, ◌+ℤ◌, ◌-ℤ◌, ◌*ℤ◌, ◌≤ℤ◌, ltb_ℤ, not}
use younggeul.Floats.{FloatOps, FloatLaws}

abbrev divided : ℤ → ℕ → ℤ
divided (pos n) d = pos (n / d)
divided (negsuc n) d = pos 0 -ℤ pos ((n + 1) / d)

abbrev scale : ℕ → ℕ
scale zero = 1000
scale (suc zero) = 100
scale (suc (suc zero)) = 10
scale (suc (suc (suc k))) = 1

abbrev quotient : ℤ → ℤ → ℤ
quotient a (pos n) = divided (a *ℤ pos 1000) n
quotient a (negsuc n) = pos 0 -ℤ divided (a *ℤ pos 1000) (n + 1)

abbrev pub fixed : FloatOps
fixed = record {
  Float = ℤ;
  add = λ a b. a +ℤ b;
  sub = λ a b. a -ℤ b;
  mul = λ a b. divided (a *ℤ b) 1000;
  div = quotient;
  lt = ltb_ℤ;
  le = λ a b. not (ltb_ℤ b a);
  of_int = λ n. n *ℤ pos 1000;
  trunc = λ a. divided a 1000;
  decimal = λ m k. m *ℤ pos (scale k);
}

scaled : (m n : ℤ) (k : ℕ) → m ≤ℤ n → not (ltb_ℤ (n *ℤ pos (scale k)) (m *ℤ pos (scale k))) ≡ true
unfolding ◌*ℤ◌
scaled m n zero h = ground arith
scaled m n (suc zero) h = ground arith
scaled m n (suc (suc zero)) h = ground arith
scaled m n (suc (suc (suc k))) h = ground arith

pub fixed_laws : FloatLaws fixed
fixed_laws = record { lt-le = λ a b h. ground arith; decimal-le = scaled }
