-- ===== src/Prelude/Digits.antt =====
-- The digits of a number, read back.
use Prim.Native.Nat.{ℕ, zero, suc, ◌+◌, ◌*◌, ◌-◌, ◌/◌, ◌%◌, ◌≤◌, ◌<◌}
use Prim.Native.Char.{Char, code}
use Prim.Native.String.{String, ◌++◌}
use mathlib.Core.Path.{◌≡◌, refl, ap, ◌∙◌}
use mathlib.Core.Bool.{true}
use mathlib.Core.Logic.{inl, inr}
use native.Mathlib.Omega.{arith}
use text.Mathlib.TextLemmas.{nil-append, cons-append}
use younggeul.Prelude.Tests.{ltb, ◌==◌, ==_iff, Bool-cases}
use younggeul.Prelude.Int.{pos}
use younggeul.Prelude.Words.{digit, digits, str}

-- The number that a text of digits stands for, after the digits before it.
unfoldable pub decode : String → ℕ → ℕ
decode String.[] n = n
decode (String.◌∷◌ c s) n = decode s (n * 10 + (code c - 48))

==→≡ : (a b : ℕ) → (a == b) ≡ true → a ≡ b
==→≡ a b h = (==_iff a b).0 h

-- A digit is one character.
digit-char : (n : ℕ) → n < 10 → (c : Char) × (digit n ≡ String.◌∷◌ c String.[]) × (code c ≡ 48 + n)
unfolding digit
digit-char n h = elim (Bool-cases (n == 0)) [
  | inl e0 ↦ ("0", rw e0 refl, omega (arith, ==→≡ n 0 e0))
  | inr e0 ↦ elim (Bool-cases (n == 1)) [
    | inl e1 ↦ ("1", rw (e0, e1) refl, omega (arith, ==→≡ n 1 e1))
    | inr e1 ↦ elim (Bool-cases (n == 2)) [
      | inl e2 ↦ ("2", rw (e0, e1, e2) refl, omega (arith, ==→≡ n 2 e2))
      | inr e2 ↦ elim (Bool-cases (n == 3)) [
        | inl e3 ↦ ("3", rw (e0, e1, e2, e3) refl, omega (arith, ==→≡ n 3 e3))
        | inr e3 ↦ elim (Bool-cases (n == 4)) [
          | inl e4 ↦ ("4", rw (e0, e1, e2, e3, e4) refl, omega (arith, ==→≡ n 4 e4))
          | inr e4 ↦ elim (Bool-cases (n == 5)) [
            | inl e5 ↦ ("5", rw (e0, e1, e2, e3, e4, e5) refl, omega (arith, ==→≡ n 5 e5))
            | inr e5 ↦ elim (Bool-cases (n == 6)) [
              | inl e6 ↦ ("6", rw (e0, e1, e2, e3, e4, e5, e6) refl, omega (arith, ==→≡ n 6 e6))
              | inr e6 ↦ elim (Bool-cases (n == 7)) [
                | inl e7 ↦
                    ("7", rw (e0, e1, e2, e3, e4, e5, e6, e7) refl, omega (arith, ==→≡ n 7 e7))
                | inr e7 ↦ elim (Bool-cases (n == 8)) [
                  | inl e8 ↦ (
                    "8",
                    rw (e0, e1, e2, e3, e4, e5, e6, e7, e8) refl,
                    omega (arith, ==→≡ n 8 e8),
                  )
                  | inr e8 ↦ (
                    "9",
                    rw (e0, e1, e2, e3, e4, e5, e6, e7, e8) refl,
                    ground (
                      arith,
                      h,
                      ==_iff n 0,
                      ==_iff n 1,
                      ==_iff n 2,
                      ==_iff n 3,
                      ==_iff n 4,
                      ==_iff n 5,
                      ==_iff n 6,
                      ==_iff n 7,
                      ==_iff n 8,
                    ),
                  )
                ]
              ]
            ]
          ]
        ]
      ]
    ]
  ]
]

decode-digit :
    (n : ℕ) (rest : String) (acc : ℕ)
    → n < 10
    → decode (digit n ++ rest) acc ≡ decode rest (acc * 10 + n)
unfolding decode
decode-digit n rest acc h =
    let d = digit-char n h in
    let value : code d.0 - 48 ≡ n = omega (arith, d.2) in
    ap (λ t. decode (t ++ rest) acc) d.1
    ∙ ap (λ t. decode t acc)
        (cons-append d.0 String.[] rest ∙ ap (String.◌∷◌ d.0) (nil-append rest))
    ∙ ap (λ k. decode rest (acc * 10 + k)) value

pub decode-digits :
    (fuel n : ℕ) (rest : String) → n ≤ fuel → decode (digits fuel n rest) 0 ≡ decode rest n
unfolding digits
decode-digits zero n rest h =
    decode-digit n rest 0 (omega (arith, h)) ∙ ap (decode rest) (omega arith)
decode-digits (suc fuel) n rest h = elim (Bool-cases (ltb n 10)) [
  | inl e ↦
      let small : n < 10 = ground arith in
      rw e (decode-digit n rest 0 small ∙ ap (decode rest) (omega arith))
  | inr e ↦
      let large : 10 ≤ n = ground arith in
      let fewer : n / 10 ≤ fuel = omega (arith, large, h) in
      let whole : n / 10 * 10 + n % 10 ≡ n = omega arith in
      rw e (
        decode-digits fuel (n / 10) (digit (n % 10) ++ rest) fewer
        ∙ decode-digit (n % 10) rest (n / 10) (omega arith)
        ∙ ap (decode rest) whole)
]

pub decode-str : (n : ℕ) → decode (str (pos n)) 0 ≡ n
unfolding str decode
decode-str n = decode-digits n n "" (omega arith)
