-- ===== src/Prelude/Words.antt =====
-- Python's texts: `str` of an `int`, `join`, and a prefix that is taken off.
use Prim.Native.Nat.{ℕ, zero, suc, ◌/◌, ◌%◌}
use Prim.Native.Char.{code}
use Prim.Native.String.{String, ◌++◌}
use Prim.Native.String.append
use mathlib.Core.Path.{◌≡◌, refl}
use mathlib.Core.Option.{Option, none, some}
use mathlib.Core.List.{List, [], ◌∷◌}
use native.Mathlib.Omega.{arith}
use younggeul.Prelude.Tests.{ltb, ◌==◌, if◌then◌else◌}
use younggeul.Prelude.Int.{ℤ, pos, negsuc}

unfoldable pub digit : ℕ → String
digit n =
    if n == 0
    then "0"
    else if n == 1
    then "1"
    else if n == 2
    then "2"
    else if n == 3
    then "3"
    else if n == 4
    then "4"
    else if n == 5
    then "5"
    else if n == 6
    then "6"
    else if n == 7
    then "7"
    else if n == 8
    then "8"
    else "9"

-- The digits of a number in front of a text; `n` steps are enough for `n`.
unfoldable pub digits : ℕ → ℕ → String → String
unfolding digit
digits zero n rest = digit n ++ rest
digits (suc fuel) n rest =
    let more = digits fuel (n / 10) (digit (n % 10) ++ rest) in
    if ltb n 10 then digit n ++ rest else more

-- `str(n)`
unfoldable pub str : ℤ → String
unfolding digits
str (pos n) = digits n n ""
str (negsuc n) = "-" ++ digits (suc n) (suc n) ""

-- `separator.join(texts)`
unfoldable pub join : String → List String → String
join separator [] = ""
join separator (t ∷ []) = t
join separator (t ∷ (u ∷ us)) = t ++ (separator ++ join separator (u ∷ us))

-- What follows the prefix, where the text starts with it.
unfoldable pub after_prefix : String → String → Option String
after_prefix s String.[] = some s
after_prefix String.[] (String.◌∷◌ d t) = none
after_prefix (String.◌∷◌ c s) (String.◌∷◌ d t) =
    let rest = after_prefix s t in if code c == code d then rest else none

pub after_prefix-append : (t s : String) → after_prefix (t ++ s) t ≡ some s
unfolding after_prefix
after_prefix-append String.[] s = rw (append.nil s) refl
after_prefix-append (String.◌∷◌ d t) s =
    rw (append.cons d t s) (ground (arith, after_prefix-append t s))

-- What is before the first dash, and what is after it.
unfoldable pub before_dash : String → String
before_dash String.[] = ""
before_dash (String.◌∷◌ c s) =
    let rest = before_dash s in if code c == 45 then "" else String.◌∷◌ c rest

unfoldable pub after_dash : String → String
after_dash String.[] = ""
after_dash (String.◌∷◌ c s) = let rest = after_dash s in if code c == 45 then s else rest
