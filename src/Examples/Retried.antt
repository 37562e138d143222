-- ===== src/Examples/Retried.antt =====
-- The theorems on `retry`, applied to a call that works at the third attempt.
use mathlib.Core.Path.{◌≡◌, refl}
use mathlib.Core.Bool.{true}
use mathlib.Core.Logic.{◌⊎◌}
use mathlib.Core.Option.{Option, none, some}
use younggeul.Floats.{min}
use native.Mathlib.Omega.{arith}
use younggeul.Prelude.{
  ℕ, zero, suc, ◌<◌, ◌+◌, ℤ, pos, negsuc, ltb_ℤ, ◌+ℤ◌, ◌*ℤ◌, ◌-ℤ◌, length, if◌then◌else◌,
}
use younggeul.Retry.{
  Failure, Outcome, returned, raised, os_error, other_error, overflow_error, delay, pause_failure,
  retry,
}
use younggeul.Retry.Rounds.{passes}
use younggeul.Retry.Attempts.{retry_decides, retry_gives_up, retry_stops}
use younggeul.Examples.Fixed.{fixed}

abbrev call : ℕ → Outcome ℕ
call zero = returned 0
call (suc zero) = raised (os_error "timeout")
call (suc (suc zero)) = raised (os_error "timeout")
call (suc (suc (suc n))) = returned 7

earlier_fail : (j : ℕ) → j < 2 → passes (call (1 + j)) ≡ true
earlier_fail zero h = refl
earlier_fail (suc zero) h = refl
earlier_fail (suc (suc j)) h = absurd (omega (arith, h))

abbrev uniform : ℕ → ℤ → ℤ
uniform n width = pos 0

-- `time.sleep` refuses a negative delay.
abbrev sleep : ℤ → Option Failure
sleep seconds = if ltb_ℤ seconds (pos 0) then some (other_error "ValueError") else none

earlier_pauses :
    (j : ℕ)
    → j < 2
    → pause_failure fixed ℕ call uniform sleep 5 (pos 1000) (pos 30000) (pos 500) (1 + j) ≡ none
unfolding pause_failure delay min ◌+ℤ◌ ◌*ℤ◌
earlier_pauses zero h = refl
earlier_pauses (suc zero) h = refl
earlier_pauses (suc (suc j)) h = absurd (omega (arith, h))

retry_decides_example :
    ((retry fixed ℕ call uniform sleep 5 (pos 1000) (pos 30000) (pos 500)).0 ≡ call (1 + 2))
    × (length (retry fixed ℕ call uniform sleep 5 (pos 1000) (pos 30000) (pos 500)).1 ≡ 2)
retry_decides_example =
    retry_decides fixed ℕ call uniform sleep 5 (pos 1000) (pos 30000) (pos 500) 2 (omega arith)
      earlier_fail earlier_pauses refl

only_pause :
    (j : ℕ)
    → suc j < 2
    → pause_failure fixed ℕ call uniform sleep 2 (pos 1000) (pos 30000) (pos 500) (1 + j) ≡ none
unfolding pause_failure delay min ◌+ℤ◌ ◌*ℤ◌
only_pause zero h = refl
only_pause (suc j) h = absurd (omega (arith, h))

retry_gives_up_example :
    ((retry fixed ℕ call uniform sleep 2 (pos 1000) (pos 30000) (pos 500)).0 ≡ call 2)
    × (suc (length (retry fixed ℕ call uniform sleep 2 (pos 1000) (pos 30000) (pos 500)).1) ≡ 2)
retry_gives_up_example =
    retry_gives_up fixed ℕ call uniform sleep 2 (pos 1000) (pos 30000) (pos 500) (omega arith)
      earlier_fail only_pause

first_fails : (j : ℕ) → j < 1 → passes (call (1 + j)) ≡ true
first_fails j h = earlier_fail j (omega (arith, h))

no_pause :
    (j : ℕ)
    → j < 0
    → pause_failure fixed ℕ call uniform sleep 5 (negsuc 0) (pos 30000) (pos 500) (1 + j) ≡ none
no_pause j h = absurd (omega (arith, h))

refused :
    pause_failure fixed ℕ call uniform sleep 5 (negsuc 0) (pos 30000) (pos 500) (1 + 0)
    ≡ some (other_error "ValueError")
unfolding pause_failure delay min ◌+ℤ◌ ◌*ℤ◌ ◌-ℤ◌
refused = refl

retry_stops_example :
    ((retry fixed ℕ call uniform sleep 5 (negsuc 0) (pos 30000) (pos 500)).0
      ≡ raised (other_error "ValueError"))
    × (length (retry fixed ℕ call uniform sleep 5 (negsuc 0) (pos 30000) (pos 500)).1 ≡ 0)
    × ((0 < 1024) ⊎ (other_error "ValueError" ≡ overflow_error))
retry_stops_example =
    retry_stops fixed ℕ call uniform sleep 5 (negsuc 0) (pos 30000) (pos 500) 0
      (other_error "ValueError") (omega arith) first_fails no_pause refused
