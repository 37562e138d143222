-- ===== src/Retry.antt =====
-- core/src/younggeul_core/connectors/retry.py: a call is tried again after an error that may pass,
-- with growing delays. The n-th call's outcome, the random draws and what `time.sleep` raises are
-- parameters; a negative number of attempts makes no call, like 0. `fn` is called as often as the
-- loop goes round. An exception of the pause, outside the `try`, ends the loop.
pub mod Rounds
pub mod Attempts
use mathlib.Core.Bool.{Bool, true, false}
use mathlib.Core.Option.{Option, none, some}
use mathlib.Core.Logic.{◌⊎◌, inl, inr}
use mathlib.Core.List.{List, [], ◌∷◌, ◌++◌}
use younggeul.Prelude.{ℕ, zero, suc, ◌-◌, ◌*◌, pos, leb, ltb, String, if◌then◌else◌}
use younggeul.Floats.{FloatOps, min}

-- The exceptions by the `except` clause that takes them.
pub data Failure : Type 0 where
  non_retryable_error : String → Failure
  connector_error : String → (retryable : Bool) → Failure
  os_error : String → Failure
  other_error : String → Failure

pub data Outcome (T : Type 0) : Type 0 where
  returned : T → Outcome T
  raised : Failure → Outcome T
  assertion_failed : Outcome T

-- Whether the loop goes on after the exception.
abbrev pub may_retry : Failure → Bool
may_retry (non_retryable_error message) = false
may_retry (connector_error message retryable) = retryable
may_retry (os_error message) = true
may_retry (other_error message) = false

-- `assert last_exception is not None; raise last_exception`
abbrev pub raise_last : {T : Type 0} → Option Failure → Outcome T
raise_last none = assertion_failed
raise_last (some failure) = raised failure

-- `2 ** n`
abbrev pub power_of_two : ℕ → ℕ
power_of_two zero = 1
power_of_two (suc n) = 2 * power_of_two n

-- `2 ** (attempt - 1)` has no `float` from the attempt 1025 on.
abbrev pub overflow_error : Failure
overflow_error = other_error "OverflowError: int too large to convert to float"

-- `time.sleep` is `sleep`, with the exception that it raises, if any: for a negative delay, a NaN
-- and a delay that is too long.
module _ (F : FloatOps) (T : Type 0) (fn : ℕ → Outcome T) (uniform : ℕ → F.Float → F.Float)
    (sleep : F.Float → Option Failure) (max_attempts : ℕ)
    (base_delay max_delay jitter : F.Float) where
  -- The delay after an attempt before the 1025th.
  unfoldable pub delay : ℕ → F.Float
  delay attempt =
      let capped =
        min F (F.mul base_delay (F.of_int (pos (power_of_two (attempt - 1))))) max_delay in
      F.add capped (uniform attempt (F.mul capped jitter))

  -- What the pause after an attempt raises.
  unfoldable pub pause_failure : ℕ → Option Failure
  pause_failure attempt = if leb 1025 attempt then some overflow_error else sleep (delay attempt)

  -- The delays so far, or the exception of the pause.
  abbrev pub slept : Option Failure → F.Float → List F.Float → Failure ⊎ List F.Float
  slept none seconds sleeps = inr (sleeps ++ seconds ∷ [])
  slept (some failure) seconds sleeps = inl failure

  -- `if attempt < max_attempts: …`, over the delays so far
  unfoldable pub pause : ℕ → List F.Float → Failure ⊎ List F.Float
  pause attempt sleeps =
      if ltb attempt max_attempts
      then slept (pause_failure attempt) (delay attempt) sleeps
      else inr sleeps

  -- The `except` clauses: only the last two let the loop go on.
  abbrev pub handle :
      Outcome T → List F.Float → (Failure → Outcome T × List F.Float) → Outcome T × List F.Float
  handle (returned value) sleeps rest = (returned value, sleeps)
  handle (raised failure) sleeps rest =
      if may_retry failure then rest failure else (raised failure, sleeps)
  handle assertion_failed sleeps rest = (assertion_failed, sleeps)

  -- The next round, unless the pause raises.
  abbrev pub go_on :
      Failure ⊎ List F.Float
      → List F.Float
      → (List F.Float → Outcome T × List F.Float)
      → Outcome T × List F.Float
  go_on (inl failure) sleeps rest = (raised failure, sleeps)
  go_on (inr sleeps') sleeps rest = rest sleeps'

  -- The loop, with the number of rounds that `range` has left.
  unfoldable pub attempts : ℕ → ℕ → Option Failure → List F.Float → Outcome T × List F.Float
  attempts zero attempt last_exception sleeps = (raise_last last_exception, sleeps)
  attempts (suc left) attempt last_exception sleeps = handle (fn attempt) sleeps (λ failure.
      go_on (pause attempt sleeps) sleeps
        (λ sleeps'. attempts left (suc attempt) (some failure) sleeps'))

  -- The outcome, and the delays that were slept.
  unfoldable pub retry : Outcome T × List F.Float
  retry = attempts max_attempts 1 none []
