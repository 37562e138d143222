-- ===== src/Retry/Rounds.antt =====
-- The rounds of the loop of `retry`, one and k of them.
use mathlib.Core.Path.{◌≡◌, refl, sym, ◌∙◌, ap, subst}
use mathlib.Core.Bool.{Bool, true, false}
use mathlib.Core.Option.{Option, none, some}
use mathlib.Core.List.{List, [], ◌∷◌, ◌++◌}
use mathlib.Core.Logic.{inl, inr}
use native.Mathlib.Omega.{arith}
use younggeul.Prelude.{ℕ, zero, suc, ◌+◌, ◌-◌, ◌≤◌, ◌<◌, ltb, lt→ltb, length, length-append}
use younggeul.Floats.{FloatOps}
use younggeul.Retry.{
  Failure, Outcome, returned, raised, assertion_failed, may_retry, delay, pause_failure, pause,
  attempts, handle, go_on, retry,
}

-- The attempt fails in a way that may pass.
abbrev pub passes : {T : Type 0} → Outcome T → Bool
passes (returned value) = false
passes (raised failure) = may_retry failure
passes assertion_failed = false

shift : (P : ℕ → Type 0) (a j : ℕ) → P (a + suc j) → P (suc a + j)
shift P a j p = let e : a + suc j ≡ suc a + j = omega arith in subst P e p

module _ (F : FloatOps) (T : Type 0) (fn : ℕ → Outcome T) (uniform : ℕ → F.Float → F.Float)
    (sleep : F.Float → Option Failure) (max_attempts : ℕ)
    (base_delay max_delay jitter : F.Float) where
  abbrev pub loop : ℕ → ℕ → Option Failure → List F.Float → Outcome T × List F.Float
  loop = attempts F T fn uniform sleep max_attempts base_delay max_delay jitter

  abbrev fails_at : ℕ → Option Failure
  fails_at = pause_failure F T fn uniform sleep max_attempts base_delay max_delay jitter

  abbrev paused : ℕ → List F.Float → List F.Float
  paused attempt sleeps =
      sleeps ++ delay F T fn uniform sleep max_attempts base_delay max_delay jitter attempt ∷ []

  pause-sleeps :
      (attempt : ℕ) (sleeps : List F.Float)
      → attempt < max_attempts
      → fails_at attempt ≡ none
      → pause F T fn uniform sleep max_attempts base_delay max_delay jitter attempt sleeps
        ≡ inr (paused attempt sleeps)
  unfolding pause
  pause-sleeps attempt sleeps h quiet = rw (lt→ltb attempt max_attempts h, quiet) refl

  pub pause-fails :
      (attempt : ℕ) (sleeps : List F.Float) (failure : Failure)
      → attempt < max_attempts
      → fails_at attempt ≡ some failure
      → pause F T fn uniform sleep max_attempts base_delay max_delay jitter attempt sleeps
        ≡ inl failure
  unfolding pause
  pause-fails attempt sleeps failure h loud = rw (lt→ltb attempt max_attempts h, loud) refl

  pub pause-last :
      (attempt : ℕ) (sleeps : List F.Float)
      → attempt ≡ max_attempts
      → pause F T fn uniform sleep max_attempts base_delay max_delay jitter attempt sleeps
        ≡ inr sleeps
  unfolding pause
  pause-last attempt sleeps h =
      let not_below : ltb attempt max_attempts ≡ false = ground arith in rw not_below refl

  pub handle-decided :
      (o : Outcome T) (sleeps : List F.Float) (rest : Failure → Outcome T × List F.Float)
      → passes o ≡ false
      → handle F T fn uniform sleep max_attempts base_delay max_delay jitter o sleeps rest
        ≡ (o, sleeps)
  handle-decided (returned value) sleeps rest h = refl
  handle-decided (raised failure) sleeps rest h = rw h refl
  handle-decided assertion_failed sleeps rest h = refl

  handle-passes :
      (o : Outcome T) (sleeps : List F.Float) (rest : Failure → Outcome T × List F.Float)
      → passes o ≡ true
      → (failure : Failure) × (o ≡ raised failure)
        × (handle F T fn uniform sleep max_attempts base_delay max_delay jitter o sleeps rest
            ≡ rest failure)
  handle-passes (returned value) sleeps rest h = cc
  handle-passes (raised failure) sleeps rest h = (failure, refl, rw h refl)
  handle-passes assertion_failed sleeps rest h = cc

  abbrev pub further : ℕ → ℕ → Failure → List F.Float → Outcome T × List F.Float
  further left attempt failure sleeps = loop left (suc attempt) (some failure) sleeps

  -- A round whose attempt fails in a way that may pass: the pause is next.
  pub loop-passes :
      (left attempt : ℕ) (last : Option Failure) (sleeps : List F.Float)
      → passes (fn attempt) ≡ true
      → (failure : Failure) × (fn attempt ≡ raised failure)
        × (loop (suc left) attempt last sleeps
            ≡ go_on F T fn uniform sleep max_attempts base_delay max_delay jitter
                (pause F T fn uniform sleep max_attempts base_delay max_delay jitter attempt sleeps)
                sleeps
                (further left attempt failure))
  unfolding attempts
  loop-passes left attempt last sleeps h =
      handle-passes (fn attempt) sleeps
        (λ failure.
          go_on F T fn uniform sleep max_attempts base_delay max_delay jitter
            (pause F T fn uniform sleep max_attempts base_delay max_delay jitter attempt sleeps)
            sleeps (further left attempt failure))
        h

  -- A round that is passed, with its pause.
  loop-goes_on :
      (left attempt : ℕ) (last : Option Failure) (sleeps : List F.Float)
      → attempt < max_attempts
      → passes (fn attempt) ≡ true
      → fails_at attempt ≡ none
      → (failure : Failure) × (loop (suc left) attempt last sleeps
          ≡ loop left (suc attempt) (some failure) (paused attempt sleeps))
  loop-goes_on left attempt last sleeps high h quiet =
      let (failure, was, e) = loop-passes left attempt last sleeps h in
      (failure, e ∙ (rw (pause-sleeps attempt sleeps high quiet) refl))

  -- k rounds that are passed, each with its pause.
  loop_passes :
      (k left attempt : ℕ) (last : Option Failure) (sleeps : List F.Float)
      → attempt + k ≤ max_attempts
      → ((j : ℕ) → j < k → passes (fn (attempt + j)) ≡ true)
      → ((j : ℕ) → j < k → fails_at (attempt + j) ≡ none)
      → (last' : Option Failure) × (sleeps' : List F.Float) × (loop (k + left) attempt last sleeps
          ≡ loop left (attempt + k) last' sleeps')
        × (length sleeps' ≡ length sleeps + k)
  loop_passes zero left attempt last sleeps h before quiet =
      let same : attempt ≡ attempt + 0 = omega arith in
      let none_yet : 0 + left ≡ left = omega arith in
      (
        last,
        sleeps,
        ap (λ n. loop n attempt last sleeps) none_yet ∙ ap (λ n. loop left n last sleeps) same,
        omega arith,
      )
  loop_passes (suc k) left attempt last sleeps h before quiet =
      let same : attempt + 0 ≡ attempt = omega arith in
      let next : suc attempt + k ≡ attempt + suc k = omega arith in
      let one_more : suc k + left ≡ suc (k + left) = omega arith in
      let (failure, e) =
        loop-goes_on (k + left) attempt last sleeps (omega (arith, h))
          (rw same at (before 0 (omega arith))) (rw same at (quiet 0 (omega arith))) in
      let (last', sleeps', e', slept) =
        loop_passes k left (suc attempt) (some failure) (paused attempt sleeps) (omega (arith, h))
          (λ j m. shift (λ n. passes (fn n) ≡ true) attempt j (before (suc j) (omega (arith, m))))
          (λ j m. shift (λ n. fails_at n ≡ none) attempt j (quiet (suc j) (omega (arith, m)))) in
      (
        last',
        sleeps',
        ap (λ n. loop n attempt last sleeps) one_more
            ∙ e
            ∙ e'
            ∙ ap (λ n. loop left n last' sleeps') next,
        omega (
          arith,
          slept,
          length-append sleeps
              (delay F T fn uniform sleep max_attempts base_delay max_delay jitter attempt ∷ []),
        ),
      )

  -- `retry` after k rounds that are passed.
  pub retry_passes :
      (k left : ℕ)
      → k + suc left ≡ max_attempts
      → ((j : ℕ) → j < k → passes (fn (1 + j)) ≡ true)
      → ((j : ℕ) → j < k → fails_at (1 + j) ≡ none)
      → (last : Option Failure) × (sleeps : List F.Float) × (retry F T fn uniform sleep max_attempts
            base_delay max_delay jitter
          ≡ loop (suc left) (1 + k) last sleeps)
        × (length sleeps ≡ k)
  unfolding retry
  retry_passes k left fits before quiet =
      let (last, sleeps, e, slept) =
        loop_passes k (suc left) 1 none [] (omega (arith, fits)) before quiet in
      (last, sleeps, ap (λ n. loop n 1 none []) (sym fits) ∙ e, omega (arith, slept))

  pub rest_of : (k : ℕ) → suc k ≤ max_attempts → k + suc (max_attempts - suc k) ≡ max_attempts
  rest_of k high = omega (arith, high)
