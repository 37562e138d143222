-- ===== src/Retry/Attempts.antt =====
-- Which attempt or pause decides the outcome of `retry`, and how often it sleeps.
use mathlib.Core.Path.{◌≡◌, refl, sym, ◌∙◌, ap}
use mathlib.Core.Bool.{true, false}
use mathlib.Core.Option.{Option, none, some}
use mathlib.Core.Logic.{◌⊎◌, inl, inr}
use native.Mathlib.Omega.{arith}
use younggeul.Prelude.{ℕ, suc, ◌+◌, ◌-◌, ◌≤◌, ◌<◌, leb, Bool-cases, some-eq, length}
use younggeul.Floats.{FloatOps}
use younggeul.Retry.{
  Failure, Outcome, raised, overflow_error, pause_failure, pause, attempts, go_on, retry,
}
use younggeul.Retry.Rounds.{
  passes, pause-fails, pause-last, handle-decided, further, loop-passes, retry_passes, rest_of,
}

module _ (F : FloatOps) (T : Type 0) (fn : ℕ → Outcome T) (uniform : ℕ → F.Float → F.Float)
    (sleep : F.Float → Option Failure) (max_attempts : ℕ)
    (base_delay max_delay jitter : F.Float) where
  -- The first attempt that returns, or fails in a way that does not pass, decides: with k attempts
  -- before it, no more than `max_attempts` in all, and no pause that raises before it, its outcome
  -- is that of `retry`, which has slept k times.
  pub retry_decides :
      (k : ℕ)
      → suc k ≤ max_attempts
      → ((j : ℕ) → j < k → passes (fn (1 + j)) ≡ true)
      → ((j : ℕ)
          → j < k
          → pause_failure F T fn uniform sleep max_attempts base_delay max_delay jitter (1 + j)
            ≡ none)
      → passes (fn (1 + k)) ≡ false
      → ((retry F T fn uniform sleep max_attempts base_delay max_delay jitter).0 ≡ fn (1 + k))
        × (length (retry F T fn uniform sleep max_attempts base_delay max_delay jitter).1 ≡ k)
  unfolding attempts
  retry_decides k high before quiet here =
      let left = max_attempts - suc k in
      let (last, sleeps, e, slept) =
        retry_passes F T fn uniform sleep max_attempts base_delay max_delay jitter k left
          (rest_of F T fn uniform sleep max_attempts base_delay max_delay jitter k high) before
          quiet in
      let decided =
        handle-decided F T fn uniform sleep max_attempts base_delay max_delay jitter (fn (1 + k))
          sleeps
          (λ failure.
            go_on F T fn uniform sleep max_attempts base_delay max_delay jitter
              (pause F T fn uniform sleep max_attempts base_delay max_delay jitter (1 + k) sleeps)
              sleeps
              (further F T fn uniform sleep max_attempts base_delay max_delay jitter left (1 + k)
                failure))
          here in
      let e' : retry F T fn uniform sleep max_attempts base_delay max_delay jitter
          ≡ (fn (1 + k), sleeps) =
        e ∙ decided in
      (ap (λ p. p.0) e', ap (λ p. length p.1) e' ∙ slept)

  -- If each of the attempts fails in a way that may pass, there is at least one, and no pause
  -- between them raises, `retry` ends with the failure of the last one, and has slept between the
  -- attempts only.
  pub retry_gives_up :
      1 ≤ max_attempts
      → ((j : ℕ) → j < max_attempts → passes (fn (1 + j)) ≡ true)
      → ((j : ℕ)
          → suc j < max_attempts
          → pause_failure F T fn uniform sleep max_attempts base_delay max_delay jitter (1 + j)
            ≡ none)
      → ((retry F T fn uniform sleep max_attempts base_delay max_delay jitter).0 ≡ fn max_attempts)
        × (suc (length (retry F T fn uniform sleep max_attempts base_delay max_delay jitter).1)
            ≡ max_attempts)
  unfolding attempts
  retry_gives_up some_attempt all quiet =
      let k = max_attempts - 1 in
      let end : 1 + k ≡ max_attempts = omega (arith, some_attempt) in
      let (last, sleeps, e, slept) =
        retry_passes F T fn uniform sleep max_attempts base_delay max_delay jitter k 0
          (omega (arith, some_attempt)) (λ j m. all j (omega (arith, m)))
          (λ j m. quiet j (omega (arith, m, some_attempt))) in
      let (failure, was, e₁) =
        loop-passes F T fn uniform sleep max_attempts base_delay max_delay jitter 0 (1 + k) last
          sleeps (all k (omega (arith, some_attempt))) in
      let e₂ : retry F T fn uniform sleep max_attempts base_delay max_delay jitter
          ≡ (raised failure, sleeps) =
        e
        ∙ e₁
        ∙ (rw
            (pause-last F T fn uniform sleep max_attempts base_delay max_delay jitter (1 + k) sleeps
              end)
            refl) in
      (
        ap (λ p. p.0) e₂ ∙ sym was ∙ ap fn end,
        let counted = ap (λ p. length p.1) e₂ ∙ slept in omega (arith, counted, some_attempt),
      )

  -- If the first k + 1 attempts fail in a way that may pass, there is a further one, and the pause
  -- after them is the first that raises, `retry` ends with the exception of that pause, and has
  -- slept k times. If this is the pause after the attempt 1025 or a later one, the exception is the
  -- overflow.
  pub retry_stops :
      (k : ℕ) (failure : Failure)
      → suc k < max_attempts
      → ((j : ℕ) → j < suc k → passes (fn (1 + j)) ≡ true)
      → ((j : ℕ)
          → j < k
          → pause_failure F T fn uniform sleep max_attempts base_delay max_delay jitter (1 + j)
            ≡ none)
      → pause_failure F T fn uniform sleep max_attempts base_delay max_delay jitter (1 + k)
        ≡ some failure
      → ((retry F T fn uniform sleep max_attempts base_delay max_delay jitter).0 ≡ raised failure)
        × (length (retry F T fn uniform sleep max_attempts base_delay max_delay jitter).1 ≡ k)
        × ((k < 1024) ⊎ (failure ≡ overflow_error))
  unfolding pause_failure
  retry_stops k failure high before quiet loud =
      let left = max_attempts - suc k in
      let soon_or_late : (k < 1024) ⊎ (failure ≡ overflow_error) =
        elim (Bool-cases (leb 1025 (1 + k))) [
          | inl h ↦ inr (some-eq (sym (rw h at loud)))
          | inr h ↦ inl (ground (arith, h))
        ] in
      let (last, sleeps, e, slept) =
        retry_passes F T fn uniform sleep max_attempts base_delay max_delay jitter k left
          (rest_of F T fn uniform sleep max_attempts base_delay max_delay jitter k
            (omega (arith, high)))
          (λ j m. before j (omega (arith, m))) quiet in
      let (last', was, e₁) =
        loop-passes F T fn uniform sleep max_attempts base_delay max_delay jitter left (1 + k) last
          sleeps (before k (omega arith)) in
      let e₂ : retry F T fn uniform sleep max_attempts base_delay max_delay jitter
          ≡ (raised failure, sleeps) =
        e
        ∙ e₁
        ∙ (rw
            (pause-fails F T fn uniform sleep max_attempts base_delay max_delay jitter (1 + k)
              sleeps failure (omega (arith, high)) loud)
            refl) in
      (ap (λ p. p.0) e₂, ap (λ p. length p.1) e₂ ∙ slept, soon_or_late)
