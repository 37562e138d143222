-- ===== src/Replay/Known.antt =====
-- simulation/replay/engine.py: events of an unknown type. A strict replay refuses them; a lenient one
-- is the strict replay of the others.
use mathlib.Core.Path.{◌≡◌, refl, sym, ap, ◌∙◌}
use mathlib.Core.Bool.{Bool, true, false}
use mathlib.Core.Logic.{inl, inr}
use mathlib.Core.Option.{some}
use mathlib.Core.List.{List, [], ◌∷◌}
use text.Mathlib.Text.{◌==◌}
use younggeul.Prelude.{String, get, has, is_some, length, select, all, Bool-cases, Option-cases}
use younggeul.Errors.{Result, ok, err, ◌>>=◌, OnOk, OnOk_mono, bind-OnOk, Result-cases, OnOk-any}
use younggeul.Floats.{FloatOps}
use younggeul.Events.{EventStore}
use younggeul.Replay.{Entries, ReplayState, Validators}
use younggeul.Replay.Handlers.{
  Event, Handler, handlers, handle_with, Progress, noted, replay_each, replay, no_progress,
}

module _ (F : FloatOps) (V : Validators F) where
  -- The engine has a handler for the event.
  abbrev pub is_known : Event F V → Bool
  is_known e = has (handlers F V) e.event_type

  abbrev pub known : List (Event F V) → List (Event F V)
  known = select is_known

  strict-known :
      (es : List (Event F V)) (p : Progress F V)
      → OnOk (λ _. all is_known es ≡ true) (replay_each F V true es p)
  unfolding replay_each all
  strict-known [] p = refl
  strict-known (e ∷ es) p = elim (Option-cases (get (handlers F V) e.event_type)) [
    | inl h ↦ rw h tt
    | inr (handler, h) ↦
        let found : is_known e ≡ true = ap is_some h in
        bind-OnOk (λ _. Unit) (λ _. all is_known (e ∷ es) ≡ true)
          (handle_with F V (get (handlers F V) e.event_type) true p e) _ (OnOk-any _)
          (λ p' _.
            OnOk_mono _ _ (replay_each F V true es p') (λ q k. rw found k) (strict-known es p'))
  ]

  -- What is kept besides the warnings of the replay.
  abbrev pub core : Result (Progress F V) → Result (Progress F V)
  core (ok p) = ok (record p { replay_warnings = [] })
  core (err e) = err e

  noted-warnings :
      (p : Progress F V) (e : Event F V) (s : ReplayState F) (w : List String)
      → noted F V (record p { replay_warnings = w }) e s
        ≡ record (noted F V p e s) { replay_warnings = w }
  noted-warnings p e s w = elim (Bool-cases (e.event_type == "WORLD_INITIALIZED")) [
    | inl h ↦ rw h refl
    | inr h ↦ rw h refl
  ]

  -- One event of a known type.
  handled :
      (strict : Bool) (e : Event F V) (es : List (Event F V)) (p : Progress F V)
      {handler : Handler F V} {m : Result (ReplayState F)}
      → get (handlers F V) e.event_type ≡ some handler
      → handler p.state e ≡ m
      → replay_each F V strict (e ∷ es) p
        ≡ (m >>= (λ s. ok (noted F V p e s)) >>= replay_each F V strict es)
  unfolding replay_each
  handled strict e es p h k = rw (h, k) refl

  known-cons :
      (e : Event F V) (es : List (Event F V)) {handler : Handler F V}
      → get (handlers F V) e.event_type ≡ some handler
      → known (e ∷ es) ≡ e ∷ known es
  unfolding select
  known-cons e es h = rw h refl

  -- A lenient replay keeps what the strict replay of the events of a known type keeps, or raises what
  -- it raises; only the warnings of the replay differ, and the strict one may start from any.
  pub replay_each-known :
      (es : List (Event F V)) (p : Progress F V) (w : List String)
      → core (replay_each F V false es p)
        ≡ core (replay_each F V true (known es) (record p { replay_warnings = w }))
  unfolding replay_each select
  replay_each-known [] p w = refl
  replay_each-known (e ∷ es) p w = elim (Option-cases (get (handlers F V) e.event_type)) [
    | inl h ↦ rw h (replay_each-known es _ w)
    | inr (handler, h) ↦
        let q = record p { replay_warnings = w } in
        let kept = ap (λ l. replay_each F V true l q) (known-cons e es h) in
        elim (Result-cases (handler p.state e)) [
          | inl (s, k) ↦
              ap core (handled false e es p h k)
              ∙ replay_each-known es (noted F V p e s) w
              ∙ ap (λ r. core (replay_each F V true (known es) r)) (sym (noted-warnings p e s w))
              ∙ sym (ap core (kept ∙ handled true e (known es) q h k))
          | inr (raised, k) ↦
              ap core (handled false e es p h k)
              ∙ sym (ap core (kept ∙ handled true e (known es) q h k))
        ]
  ]

  module _ (store : EventStore Entries) where
    -- A strict replay returns only where every event of the run has a known type, and the result counts
    -- all events.
    pub replay-strict :
        (s : store.State) (run_id : String) (events : List (Event F V))
        → store.get_events s run_id ≡ ok events
        → OnOk
            (λ r. (all is_known events ≡ true) × (r.event_count ≡ length events))
            (replay F V store s run_id true)
    unfolding replay all
    replay-strict s run_id [] h = rw h (refl, refl)
    replay-strict s run_id (e ∷ es) h = rw h (
        bind-OnOk (λ _. all is_known (e ∷ es) ≡ true)
          (λ r. (all is_known (e ∷ es) ≡ true) × (r.event_count ≡ length (e ∷ es)))
          (replay_each F V true (e ∷ es) (no_progress F V)) _
          (strict-known (e ∷ es) (no_progress F V)) (λ p k. (k, refl)))
