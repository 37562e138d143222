-- ===== src/Replay/Core.antt =====
-- simulation/replay/engine.py: a replay that is full stays full with further events.
use mathlib.Core.Path.{◌≡◌, refl}
use mathlib.Core.Bool.{Bool, true, false, ◌&&◌}
use mathlib.Core.Logic.{inl, inr}
use mathlib.Core.Option.{Option, none, some}
use mathlib.Core.List.{List, [], ◌∷◌}
use text.Mathlib.Text.{◌==◌}
use younggeul.Prelude.{String, get, is_some, AllValues, AllValues-get, Bool-cases, Option-cases}
use younggeul.Errors.{require, replay_error, OnOk, OnOk-any, bind-OnOk}
use younggeul.Floats.{FloatOps}
use younggeul.Replay.{ReplayState, Validators, partial, full, lookup, as_int, as_dict, warning_list}
use younggeul.Replay.Handlers.{
  Event, Handler, handlers, handle_with, skip_or_raise, Progress, noted, replay_each,
  append_warnings, has_full_core, completeness_of, or_kept, handle_intake_planned,
  handle_scenario_built, handle_world_initialized, handle_decisions_made, handle_round_resolved,
  handle_simulation_completed,
}

with_plan : (a b c d : Bool) → (a && b && c && d) ≡ true → (true && b && c && d) ≡ true
with_plan true b c d h = h
with_plan false b c d h = cc

with_scenario : (a b c d : Bool) → (a && b && c && d) ≡ true → (a && true && true && true) ≡ true
with_scenario true b c d h = refl
with_scenario false b c d h = cc

-- A value that is there stays, whether or not a new one comes.
or_kept-some {ℓ} :
    {A : Type ℓ} (new old : Option A) → is_some old ≡ true → is_some (or_kept new old) ≡ true
or_kept-some (some a) old h = refl
or_kept-some none old h = h

all_kept :
    (a b c d a' b' c' d' : Bool)
    → (a ≡ true → a' ≡ true)
    → (b ≡ true → b' ≡ true)
    → (c ≡ true → c' ≡ true)
    → (d ≡ true → d' ≡ true)
    → (a && b && c && d) ≡ true
    → (a' && b' && c' && d') ≡ true
all_kept true true true true a' b' c' d' i j k l h = rw (i refl, j refl, k refl, l refl) refl
all_kept true true true false a' b' c' d' i j k l h = cc
all_kept true true false d a' b' c' d' i j k l h = cc
all_kept true false c d a' b' c' d' i j k l h = cc
all_kept false b c d a' b' c' d' i j k l h = cc

not_full : partial ≡ full → ⊥
not_full h = cc

module _ (F : FloatOps) (V : Validators F) where
  abbrev KeepsCore : ReplayState F → ReplayState F → Type 0
  KeepsCore s s' = has_full_core F V s ≡ true → has_full_core F V s' ≡ true

  appended-KeepsCore :
      (s s' : ReplayState F) (ws : List String)
      → KeepsCore s s'
      → KeepsCore s (append_warnings F V s' ws)
  appended-KeepsCore s s' [] k h = k h
  appended-KeepsCore s s' (w ∷ ws) k h = k h

  intake-KeepsCore :
      (s : ReplayState F) (e : Event F V) → OnOk (KeepsCore s) (handle_intake_planned F V s e)
  unfolding handle_intake_planned
  intake-KeepsCore s e =
      bind-OnOk (λ _. Unit) (KeepsCore s)
        (require (V.intake_plan e.payload) (replay_error "Invalid INTAKE_PLANNED payload")) _
        (OnOk-any _) λ plan _ h. with_plan (is_some s.intake_plan) _ _ _ h

  scenario-KeepsCore :
      (s : ReplayState F) (e : Event F V) → OnOk (KeepsCore s) (handle_scenario_built F V s e)
  unfolding handle_scenario_built
  scenario-KeepsCore s e =
      let P = KeepsCore s in
      bind-OnOk (λ _. Unit) P (require (as_dict (lookup e.payload "scenario")) _) _ (OnOk-any _)
        λ raw _.
          bind-OnOk (λ _. Unit) P (require (V.scenario_spec raw) _) _ (OnOk-any _)
            λ scenario _.
              bind-OnOk (λ _. Unit) P (require (as_dict (lookup e.payload "participant_roster")) _)
                _ (OnOk-any _)
                λ roster _.
                  bind-OnOk (λ _. Unit) P (require (as_int (lookup e.payload "max_rounds")) _) _
                    (OnOk-any _)
                    λ rounds _.
                      appended-KeepsCore s _ (warning_list e.payload)
                        (λ h. with_scenario (is_some s.intake_plan) _ _ _ h)

  world-KeepsCore :
      (s : ReplayState F) (e : Event F V) → OnOk (KeepsCore s) (handle_world_initialized F V s e)
  unfolding handle_world_initialized
  world-KeepsCore s e = appended-KeepsCore s s (warning_list e.payload) (λ h. h)

  decisions-KeepsCore :
      (s : ReplayState F) (e : Event F V) → OnOk (KeepsCore s) (handle_decisions_made F V s e)
  unfolding handle_decisions_made
  decisions-KeepsCore s e h = h

  resolved-KeepsCore :
      (s : ReplayState F) (e : Event F V) → OnOk (KeepsCore s) (handle_round_resolved F V s e)
  unfolding handle_round_resolved
  resolved-KeepsCore s e = appended-KeepsCore s _ (warning_list e.payload) (λ h. h)

  completed-KeepsCore :
      (s : ReplayState F) (e : Event F V) → OnOk (KeepsCore s) (handle_simulation_completed F V s e)
  unfolding handle_simulation_completed
  completed-KeepsCore s e h = h

  abbrev IsKeeping : Handler F V → Type 0
  IsKeeping handler = (s : ReplayState F) (e : Event F V) → OnOk (KeepsCore s) (handler s e)

  handlers-IsKeeping : AllValues IsKeeping (handlers F V)
  handlers-IsKeeping = (
    intake-KeepsCore,
    (
      scenario-KeepsCore,
      (world-KeepsCore, (decisions-KeepsCore, (resolved-KeepsCore, (completed-KeepsCore, tt)))),
    ),
  )

  abbrev IsFull : Progress F V → Type 0
  IsFull p = completeness_of F V p ≡ full

  abbrev is_full : Progress F V → Bool
  is_full p =
      has_full_core F V p.state
      && is_some p.world_summary
      && is_some p.participant_count
      && is_some p.anchor_period

  is_full-true : (p : Progress F V) → IsFull p → is_full p ≡ true
  unfolding completeness_of
  is_full-true p h = elim (Bool-cases (is_full p)) [
    | inl e ↦ e
    | inr e ↦ absurd (not_full (rw e at h))
  ]

  is_full-IsFull : (p : Progress F V) → is_full p ≡ true → IsFull p
  unfolding completeness_of
  is_full-IsFull p e = rw e refl

  noted-IsFull :
      (p : Progress F V) (e : Event F V) (s : ReplayState F)
      → KeepsCore p.state s
      → IsFull p
      → IsFull (noted F V p e s)
  noted-IsFull p e s k h =
      is_full-IsFull (noted F V p e s) (elim (Bool-cases (e.event_type == "WORLD_INITIALIZED")) [
        | inl w ↦ rw w (
            all_kept (has_full_core F V p.state) _ _ _ (has_full_core F V s) _ _ _ k
              (or_kept-some _ p.world_summary) (or_kept-some _ p.participant_count)
              (or_kept-some _ p.anchor_period) (is_full-true p h))
        | inr w ↦ rw w (
            all_kept (has_full_core F V p.state) _ _ _ (has_full_core F V s) _ _ _ k (λ q. q)
              (λ q. q) (λ q. q) (is_full-true p h))
      ])

  skipped-IsFull :
      (strict : Bool) (p : Progress F V) (e : Event F V)
      → IsFull p
      → OnOk IsFull (skip_or_raise F V strict p e)
  unfolding completeness_of
  skipped-IsFull true p e h = tt
  skipped-IsFull false p e h = h

  -- Where a replay is full, it is full after any further events that it gets through, strict or not.
  pub replay_each-IsFull :
      (strict : Bool) (es : List (Event F V)) (p : Progress F V)
      → completeness_of F V p ≡ full
      → OnOk (λ q. completeness_of F V q ≡ full) (replay_each F V strict es p)
  unfolding replay_each
  replay_each-IsFull strict [] p h = h
  replay_each-IsFull strict (e ∷ es) p h =
      bind-OnOk IsFull IsFull (handle_with F V (get (handlers F V) e.event_type) strict p e) _
        (elim (Option-cases (get (handlers F V) e.event_type)) [
          | inl n ↦ rw n (skipped-IsFull strict p e h)
          | inr (handler, f) ↦
              let keeping : IsKeeping handler =
                AllValues-get IsKeeping (handlers F V) e.event_type handlers-IsKeeping f in
              rw f (
                bind-OnOk (KeepsCore p.state) IsFull (handler p.state e) _ (keeping p.state e)
                  (λ s k. noted-IsFull p e s k h))
        ])
        (λ q k. replay_each-IsFull strict es q k)
