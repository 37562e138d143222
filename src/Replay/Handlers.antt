-- ===== src/Replay/Handlers.antt =====
-- simulation/replay/engine.py: one handler per type of event, and the loop over the events.
use mathlib.Core.Bool.{Bool, true, false, ◌&&◌}
use mathlib.Core.Option.{Option, none, some}
use mathlib.Core.List.{List, [], ◌∷◌, ◌++◌}
use Prim.Native.String.{◌++◌ as ◌+++◌}
use text.Mathlib.Text.{◌==◌}
use younggeul.Prelude.{ℕ, ℤ, pos, String, Dict, get, length, is_some, if◌then◌else◌}
use younggeul.Errors.{replay_error, Result, ok, err, ◌>>=◌, require}
use younggeul.Floats.{FloatOps}
use younggeul.Events.{SimulationEvent, EventStore}
use younggeul.Replay.{
  Entries, lookup, as_int, as_str, as_dict, warning_list, dicts, ReplayedOutcome, ReplayState,
  no_state, Completeness, partial, full, ReplayResult, Validators,
}

-- `x if x is not None else default`
abbrev pub or_value {ℓ} : {A : Type ℓ} → A → Option A → A
or_value default none = default
or_value default (some a) = a

-- The first value that is there.
abbrev pub or_kept {ℓ} : {A : Type ℓ} → Option A → Option A → Option A
or_kept (some a) kept = some a
or_kept none kept = kept

module _ (F : FloatOps) (V : Validators F) where
  abbrev pub Event : Type 0
  Event = SimulationEvent Entries

  -- `_append_warnings`
  abbrev pub append_warnings : ReplayState F → List String → ReplayState F
  append_warnings s [] = s
  append_warnings s (w ∷ ws) = record s { warnings = some (or_value [] s.warnings ++ w ∷ ws) }

  unfoldable pub handle_intake_planned : ReplayState F → Event → Result (ReplayState F)
  unfolding lookup
  handle_intake_planned s e = do
    plan ← require (V.intake_plan e.payload) (replay_error "Invalid INTAKE_PLANNED payload")
    ok (record s {
      intake_plan = some plan;
      user_query = or_kept (as_str (lookup plan "user_query")) s.user_query;
    })

  unfoldable pub handle_scenario_built : ReplayState F → Event → Result (ReplayState F)
  unfolding lookup warning_list
  handle_scenario_built s e = do
    raw_scenario ←
        require (as_dict (lookup e.payload "scenario"))
          (replay_error "Invalid SCENARIO_BUILT payload: missing scenario")
    scenario ←
        require (V.scenario_spec raw_scenario)
          (replay_error "Invalid SCENARIO_BUILT scenario payload")
    roster ←
        require (as_dict (lookup e.payload "participant_roster"))
          (replay_error "Invalid SCENARIO_BUILT payload: missing participant_roster")
    max_rounds ←
        require (as_int (lookup e.payload "max_rounds"))
          (replay_error "Invalid SCENARIO_BUILT payload: missing max_rounds")
    ok (
        append_warnings
          (record s {
            scenario = some scenario;
            participant_roster = some roster;
            max_rounds = some max_rounds;
          })
          (warning_list e.payload))

  unfoldable pub handle_world_initialized : ReplayState F → Event → Result (ReplayState F)
  unfolding warning_list
  handle_world_initialized s e = ok (append_warnings s (warning_list e.payload))

  unfoldable pub handle_decisions_made : ReplayState F → Event → Result (ReplayState F)
  unfolding lookup
  handle_decisions_made s e = ok (record s {
    round_no = or_kept (as_int (lookup e.payload "round_no")) s.round_no;
    market_actions = or_kept (as_dict (lookup e.payload "action_summary")) s.market_actions;
  })

  abbrev pub replayed_outcome : Option ℤ → Option ℤ → Option String → Option (ReplayedOutcome F)
  replayed_outcome round_no (some transactions) (some summary) = some (record {
    round_no = or_value (pos 0) round_no;
    cleared_volume = [];
    price_changes = [];
    governance_applied = [];
    market_actions_resolved = transactions;
  })
  replayed_outcome round_no _ _ = none

  unfoldable pub handle_round_resolved : ReplayState F → Event → Result (ReplayState F)
  unfolding lookup warning_list
  handle_round_resolved s e =
      let round_no = as_int (lookup e.payload "round_no") in
      ok (
        append_warnings
          (record s {
            round_no = or_kept round_no s.round_no;
            last_outcome =
                or_kept
                  (replayed_outcome round_no (as_int (lookup e.payload "transactions_count"))
                    (as_str (lookup e.payload "summary")))
                  s.last_outcome;
          })
          (warning_list e.payload))

  unfoldable pub handle_simulation_completed : ReplayState F → Event → Result (ReplayState F)
  unfolding lookup
  handle_simulation_completed s e =
      ok (record s { round_no = or_kept (as_int (lookup e.payload "total_rounds")) s.round_no })

  abbrev pub Handler : Type 0
  Handler = ReplayState F → Event → Result (ReplayState F)

  -- `HANDLERS`
  abbrev pub handlers : Dict Handler
  handlers =
      ("INTAKE_PLANNED", handle_intake_planned)
      ∷ ("SCENARIO_BUILT", handle_scenario_built)
      ∷ ("WORLD_INITIALIZED", handle_world_initialized)
      ∷ ("DECISIONS_MADE", handle_decisions_made)
      ∷ ("ROUND_RESOLVED", handle_round_resolved)
      ∷ ("SIMULATION_COMPLETED", handle_simulation_completed)
      ∷ []

  -- What the loop over the events keeps.
  pub record Progress : Type 0 where
    pub state : ReplayState F
    pub replay_warnings : List String
    pub world_summary : Option (Dict Entries)
    pub participant_count : Option ℤ
    pub anchor_period : Option String

  abbrev pub summary_of : Option Entries → Option (Dict Entries)
  summary_of none = none
  summary_of (some d) = some (dicts d)

  -- `if event.event_type == "WORLD_INITIALIZED": …`
  abbrev pub noted : Progress → Event → ReplayState F → Progress
  noted p e state =
      if e.event_type == "WORLD_INITIALIZED"
      then record p {
        state = state;
        world_summary =
            or_kept (summary_of (as_dict (lookup e.payload "world_summary"))) p.world_summary;
        participant_count =
            or_kept (as_int (lookup e.payload "participant_count")) p.participant_count;
        anchor_period = or_kept (as_str (lookup e.payload "anchor_period")) p.anchor_period;
      }
      else record p { state = state }

  abbrev pub skip_or_raise : Bool → Progress → Event → Result Progress
  skip_or_raise true p e = err (replay_error "Unknown event type")
  skip_or_raise false p e = ok (record p {
    replay_warnings =
        p.replay_warnings
        ++ ("Skipped unknown event type '"
            +++ (e.event_type +++ ("' for event_id=" +++ (e.event_id +++ "."))))
          ∷ [];
  })

  abbrev pub handle_with : Option Handler → Bool → Progress → Event → Result Progress
  handle_with none strict p e = skip_or_raise strict p e
  handle_with (some handler) strict p e = do state ← handler p.state e; ok (noted p e state)

  unfoldable pub replay_each : Bool → List Event → Progress → Result Progress
  unfolding get
  replay_each strict [] p = ok p
  replay_each strict (e ∷ es) p = do
    p' ← handle_with (get handlers e.event_type) strict p e
    replay_each strict es p'

  abbrev pub no_progress : Progress
  no_progress = record {
    state = no_state;
    replay_warnings = [];
    world_summary = none;
    participant_count = none;
    anchor_period = none;
  }

  abbrev pub has_full_core : ReplayState F → Bool
  has_full_core s =
      is_some s.intake_plan
      && is_some s.scenario
      && is_some s.participant_roster
      && is_some s.max_rounds

  unfoldable pub completeness_of : Progress → Completeness
  completeness_of p =
      if has_full_core p.state
        && is_some p.world_summary
        && is_some p.participant_count
        && is_some p.anchor_period
      then full
      else partial

  abbrev pub replay_result : ℕ → Progress → ReplayResult F
  replay_result event_count p = record {
    state = p.state;
    completeness = completeness_of p;
    event_count = event_count;
    warnings = or_value [] p.state.warnings ++ p.replay_warnings;
    world_summary = p.world_summary;
    participant_count = p.participant_count;
    anchor_period = p.anchor_period;
  }

  abbrev pub replay_events : Bool → String → List Event → Result (ReplayResult F)
  replay_events strict run_id [] = ok (record (replay_result 0 no_progress) {
    warnings = ("No events found for run_id=" +++ (run_id +++ ".")) ∷ [];
  })
  replay_events strict run_id (e ∷ es) = do
    p ← replay_each strict (e ∷ es) no_progress
    ok (replay_result (length (e ∷ es)) p)

  module _ (store : EventStore Entries) where
    unfoldable pub replay : store.State → String → Bool → Result (ReplayResult F)
    unfolding replay_each completeness_of
    replay s run_id strict = do
      events ← store.get_events s run_id
      replay_events strict run_id events
