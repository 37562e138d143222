-- ===== src/Examples/Replayed.antt =====
-- The theorems on the replay engine, applied to a short log.
use mathlib.Core.Path.{◌≡◌, refl}
use mathlib.Core.Bool.{true, false}
use mathlib.Core.Option.{some}
use mathlib.Core.List.{List, [], ◌∷◌}
use younggeul.Prelude.{pos, String, get, length, all, sorted}
use younggeul.Errors.{OnOk}
use younggeul.Events.{EventStore}
use younggeul.Events.Memory.{memory_store, get_events}
use younggeul.Replay.{
  Entries, no_entries, entry, int_value, str_value, dict_value, Validators, full, no_state,
}
use younggeul.Replay.Handlers.{Event, Progress, no_progress, replay_each, replay, completeness_of}
use younggeul.Replay.Known.{is_known, known, core, replay_each-known, replay-strict}
use younggeul.Replay.Core.{replay_each-IsFull}
use younggeul.Examples.Fixed.{fixed}
use younggeul.Examples.Simulated.{scenario}

abbrev validators : Validators fixed
validators = record { intake_plan = λ d. some d; scenario_spec = λ d. some scenario }

abbrev event : String → Entries → Event fixed validators
event event_type payload = record {
  event_id = event_type;
  run_id = "run";
  round_no = pos 0;
  event_type = event_type;
  timestamp = 0;
  payload = payload;
}

abbrev initialized : Event fixed validators
initialized = event "WORLD_INITIALIZED" (
    entry "world_summary" (dict_value no_entries) (
      entry "participant_count" (int_value (pos 3))
        (entry "anchor_period" (str_value "2025-12") no_entries)))

abbrev completed : Event fixed validators
completed = event "SIMULATION_COMPLETED" (entry "total_rounds" (int_value (pos 2)) no_entries)

abbrev written : Event fixed validators
written = event "REPORT_WRITTEN" no_entries

abbrev log : List (Event fixed validators)
log = initialized ∷ completed ∷ written ∷ []

abbrev store : EventStore Entries
store = memory_store Entries

abbrev start : Progress fixed validators
start = no_progress fixed validators

replay_each-known_example :
    core fixed validators (replay_each fixed validators false log start)
    ≡ core fixed validators (
        replay_each fixed validators true
          (known fixed validators log)
          (record start { replay_warnings = [] }))
replay_each-known_example = replay_each-known fixed validators log start []

replay-strict_example :
    OnOk
      (λ r.
        (all (is_known fixed validators) (initialized ∷ []) ≡ true)
        × (r.event_count ≡ length (initialized ∷ [])))
      (replay fixed validators store (("run", initialized ∷ []) ∷ []) "run" true)
unfolding get_events get sorted
replay-strict_example =
    replay-strict fixed validators store (("run", initialized ∷ []) ∷ []) "run" (initialized ∷ [])
      refl

abbrev complete : Progress fixed validators
complete = record {
  state = record (no_state {F = fixed}) {
    intake_plan = some no_entries;
    scenario = some scenario;
    participant_roster = some no_entries;
    max_rounds = some (pos 3);
  };
  replay_warnings = [];
  world_summary = some [];
  participant_count = some (pos 3);
  anchor_period = some "2025-12";
}

replay_each-IsFull_example :
    OnOk
      (λ q. completeness_of fixed validators q ≡ full)
      (replay_each fixed validators false log complete)
unfolding completeness_of
replay_each-IsFull_example = replay_each-IsFull fixed validators false log complete refl
