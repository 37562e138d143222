-- ===== src/World/Node.antt =====
-- simulation/nodes/world_initializer.py: the node, which builds the world and the participants from a
-- snapshot and publishes what it has built.
use mathlib.Core.Option.{Option, none, some}
use mathlib.Core.List.{List, [], ◌++◌, map}
use younggeul.Prelude.{ℕ, pos, String, Dict, length}
use younggeul.Errors.{Result, ◌>>=◌, require, value_error}
use younggeul.Floats.{FloatOps}
use younggeul.State.{SnapshotRef, ParticipantState}
use younggeul.Gold.{GoldDistrictMonthlyMetrics, BaselineForecast}
use younggeul.Events.{EventStore}
use younggeul.Simulation.{Payload, GraphState, Simulation, emit, world_initialized}
use younggeul.World.{Built, metrics_by_gu, forecast_by_gu, build_world, previous_month}
use younggeul.World.Participants.{ParticipantRosterSpec, build_participants}

-- The port through which a snapshot is read.
pub record SnapshotReader (F : FloatOps) : Type 0 where
  pub get_latest_metrics : SnapshotRef → List String → Result (List (GoldDistrictMonthlyMetrics F))
  pub get_baseline_forecasts : SnapshotRef → List String → Result (List (BaselineForecast F))

module _ (F : FloatOps) (draw_32 : String → ℕ → ℕ) (reader : SnapshotReader F) where
  -- What the node reads of the state besides that of the loop: the roster as it is validated.
  pub record Given : Type 0 where
    pub snapshot : Option SnapshotRef
    pub participant_roster : Option (Result (ParticipantRosterSpec F))

  unfoldable pub initial_world : SnapshotRef → List String → Result (Built F)
  unfolding metrics_by_gu forecast_by_gu build_world
  initial_world snapshot target_gus = do
    metrics ← reader.get_latest_metrics snapshot target_gus
    forecasts ← reader.get_baseline_forecasts snapshot target_gus
    build_world F (metrics_by_gu F metrics []) (forecast_by_gu F forecasts []) target_gus ([], [])

  module _ (store : EventStore (Payload F)) (env : ℕ → String × ℕ) where
    abbrev pub initialized : GraphState F → Built F → Dict (ParticipantState F) → GraphState F
    initialized g (world, warnings) participants = record g {
      world = some world;
      participants = participants;
      round_no = pos 0;
      market_actions = [];
      last_outcome = none;
      warnings = g.warnings ++ warnings;
    }

    unfoldable pub world_initializer :
        Given → Simulation F store env → Result (Simulation F store env)
    unfolding initial_world build_participants previous_month emit
    world_initializer given s = do
      scenario ←
          require s.state.scenario (value_error "scenario is required before world_initializer")
      raw ←
          require given.participant_roster
            (value_error "participant_roster is required before world_initializer")
      snapshot ←
          require given.snapshot (value_error "snapshot is required before world_initializer")
      run_meta ←
          require s.state.run_meta
            (value_error "run_meta is required before emitting simulation events")
      roster ← raw
      built ← initial_world snapshot scenario.target_gus
      participants ←
          build_participants F draw_32 roster snapshot.dataset_snapshot_id scenario.scenario_name
            built.0
      emit F store env run_meta "WORLD_INITIALIZED"
          (world_initialized
            (map (λ e. (e.0, (e.1.current_median_price, e.1.current_volume))) built.0)
            (length participants) (previous_month scenario.target_period_start) built.1)
          s (initialized s.state built participants)
