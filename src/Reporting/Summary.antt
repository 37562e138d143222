-- ===== src/Reporting/Summary.antt =====
-- simulation/nodes/round_summarizer.py: the totals of a finished simulation.
use mathlib.Core.List.{[], map}
use younggeul.Prelude.{ℕ, ℤ, String, length, Dict}
use younggeul.Errors.{Result, ◌>>=◌, require, value_error}
use younggeul.Floats.{FloatOps}
use younggeul.State.{SegmentState}
use younggeul.Events.{EventStore}
use younggeul.Simulation.{Payload, Simulation, GraphState, emit, simulation_completed}
use younggeul.Report.{Completion}
use younggeul.Reporting.{sorted_items, or_empty, role_data}

module _ (F : FloatOps) where
  abbrev pub world_summary : Dict (SegmentState F) → Dict (ℤ × ℤ)
  world_summary = map (λ e. (e.0, (e.1.current_median_price, e.1.current_volume)))

  unfoldable pub completion : GraphState F → Completion
  unfolding role_data
  completion g = record {
    total_rounds = g.round_no;
    world_summary = world_summary (sorted_items (or_empty g.world));
    participant_summary = role_data F g.participants [];
    total_warnings = length g.warnings;
  }

  module _ (store : EventStore (Payload F)) (env : ℕ → String × ℕ) where
    unfoldable pub round_summarizer : Simulation F store env → Result (Simulation F store env)
    unfolding completion emit
    round_summarizer s = do
      run_meta ← require s.state.run_meta (value_error "run_meta is required")
      emit F store env run_meta "SIMULATION_COMPLETED" (simulation_completed (completion s.state)) s
          s.state
