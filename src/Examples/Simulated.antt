-- ===== src/Examples/Simulated.antt =====
-- The theorem on the loop, applied to a simulation of at most three rounds.
use mathlib.Core.Path.{◌≡◌, refl}
use mathlib.Core.Option.{none, some}
use mathlib.Core.List.{[], ◌∷◌}
use native.Mathlib.Omega.{arith}
use younggeul.Prelude.{ℕ, pos, ◌≤ℤ◌, max_ℤ, int_laws, String}
use younggeul.Errors.{ok}
use younggeul.State.{RunMeta, ScenarioSpec}
use younggeul.Events.{EventStore}
use younggeul.Events.Memory.{memory_store}
use younggeul.Resolver.Round.Correct.{capital_sum}
use younggeul.Simulation.{Payload, Simulation, play}
use younggeul.Simulation.Decide.{IsReady}
use younggeul.Simulation.Ends.{simulation_ends}
use younggeul.Examples.Fixed.{fixed, fixed_laws}
use younggeul.Examples.Round.{world, people, valid, solvent}

abbrev store : EventStore (Payload fixed)
store = memory_store (Payload fixed)

abbrev env : ℕ → String × ℕ
env n = ("event", n)

abbrev pub meta : RunMeta
meta = record {
  run_id = "run";
  run_name = "example";
  created_at = 0;
  model_id = "stub";
  config_hash = none;
}

abbrev pub scenario : ScenarioSpec fixed
scenario = record {
  scenario_name = "base";
  target_gus = "11680" ∷ [];
  target_period_start = record { year = 2026; month = 1; day = 1 };
  target_period_end = record { year = 2026; month = 3; day = 1 };
  shocks = [];
}

abbrev simulation : Simulation fixed store env
simulation = record {
  state = record {
    run_meta = some meta;
    scenario = some scenario;
    round_no = pos 0;
    max_rounds = pos 3;
    world = some world;
    participants = people;
    market_actions = [];
    last_outcome = none;
    event_refs = [];
    warnings = [];
  };
  events = [];
  ticks = 0;
}

simulation-IsReady : IsReady fixed fixed_laws simulation.state
simulation-IsReady = record {
  run_meta = meta;
  scenario = scenario;
  world = world;
  has_run_meta = refl;
  has_scenario = refl;
  has_world = refl;
  some_world = λ h. cc;
  valid = valid;
  solvent = solvent;
  round_no = omega arith;
}

simulation_ends_example :
    (s' : Simulation fixed store env) × (play fixed store env 3 simulation ≡ some (ok s'))
    × IsReady fixed fixed_laws s'.state
    × (capital_sum fixed s'.state.participants ≤ℤ capital_sum fixed simulation.state.participants)
    × (simulation.state.round_no ≤ℤ s'.state.round_no)
    × (s'.state.round_no ≤ℤ max_ℤ simulation.state.round_no simulation.state.max_rounds)
simulation_ends_example =
    simulation_ends fixed fixed_laws store env 3 simulation simulation-IsReady (omega int_laws)
