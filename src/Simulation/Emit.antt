-- ===== src/Simulation/Emit.antt =====
-- simulation/graph.py: the end of a node, which publishes its event.
use mathlib.Core.Path.{◌≡◌, refl}
use mathlib.Core.Bool.{true}
use native.Mathlib.Omega.{arith}
use younggeul.Prelude.{ℕ, pos, ◌≤ℤ◌, ltb_ℤ, not, String}
use younggeul.Errors.{Returns}
use younggeul.Floats.{FloatOps}
use younggeul.State.{RunMeta}
use younggeul.Events.{SimulationEvent, EventStore, simulation_event}
use younggeul.Simulation.{Payload, GraphState, Simulation, emit, published}

module _ (F : FloatOps) (store : EventStore (Payload F)) (env : ℕ → String × ℕ) where
  -- In a round that is not negative, the event is published with its payload.
  pub emit-Published :
      (P : Simulation F store env → Type 0) (run_meta : RunMeta) (event_type : String)
      (payload : Payload F) (s : Simulation F store env) (new : GraphState F)
      → pos 0 ≤ℤ new.round_no
      → ((e : SimulationEvent (Payload F))
          → e.payload ≡ payload
          → P (published F store env s new e))
      → Returns P (emit F store env run_meta event_type payload s new)
  unfolding emit simulation_event
  emit-Published P run_meta event_type payload s new h k =
      let passes : not (ltb_ℤ new.round_no (pos 0)) ≡ true = ground arith in rw passes (k _ refl)
