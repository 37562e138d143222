-- ===== src/Simulation.antt =====
-- simulation/graph.py, the loop over the rounds, and its nodes participant_decider, round_resolver
-- and continue_gate. A key that the graph state may lack is an option, or has its default value.
-- The n-th fresh id and time are `env n`.
pub mod Decide
pub mod Emit
pub mod Ends
use mathlib.Core.Bool.{Bool, true, false}
use mathlib.Core.Option.{Option, none, some}
use mathlib.Core.List.{List, [], ◌∷◌, ◌++◌, map}
use younggeul.Prelude.{
  ℕ, zero, suc, ℤ, pos, ◌+ℤ◌, ltb_ℤ, ◌==◌, not, String, Dict, get, set_item, length, if◌then◌else◌,
}
use younggeul.Errors.{Result, ok, err, ◌>>=◌, require, value_error}
use younggeul.Floats.{FloatOps}
use younggeul.State.{
  RunMeta, ScenarioSpec, Shock, ShockType, interest_rate, regulation, supply, demand, SegmentState,
  ParticipantState, ActionProposal, ActionType, RoundOutcome,
}
use younggeul.Rounds.{DecisionContext, decision_context, RoundResolvedPayload}
use younggeul.Policies.{get_default_policy}
use younggeul.Resolver.Buckets.{Warning}
use younggeul.Resolver.Round.{ResolveRoundResult, pure_resolve_round}
use younggeul.Report.{RenderedReport, GateReport, Completion}
use younggeul.Events.{SimulationEvent, EventStore, simulation_event}

pub record GraphState (F : FloatOps) : Type 0 where
  pub run_meta : Option RunMeta
  pub scenario : Option (ScenarioSpec F)
  pub round_no : ℤ
  pub max_rounds : ℤ
  pub world : Option (Dict (SegmentState F))
  pub participants : Dict (ParticipantState F)
  pub market_actions : Dict (ActionProposal F)
  pub last_outcome : Option (RoundOutcome F)
  pub event_refs : List String
  pub warnings : List Warning

-- The payloads of the events, those of the nodes after the loop included.
pub data Payload (F : FloatOps) : Type 0 where
  decisions_made :
      (round_no : ℤ) (action_summary : Dict (ActionType × String)) (total_actions : ℕ) → Payload F
  round_resolved : RoundResolvedPayload F → Payload F
  world_initialized :
      (world_summary : Dict (ℤ × ℤ)) (participant_count : ℕ) (anchor_period : String)
      (warnings : List Warning)
      → Payload F
  simulation_completed : Completion → Payload F
  report_written : (claim_ids : List String) → Payload F
  citation_gate : GateReport → Payload F
  report_rendered : RenderedReport → Payload F

module _ (F : FloatOps) where
  -- `_SHOCK_MODIFIER_KEYS.get(shock.shock_type)`
  abbrev pub shock_modifier_key : ShockType → Option String
  shock_modifier_key interest_rate = some "interest_rate_delta"
  shock_modifier_key regulation = some "regulation_severity"
  shock_modifier_key supply = some "supply_delta"
  shock_modifier_key demand = some "demand_delta"
  shock_modifier_key _ = none

  abbrev pub modifier_or_zero : Option F.Float → F.Float
  modifier_or_zero none = F.decimal (pos 0) 1
  modifier_or_zero (some m) = m

  abbrev pub add_modifier : Option String → F.Float → Dict F.Float → Dict F.Float
  add_modifier none magnitude modifiers = modifiers
  add_modifier (some key) magnitude modifiers =
      set_item modifiers key (F.add (modifier_or_zero (get modifiers key)) magnitude)

  -- `_derive_governance_modifiers`, over the modifiers so far
  unfoldable pub derive_governance_modifiers : List (Shock F) → Dict F.Float → Dict F.Float
  derive_governance_modifiers [] modifiers = modifiers
  derive_governance_modifiers (s ∷ shocks) modifiers =
      derive_governance_modifiers shocks
        (add_modifier (shock_modifier_key s.shock_type) s.magnitude modifiers)

  abbrev pub segment_or : SegmentState F → Option (SegmentState F) → SegmentState F
  segment_or first none = first
  segment_or first (some segment) = segment

  -- `_resolve_target_segment`: the scenario's first district if the world has it, else the world's.
  unfoldable pub resolve_target_segment :
      Dict (SegmentState F) → List String → Result (SegmentState F)
  resolve_target_segment [] target_gus = err (value_error "world must contain at least one segment")
  resolve_target_segment ((code, first) ∷ world) [] = ok first
  resolve_target_segment ((code, first) ∷ world) (target_gu ∷ rest) =
      ok (segment_or first (get ((code, first) ∷ world) target_gu))

  -- The loop over the participants, over the actions so far.
  unfoldable pub decide_each :
      DecisionContext F
      → Dict (ParticipantState F)
      → Dict (ActionProposal F)
      → Result (Dict (ActionProposal F))
  unfolding decision_context
  decide_each c [] actions = ok actions
  decide_each c ((id, p) ∷ rest) actions = do
    context ← decision_context F c
    action ← get_default_policy F p.role p context
    decide_each c rest (set_item actions id action)

  -- `if participants: …`
  unfoldable pub decide_all :
      Dict (SegmentState F)
      → ScenarioSpec F
      → ℤ
      → Option (RoundOutcome F)
      → Dict (ParticipantState F)
      → Result (Dict (ActionProposal F))
  unfolding decide_each resolve_target_segment derive_governance_modifiers
  decide_all world scenario round_no last_outcome [] = ok []
  decide_all world scenario round_no last_outcome (p ∷ ps) = do
    segment ← resolve_target_segment world scenario.target_gus
    decide_each
        (record {
          round_no = round_no;
          segment = segment;
          scenario = scenario;
          last_outcome = last_outcome;
          active_shocks = scenario.shocks;
          governance_modifiers = derive_governance_modifiers scenario.shocks [];
        })
        (p ∷ ps) []

  -- `should_continue(state) == "continue"`
  abbrev pub nothing_resolved : Option (RoundOutcome F) → Bool
  nothing_resolved none = false
  nothing_resolved (some outcome) = outcome.market_actions_resolved == 0

  unfoldable pub should_continue : GraphState F → Bool
  should_continue s =
      if not (ltb_ℤ s.round_no s.max_rounds) then false else not (nothing_resolved s.last_outcome)

  module _ (store : EventStore (Payload F)) (env : ℕ → String × ℕ) where
    -- The graph's state, the event store, and how many ids are given out.
    pub record Simulation : Type 0 where
      pub state : GraphState F
      pub events : store.State
      pub ticks : ℕ

    -- The graph state after a node, with the reference to the node's event.
    abbrev pub published : Simulation → GraphState F → SimulationEvent (Payload F) → Simulation
    published s new event = record {
      state = record new { event_refs = new.event_refs ++ event.event_id ∷ [] };
      events = store.append s.events event;
      ticks = suc s.ticks;
    }

    -- The end of both nodes: the event is made and appended.
    unfoldable pub emit :
        RunMeta → String → Payload F → Simulation → GraphState F → Result Simulation
    unfolding simulation_event
    emit run_meta event_type payload s new = do
      event ← simulation_event (Payload F) (record {
        event_id = (env s.ticks).0;
        run_id = run_meta.run_id;
        round_no = new.round_no;
        event_type = event_type;
        timestamp = (env s.ticks).1;
        payload = payload;
      })
      ok (published s new event)

    unfoldable pub participant_decider : Simulation → Result Simulation
    unfolding decide_all emit
    participant_decider s = do
      run_meta ← require s.state.run_meta (value_error "run_meta is required")
      world ← require s.state.world (value_error "world is required")
      scenario ← require s.state.scenario (value_error "scenario is required")
      let round_no = s.state.round_no +ℤ pos 1
      actions ← decide_all world scenario round_no s.state.last_outcome s.state.participants
      emit run_meta "DECISIONS_MADE"
          (decisions_made round_no (map (λ e. (e.0, (e.1.action_type, e.1.target_segment))) actions)
            (length actions))
          s (record s.state { round_no = round_no; market_actions = actions })

    unfoldable pub round_resolver : Simulation → Result Simulation
    unfolding emit
    round_resolver s = do
      run_meta ← require s.state.run_meta (value_error "run_meta is required")
      world ← require s.state.world (value_error "world is required")
      r ← pure_resolve_round F world s.state.participants s.state.market_actions s.state.round_no
      emit run_meta "ROUND_RESOLVED" (round_resolved r.payload) s (record s.state {
        world = some r.new_world;
        participants = r.new_participants;
        last_outcome = some r.outcome;
        warnings = s.state.warnings ++ r.warnings;
      })

    -- An exception of a node ends the loop.
    abbrev pub after_round :
        Result Simulation → (Simulation → Option (Result Simulation)) → Option (Result Simulation)
    after_round (err e) next = some (err e)
    after_round (ok s) next = next s

    -- The loop of the graph, on fuel: `none` is a loop that has not ended yet.
    unfoldable pub run_rounds : ℕ → Simulation → Option (Result Simulation)
    unfolding participant_decider round_resolver should_continue
    run_rounds zero s = none
    run_rounds (suc fuel) s = after_round (participant_decider s >>= round_resolver) λ s'.
        let rest = run_rounds fuel s' in if should_continue s'.state then rest else some (ok s')

    -- `_should_start_rounds`, and the loop
    unfoldable pub play : ℕ → Simulation → Option (Result Simulation)
    unfolding run_rounds
    play fuel s =
        if ltb_ℤ s.state.round_no s.state.max_rounds then run_rounds fuel s else some (ok s)
