-- ===== src/Simulation/Decide.antt =====
-- The two nodes of a round never raise on a state that is ready.
use mathlib.Core.Path.{◌≡◌, refl, sym, ◌∙◌, ap}
use mathlib.Core.Bool.{true}
use mathlib.Core.Option.{Option, some}
use mathlib.Core.List.{List, [], ◌∷◌, ◌++◌, map}
use native.Mathlib.Omega.{arith}
use younggeul.Prelude.{
  ℕ, length, ℤ, pos, ◌+ℤ◌, ◌≤ℤ◌, int_laws, ltb_ℤ, not, String, Dict, keys, set_item, AllValues,
}
use younggeul.Errors.{
  ok, Returns, bind-Returns, require, require-Returns, returns_itself, value_error,
}
use younggeul.Floats.{FloatOps, FloatLaws}
use younggeul.State.{
  RunMeta, ScenarioSpec, SegmentState, ParticipantState, ActionProposal, RoundOutcome,
  IsValidSegment,
}
use younggeul.Rounds.{DecisionContext, decision_context}
use younggeul.Policies.Bounds.{default_policy_proposes}
use younggeul.Resolver.Matching.Solvency.{IsSolvent}
use younggeul.Resolver.Round.{pure_resolve_round}
use younggeul.Resolver.Round.Correct.{
  capital_sum, resolve_round_total, resolve_round-AllSolvent, resolve_round-conserves,
}
use younggeul.Resolver.Round.Deltas.{resolve_round-valid}
use younggeul.Events.{SimulationEvent, EventStore}
use younggeul.Simulation.Emit.{emit-Published}
use younggeul.Simulation.{
  GraphState, Payload, Simulation, decide_each, decide_all, resolve_target_segment,
  participant_decider, round_resolver, emit, published, decisions_made, round_resolved,
}

module _ (F : FloatOps) (laws : FloatLaws F) where
  decide_each-Returns :
      (c : DecisionContext F) (ps : Dict (ParticipantState F)) (actions : Dict (ActionProposal F))
      → pos 0 ≤ℤ c.round_no
      → Returns (λ _. Unit) (decide_each F c ps actions)
  unfolding decide_each decision_context
  decide_each-Returns c [] actions h = tt
  decide_each-Returns c ((id, p) ∷ rest) actions h =
      let passes : not (ltb_ℤ c.round_no (pos 0)) ≡ true = ground arith in
      let proposes = default_policy_proposes F laws p c p.role in
      rw (passes, proposes.1) (decide_each-Returns c rest (set_item actions id proposes.0) h)

  target :
      (w : Dict (SegmentState F)) (gus : List String)
      → (keys w ≡ [] → ⊥)
      → Returns (λ _. Unit) (resolve_target_segment F w gus)
  unfolding resolve_target_segment
  target [] gus h = absurd (h refl)
  target (first ∷ w) [] h = tt
  target (first ∷ w) (gu ∷ gus) h = tt

  decide_all-Returns :
      (world : Dict (SegmentState F)) (scenario : ScenarioSpec F) (round_no : ℤ)
      (last_outcome : Option (RoundOutcome F)) (ps : Dict (ParticipantState F))
      → (keys world ≡ [] → ⊥)
      → pos 0 ≤ℤ round_no
      → Returns (λ _. Unit) (decide_all F world scenario round_no last_outcome ps)
  unfolding decide_all
  decide_all-Returns world scenario round_no last_outcome [] some_world h = tt
  decide_all-Returns world scenario round_no last_outcome (p ∷ ps) some_world h =
      bind-Returns (λ _. Unit) _ (resolve_target_segment F world scenario.target_gus) _
        (target world scenario.target_gus some_world)
        (λ segment _. decide_each-Returns _ (p ∷ ps) [] h)

  -- What a round needs of the state: the keys are there, the world is valid and not empty, the
  -- participants are solvent, and the round number is not negative.
  pub record IsReady (s : GraphState F) : Type 0 where
    pub run_meta : RunMeta
    pub scenario : ScenarioSpec F
    pub world : Dict (SegmentState F)
    pub has_run_meta : s.run_meta ≡ some run_meta
    pub has_scenario : s.scenario ≡ some scenario
    pub has_world : s.world ≡ some world
    pub some_world : keys world ≡ [] → ⊥
    pub valid : AllValues (IsValidSegment F) world
    pub solvent : AllValues (IsSolvent F) s.participants
    pub round_no : pos 0 ≤ℤ s.round_no

  round-Returns :
      (world : Dict (SegmentState F)) (participants : Dict (ParticipantState F))
      (actions : Dict (ActionProposal F)) (round_no : ℤ)
      → AllValues (IsValidSegment F) world
      → AllValues (IsSolvent F) participants
      → pos 0 ≤ℤ round_no
      → Returns
          (λ r. pure_resolve_round F world participants actions round_no ≡ ok r)
          (pure_resolve_round F world participants actions round_no)
  round-Returns world participants actions round_no valid solvent h =
      returns_itself _
        (resolve_round_total F world participants actions round_no laws valid solvent h).1

  -- What the two nodes do to the state.
  pub record Decided (s s' : GraphState F) : Type 0 where
    pub ready : IsReady s'
    pub participants : s'.participants ≡ s.participants
    pub round_no : s'.round_no ≡ s.round_no +ℤ pos 1
    pub max_rounds : s'.max_rounds ≡ s.max_rounds

  pub record Resolved (s s' : GraphState F) : Type 0 where
    pub ready : IsReady s'
    pub capital : capital_sum F s'.participants ≤ℤ capital_sum F s.participants
    pub round_no : s'.round_no ≡ s.round_no
    pub max_rounds : s'.max_rounds ≡ s.max_rounds

  module _ (store : EventStore (Payload F)) (env : ℕ → String × ℕ) where
    emit-Returns :
        (P : Simulation F store env → Type 0) (run_meta : RunMeta) (event_type : String)
        (payload : Payload F) (s : Simulation F store env) (new : GraphState F)
        → pos 0 ≤ℤ new.round_no
        → ((e : SimulationEvent (Payload F)) → P (published F store env s new e))
        → Returns P (emit F store env run_meta event_type payload s new)
    emit-Returns P run_meta event_type payload s new h k =
        emit-Published F store env P run_meta event_type payload s new h (λ e _. k e)

    pub decider-Decided :
        (s : Simulation F store env)
        → IsReady s.state
        → Returns (λ s'. Decided s.state s'.state) (participant_decider F store env s)
    unfolding participant_decider
    decider-Decided s v =
        let next : pos 0 ≤ℤ s.state.round_no +ℤ pos 1 = omega (int_laws, v.round_no) in
        let P = λ (s' : Simulation F store env). Decided s.state s'.state in
        bind-Returns _ P (require s.state.run_meta (value_error "run_meta is required")) _
          (require-Returns _ _ v.has_run_meta)
          λ run_meta meta.
            bind-Returns _ P (require s.state.world (value_error "world is required")) _
              (require-Returns _ _ v.has_world)
              λ world w.
                bind-Returns _ P (require s.state.scenario (value_error "scenario is required")) _
                  (require-Returns _ _ v.has_scenario)
                  λ scenario sc.
                    bind-Returns (λ _. Unit) P
                      (decide_all F world scenario (s.state.round_no +ℤ pos 1) s.state.last_outcome
                        s.state.participants)
                      _
                      (decide_all-Returns world scenario _ s.state.last_outcome s.state.participants
                        (rw w.1 v.some_world) next)
                      λ actions _.
                        emit-Returns P run_meta "DECISIONS_MADE"
                          (decisions_made (s.state.round_no +ℤ pos 1)
                            (map (λ e. (e.0, (e.1.action_type, e.1.target_segment))) actions)
                            (length actions))
                          s
                          (record s.state {
                            round_no = s.state.round_no +ℤ pos 1;
                            market_actions = actions;
                          })
                          next
                          λ e. record {
                            ready = record {
                              run_meta = run_meta;
                              scenario = scenario;
                              world = world;
                              has_run_meta = meta.0;
                              has_scenario = sc.0;
                              has_world = w.0;
                              some_world = rw w.1 v.some_world;
                              valid = rw w.1 v.valid;
                              solvent = v.solvent;
                              round_no = next;
                            };
                            participants = refl;
                            round_no = refl;
                            max_rounds = refl;
                          }

    pub resolver-Resolved :
        (s : Simulation F store env)
        → IsReady s.state
        → Returns (λ s'. Resolved s.state s'.state) (round_resolver F store env s)
    unfolding round_resolver
    resolver-Resolved s v =
        let P = λ (s' : Simulation F store env). Resolved s.state s'.state in
        bind-Returns _ P (require s.state.run_meta (value_error "run_meta is required")) _
          (require-Returns _ _ v.has_run_meta)
          λ run_meta meta.
            bind-Returns _ P (require s.state.world (value_error "world is required")) _
              (require-Returns _ _ v.has_world)
              λ world w.
                bind-Returns _ P
                  (pure_resolve_round F world s.state.participants s.state.market_actions
                    s.state.round_no)
                  _
                  (round-Returns world s.state.participants s.state.market_actions s.state.round_no
                    (rw w.1 v.valid) v.solvent v.round_no)
                  λ r e.
                    let (same, solvent) =
                      resolve_round-AllSolvent F world s.state.participants s.state.market_actions
                        s.state.round_no r e v.solvent in
                    let (same_world, valid) =
                      resolve_round-valid F world s.state.participants s.state.market_actions
                        s.state.round_no r e (rw w.1 v.valid) in
                    emit-Returns P run_meta "ROUND_RESOLVED" (round_resolved r.payload) s
                      (record s.state {
                        world = some r.new_world;
                        participants = r.new_participants;
                        last_outcome = some r.outcome;
                        warnings = s.state.warnings ++ r.warnings;
                      })
                      v.round_no
                      λ event. record {
                        ready = record {
                          run_meta = run_meta;
                          scenario = v.scenario;
                          world = r.new_world;
                          has_run_meta = meta.0;
                          has_scenario = v.has_scenario;
                          has_world = refl;
                          some_world = λ h. v.some_world (ap keys (sym w.1) ∙ sym same_world ∙ h);
                          valid = valid;
                          solvent = solvent;
                          round_no = v.round_no;
                        };
                        capital =
                            (resolve_round-conserves F world s.state.participants
                              s.state.market_actions s.state.round_no r e).0;
                        round_no = refl;
                        max_rounds = refl;
                      }
