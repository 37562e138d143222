-- ===== src/Examples/Proposals.antt =====
-- The theorem on the policies, applied to an investor in a rising market.
use mathlib.Core.Path.{◌≡◌}
use mathlib.Core.Bool.{true}
use mathlib.Core.Option.{none}
use mathlib.Core.List.{[], ◌∷◌}
use younggeul.Prelude.{pos}
use younggeul.Errors.{ok}
use younggeul.Floats.{Between}
use younggeul.State.{SegmentState, ParticipantState, ActionProposal, investor, neutral, up}
use younggeul.Rounds.{DecisionContext, is_v01}
use younggeul.Policies.{get_default_policy, zero_float, one_float}
use younggeul.Policies.Bounds.{Affordable, default_policy_proposes}
use younggeul.Examples.Fixed.{fixed, fixed_laws}

abbrev segment : SegmentState fixed
segment = record {
  gu_code = "11680";
  gu_name = "Gangnam-gu";
  current_median_price = pos 1000;
  current_volume = pos 10;
  price_trend = up;
  sentiment_index = pos 700;
  supply_pressure = pos 0;
}

abbrev participant : ParticipantState fixed
participant = record {
  participant_id = "i";
  role = investor;
  capital = pos 5000;
  holdings = pos 0;
  sentiment = neutral;
  risk_tolerance = pos 500;
}

abbrev context : DecisionContext fixed
context = record {
  round_no = pos 1;
  segment = segment;
  scenario = record {
    scenario_name = "base";
    target_gus = "11680" ∷ [];
    target_period_start = record { year = 2026; month = 1; day = 1 };
    target_period_end = record { year = 2026; month = 3; day = 1 };
    shocks = [];
  };
  last_outcome = none;
  active_shocks = [];
  governance_modifiers = [];
}

default_policy_proposes_example :
    (a : ActionProposal fixed) × (get_default_policy fixed investor participant context ≡ ok a)
    × (a.agent_id ≡ participant.participant_id)
    × (a.round_no ≡ context.round_no)
    × (a.target_segment ≡ context.segment.gu_code)
    × Between fixed (zero_float fixed) a.confidence (one_float fixed)
    × (is_v01 a.action_type ≡ true)
    × Affordable participant a.action_type
default_policy_proposes_example =
    default_policy_proposes fixed fixed_laws participant context investor
