-- ===== src/Policies.antt =====
-- simulation/policies: the five heuristic policies, and the registry that gives a role its policy.
-- A role is one of the `Literal`, so the registry's `ValueError` for another text has no case here.
pub mod Bounds
use mathlib.Core.Bool.{Bool, true, false, ◌&&◌}
use mathlib.Core.Option.{Option, none, some}
use mathlib.Core.List.{List, [], ◌∷◌}
use younggeul.Prelude.{ℕ, ℤ, pos, ltb_ℤ, not, String, Dict, if◌then◌else◌}
use younggeul.Errors.{Result, ok, ◌>>=◌}
use younggeul.Floats.{FloatOps, clamp}
use younggeul.State.{
  SegmentState, ParticipantState, Role, buyer, investor, tenant, landlord, broker, Trend, up, down,
  flat, ActionProposal, ActionType, buy, sell, hold, action_proposal,
}
use younggeul.Rounds.{DecisionContext, validate_v01_action}

module _ (F : FloatOps) where
  open F use {Float, sub, mul, lt, decimal}

  abbrev pub zero_float : Float
  zero_float = decimal (pos 0) 1

  abbrev pub one_float : Float
  one_float = decimal (pos 10) 1

  -- `_proposal`
  unfoldable pub proposal :
      ParticipantState F
      → DecisionContext F
      → ActionType
      → Float
      → String
      → Option (Dict ℤ)
      → Result (ActionProposal F)
  unfolding action_proposal validate_v01_action
  proposal p context action_type confidence reasoning_summary proposed_value = do
    action ← action_proposal F (record {
      agent_id = p.participant_id;
      round_no = context.round_no;
      action_type = action_type;
      target_segment = context.segment.gu_code;
      confidence = clamp F confidence zero_float one_float;
      reasoning_summary = reasoning_summary;
      proposed_value = proposed_value;
    })
    _ ← validate_v01_action F action
    ok action

  abbrev pub is_up : Trend → Bool
  is_up up = true
  is_up _ = false

  abbrev pub is_down : Trend → Bool
  is_down down = true
  is_down _ = false

  abbrev pub max_budget : ParticipantState F → Option (Dict ℤ)
  max_budget p = some (("max_budget", p.capital) ∷ [])

  module _ (p : ParticipantState F) (context : DecisionContext F) where
    unfoldable pub buyer_decide : Result (ActionProposal F)
    unfolding proposal
    buyer_decide =
        let segment = context.segment in
        let should_buy =
          lt (decimal (pos 5) 1) segment.sentiment_index
          && (not (is_down segment.price_trend) && ltb_ℤ (pos 0) p.capital) in
        let intensity = mul p.risk_tolerance segment.sentiment_index in
        if should_buy
        then proposal p context buy intensity
            "Buyer entering due to positive sentiment and non-downtrend." (max_budget p)
        else proposal p context hold zero_float
            "Buyer holding due to weak setup or no available capital." none

    unfoldable pub investor_decide : Result (ActionProposal F)
    unfolding proposal
    investor_decide =
        let segment = context.segment in
        if is_up segment.price_trend && lt (decimal (pos 6) 1) segment.sentiment_index
        then proposal p context buy (mul p.risk_tolerance segment.sentiment_index)
            "Investor buying into sustained uptrend and strong sentiment." (max_budget p)
        else if is_down segment.price_trend && ltb_ℤ (pos 0) p.holdings
        then proposal p context sell (mul p.risk_tolerance (sub one_float segment.sentiment_index))
            "Investor reducing exposure on downtrend with inventory available." none
        else proposal p context hold zero_float
            "Investor holding due to non-actionable trend/sentiment mix." none

    unfoldable pub tenant_decide : Result (ActionProposal F)
    unfolding proposal
    tenant_decide = proposal p context hold zero_float "Tenant holding — no buy/sell in v0.1" none

    unfoldable pub landlord_decide : Result (ActionProposal F)
    unfolding proposal
    landlord_decide =
        let sentiment_index = context.segment.sentiment_index in
        let intensity = mul (sub one_float sentiment_index) p.risk_tolerance in
        if lt sentiment_index (decimal (pos 3) 1) && ltb_ℤ (pos 0) p.holdings
        then proposal p context sell intensity
            "Landlord selling into low sentiment to reduce downside risk." none
        else proposal p context hold zero_float
            "Landlord holding while sentiment/holdings do not justify selling." none

    unfoldable pub broker_decide : Result (ActionProposal F)
    unfolding proposal
    broker_decide =
        proposal p context hold zero_float "Broker holding — facilitator role in v0.1" none

  -- A policy is its `decide`.
  abbrev pub Policy : Type 0
  Policy = ParticipantState F → DecisionContext F → Result (ActionProposal F)

  -- `_POLICY_MAP[role]`
  abbrev pub get_default_policy : Role → Policy
  get_default_policy buyer = buyer_decide
  get_default_policy investor = investor_decide
  get_default_policy tenant = tenant_decide
  get_default_policy landlord = landlord_decide
  get_default_policy broker = broker_decide
