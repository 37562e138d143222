-- ===== src/Rounds.antt =====
-- simulation/schemas/round.py: the decision context, the deltas and the payload of a resolved
-- round, and the check of the action type. The summary text is kept as its format and arguments.
use mathlib.Core.Bool.{Bool, true, false}
use mathlib.Core.Option.{Option}
use mathlib.Core.List.{List}
use younggeul.Prelude.{ℕ, ℤ, pos, negsuc, ltb_ℤ, String, Dict, not}
use younggeul.Errors.{value_error, validation_error, Result, ok, ◌>>◌, guard}
use younggeul.Floats.{FloatOps, between}
use younggeul.State.{
  SegmentState, ScenarioSpec, RoundOutcome, Shock, ActionProposal, ActionType, buy, sell, hold,
}

pub record DecisionContext (F : FloatOps) : Type 0 where
  pub round_no : ℤ
  pub segment : SegmentState F
  pub scenario : ScenarioSpec F
  pub last_outcome : Option (RoundOutcome F)
  pub active_shocks : List (Shock F)
  pub governance_modifiers : Dict F.Float

pub record SegmentDelta (F : FloatOps) : Type 0 where
  pub gu_code : String
  pub price_change_pct : F.Float
  pub volume_change : ℤ
  pub new_median_price : ℤ
  pub new_volume : ℤ

pub record ParticipantDelta : Type 0 where
  pub participant_id : String
  pub capital_change : ℤ
  pub holdings_change : ℤ
  pub new_capital : ℤ
  pub new_holdings : ℤ

pub data Summary : Type 0 where
  no_participants : (round_no : ℤ) → Summary
  resolved : (round_no : ℤ) (transactions segments : ℕ) → Summary

pub record RoundResolvedPayload (F : FloatOps) : Type 0 where
  pub round_no : ℤ
  pub segment_deltas : Dict (SegmentDelta F)
  pub participant_deltas : Dict ParticipantDelta
  pub transactions_count : ℕ
  pub summary : Summary

-- `Field(ge=0)`
abbrev pub ge_zero : ℤ → String → Result (Unit {0})
ge_zero n field = guard (not (ltb_ℤ n (pos 0))) (validation_error field)

unfoldable pub participant_delta : ParticipantDelta → Result ParticipantDelta
participant_delta d = do ge_zero d.new_holdings "new_holdings"; ok d

-- `action_type in V01_ACTION_TYPES`
abbrev pub is_v01 : ActionType → Bool
is_v01 buy = true
is_v01 sell = true
is_v01 hold = true
is_v01 _ = false

module _ (F : FloatOps) where
  unfoldable pub decision_context : DecisionContext F → Result (DecisionContext F)
  decision_context c = do ge_zero c.round_no "round_no"; ok c

  unfoldable pub segment_delta : SegmentDelta F → Result (SegmentDelta F)
  segment_delta d = do
    ge_zero d.new_median_price "new_median_price"
    ge_zero d.new_volume "new_volume"
    guard (between F (F.decimal (negsuc 4) 2) d.price_change_pct (F.decimal (pos 5) 2))
        (validation_error "price_change_pct")
    ok d

  -- `transactions_count` is a number that is counted up from 0.
  unfoldable pub round_resolved_payload : RoundResolvedPayload F → Result (RoundResolvedPayload F)
  round_resolved_payload p = do ge_zero p.round_no "round_no"; ok p

  unfoldable pub validate_v01_action : ActionProposal F → Result (Unit {0})
  validate_v01_action a = guard (is_v01 a.action_type) (value_error "action_type")
