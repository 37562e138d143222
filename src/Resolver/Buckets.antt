-- ===== src/Resolver/Buckets.antt =====
-- `pure_resolve_round`, the first loop: the actions that count, by the segment that they aim at.
pub mod Counted
pub mod Filled
pub mod Complete
use mathlib.Core.Option.{Option, none, some}
use mathlib.Core.List.{List, [], ◌∷◌, ◌++◌}
use younggeul.Prelude.{ℕ, ◌+◌, pos, String, Dict, get, has, set_item, if◌then◌else◌}
use younggeul.Errors.{ok, err}
use younggeul.Floats.{FloatOps}
use younggeul.State.{ActionProposal, ActionType, buy, sell, ParticipantState, SegmentState}
use younggeul.Rounds.{validate_v01_action}

pub record Bucket (F : FloatOps) : Type 0 where
  pub actions : List (ActionProposal F)
  pub buyers : List String
  pub sellers : List String
  pub buy_count : ℕ
  pub sell_count : ℕ
  pub buy_intensity_sum : F.Float
  pub sell_intensity_sum : F.Float

-- The warnings of the nodes up to the loop, by their format and arguments.
pub data Warning : Type 0 where
  unknown_participant : (participant_id : String) → Warning
  unsupported_action : ActionType → (participant_id : String) → Warning
  unknown_gu : (gu_code : String) → Warning
  no_gold_metrics : (gu_code : String) → Warning

module _ (F : FloatOps) where
  open F use {add, decimal}

  abbrev pub empty_bucket : Bucket F
  empty_bucket = record {
    actions = [];
    buyers = [];
    sellers = [];
    buy_count = 0;
    sell_count = 0;
    buy_intensity_sum = decimal (pos 0) 1;
    sell_intensity_sum = decimal (pos 0) 1;
  }

  -- `by_segment.setdefault(segment_code, {...})`
  abbrev pub bucket_of : Option (Bucket F) → Bucket F
  bucket_of none = empty_bucket
  bucket_of (some b) = b

  abbrev pub count_side : ActionType → String → ActionProposal F → Bucket F → Bucket F
  count_side buy id a b = record b {
    buyers = b.buyers ++ id ∷ [];
    buy_count = b.buy_count + 1;
    buy_intensity_sum = add b.buy_intensity_sum a.confidence;
  }
  count_side sell id a b = record b {
    sellers = b.sellers ++ id ∷ [];
    sell_count = b.sell_count + 1;
    sell_intensity_sum = add b.sell_intensity_sum a.confidence;
  }
  count_side _ id a b = b

  unfoldable pub put_action : String → ActionProposal F → Bucket F → Bucket F
  put_action id a b = count_side a.action_type id a (record b { actions = b.actions ++ a ∷ [] })

  module _ (world : Dict (SegmentState F)) (participants : Dict (ParticipantState F)) where
    -- One pass of the loop, over the buckets and the warnings so far.
    unfoldable pub collect_action :
        String → ActionProposal F → Dict (Bucket F) × List Warning → Dict (Bucket F) × List Warning
    unfolding put_action validate_v01_action
    collect_action id a (buckets, warnings) =
        if has participants id
        then elim (validate_v01_action F a) [
          | err e ↦ (buckets, warnings ++ unsupported_action a.action_type id ∷ [])
          | ok _ ↦
              let code = a.target_segment in
              if has world code
              then (
                set_item buckets code (put_action id a (bucket_of (get buckets code))),
                warnings,
              )
              else (buckets, warnings ++ unknown_gu code ∷ [])
        ]
        else (buckets, warnings ++ unknown_participant id ∷ [])

    unfoldable pub collect :
        Dict (ActionProposal F) → Dict (Bucket F) × List Warning → Dict (Bucket F) × List Warning
    collect [] acc = acc
    collect ((id, a) ∷ rest) acc = collect rest (collect_action id a acc)
