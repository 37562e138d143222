-- ===== src/Examples/Round.antt =====
-- A round of two participants in one segment.
use mathlib.Core.Path.{◌≡◌, refl}
use mathlib.Core.Bool.{true}
use mathlib.Core.Option.{none}
use native.Mathlib.Omega.{arith}
use younggeul.Resolver.Matching.Solvency.{IsSolvent}
use mathlib.Core.List.{[], ◌∷◌}
use younggeul.Prelude.{
  set_item, sorted, insert_sorted, str_leb, max_ℤ, min_ℤ, ◌+ℤ◌, ◌-ℤ◌, ◌*ℤ◌, select, AllValues,
  is_some, ◌≤◌, pos, Dict, get,
}
use younggeul.Errors.{ok, Returns, Returns-value}
use younggeul.State.{
  IsValidSegment, segment_state, participant_state, SegmentState, ParticipantState, ActionProposal,
  flat, buyer, landlord, neutral, buy, sell,
}
use younggeul.Floats.{clamp, max, min}
use younggeul.Rounds.{validate_v01_action, segment_delta, participant_delta, round_resolved_payload}
use younggeul.Resolver.Buckets.{collect, collect_action, put_action}
use younggeul.Resolver.Clearing.{net_pressure, clear, price_trend_of, copy_segment}
use younggeul.Resolver.Matching.{
  match_buyers, match_buyer, try_trade, trade, sell_side, settle, copy_participant, skip_sellers,
}
use younggeul.Resolver.Round.{
  resolve_segments, resolve_segment, delta_of, match_segment, finish, changed_ids,
  participant_deltas, delta_of_participant, ResolveRoundResult, pure_resolve_round,
}
use younggeul.Examples.Fixed.{fixed}

abbrev pub world : Dict (SegmentState fixed)
world =
    (
      "11680",
      record {
        gu_code = "11680";
        gu_name = "Gangnam-gu";
        current_median_price = pos 1000;
        current_volume = pos 10;
        price_trend = flat;
        sentiment_index = pos 500;
        supply_pressure = pos 0;
      },
    )
    ∷ (
      "11440",
      record {
        gu_code = "11440";
        gu_name = "Mapo-gu";
        current_median_price = pos 800;
        current_volume = pos 5;
        price_trend = flat;
        sentiment_index = pos 500;
        supply_pressure = pos 0;
      },
    )
    ∷ []

abbrev pub people : Dict (ParticipantState fixed)
people =
    (
      "b",
      record {
        participant_id = "b";
        role = buyer;
        capital = pos 5000;
        holdings = pos 0;
        sentiment = neutral;
        risk_tolerance = pos 500;
      },
    )
    ∷ (
      "s",
      record {
        participant_id = "s";
        role = landlord;
        capital = pos 0;
        holdings = pos 2;
        sentiment = neutral;
        risk_tolerance = pos 500;
      },
    )
    ∷ []

abbrev pub actions : Dict (ActionProposal fixed)
actions =
    (
      "b",
      record {
        agent_id = "b";
        round_no = pos 1;
        action_type = buy;
        target_segment = "11680";
        confidence = pos 800;
        reasoning_summary = "";
        proposed_value = none;
      },
    )
    ∷ (
      "s",
      record {
        agent_id = "s";
        round_no = pos 1;
        action_type = sell;
        target_segment = "11680";
        confidence = pos 300;
        reasoning_summary = "";
        proposed_value = none;
      },
    )
    ∷ []

-- The round ends well, with a delta for the buyer and for its segment, and none for the other one.
abbrev pub Told : ResolveRoundResult fixed → Type 0
Told r =
    (is_some (get r.payload.participant_deltas "b") ≡ true)
    × (is_some (get r.payload.segment_deltas "11680") ≡ true)
    × (is_some (get r.new_world "11680") ≡ true)
    × (get r.payload.segment_deltas "11440" ≡ none)
    × (r.outcome.market_actions_resolved ≡ 1)

pub ends : Returns Told (pure_resolve_round fixed world people actions (pos 1))
unfolding pure_resolve_round collect collect_action put_action validate_v01_action get set_item
    sorted insert_sorted str_leb resolve_segments resolve_segment net_pressure clear price_trend_of
    clamp max min max_ℤ min_ℤ ◌+ℤ◌ ◌-ℤ◌ ◌*ℤ◌ copy_segment segment_state segment_delta delta_of
    match_segment match_buyers match_buyer try_trade trade sell_side settle copy_participant
    participant_state skip_sellers finish changed_ids select participant_deltas delta_of_participant
    participant_delta round_resolved_payload
ends = (refl, refl, refl, refl, refl)

abbrev pub ended :
    (r : ResolveRoundResult fixed) × (pure_resolve_round fixed world people actions (pos 1) ≡ ok r)
    × Told r
ended = Returns-value Told (pure_resolve_round fixed world people actions (pos 1)) ends

abbrev pub after : ResolveRoundResult fixed
after = ended.0

-- Nobody trades outside the buckets, and the one bucket has a seller.
pub has_seller : AllValues (λ b. 1 ≤ b.sell_count) (collect fixed world people actions ([], [])).0
unfolding collect collect_action put_action validate_v01_action get set_item
has_seller = (omega arith, tt)

pub valid : AllValues (IsValidSegment fixed) world
unfolding ◌*ℤ◌
valid =
    (record { sentiment = refl; supply = refl }, (record { sentiment = refl; supply = refl }, tt))

pub solvent : AllValues (IsSolvent fixed) people
unfolding ◌*ℤ◌
solvent = (
  record { risk = refl; capital = omega arith; holdings = omega arith },
  (record { risk = refl; capital = omega arith; holdings = omega arith }, tt),
)

pub buyer_there : is_some (get people "b") ≡ true
unfolding get
buyer_there = refl
