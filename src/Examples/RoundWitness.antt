-- ===== src/Examples/RoundWitness.antt =====
-- The theorems on a round, applied to it.
use mathlib.Core.Path.{◌≡◌}
use mathlib.Core.Option.{some}
use mathlib.Core.List.{[]}
use native.Mathlib.Omega.{arith}
use younggeul.Prelude.{
  pos, negsuc, ◌+ℤ◌, ◌≤ℤ◌, get, has, select, any, keys, AllValues, some_of, some_of-eq,
}
use younggeul.Errors.{ok}
use younggeul.Floats.{Between}
use younggeul.State.{SegmentState, ParticipantState, IsValidSegment}
use younggeul.Rounds.{SegmentDelta, ParticipantDelta}
use younggeul.Resolver.Buckets.{collect, empty_bucket}
use younggeul.Resolver.Buckets.Complete.{collect_complete, aims_at, bucket_at, warnings_of}
use younggeul.Resolver.Buckets.Filled.{IsFilled}
use younggeul.Resolver.Matching.Solvency.{IsSolvent}
use younggeul.Resolver.Round.{ResolveRoundResult, pure_resolve_round}
use younggeul.Resolver.Round.Correct.{
  capital_sum, holdings_sum, resolve_round_total, resolve_round-conserves, resolve_round-exact,
  resolve_round-AllSolvent,
}
use younggeul.Resolver.Round.Deltas.{
  resolve_round-segment_delta, resolve_round-world, resolve_round-participant_delta,
}
use younggeul.Examples.Fixed.{fixed, fixed_laws}
use younggeul.Examples.Round.{
  world, people, actions, ended, after, has_seller, valid, solvent, buyer_there,
}

resolve_round_total_example :
    (r : ResolveRoundResult fixed) × (pure_resolve_round fixed world people actions (pos 1) ≡ ok r)
resolve_round_total_example =
    resolve_round_total fixed world people actions (pos 1) fixed_laws valid solvent (omega arith)

resolve_round-AllSolvent_example :
    (keys after.new_participants ≡ keys people) × AllValues (IsSolvent fixed) after.new_participants
resolve_round-AllSolvent_example =
    resolve_round-AllSolvent fixed world people actions (pos 1) after ended.1 solvent

resolve_round-conserves_example :
    (capital_sum fixed after.new_participants ≤ℤ capital_sum fixed people)
    × (holdings_sum fixed people ≤ℤ holdings_sum fixed after.new_participants)
    × (holdings_sum fixed after.new_participants
        ≤ℤ holdings_sum fixed people +ℤ pos after.outcome.market_actions_resolved)
resolve_round-conserves_example =
    resolve_round-conserves fixed world people actions (pos 1) after ended.1

resolve_round-exact_example :
    (capital_sum fixed after.new_participants ≡ capital_sum fixed people)
    × (holdings_sum fixed after.new_participants ≡ holdings_sum fixed people)
resolve_round-exact_example =
    resolve_round-exact fixed world people actions (pos 1) after ended.1 has_seller

abbrev buyer_delta : ParticipantDelta
buyer_delta = some_of (get after.payload.participant_deltas "b") ended.2.0

abbrev told_delta : SegmentDelta fixed
told_delta = some_of (get after.payload.segment_deltas "11680") ended.2.1

abbrev segment : SegmentState fixed
segment = some_of (get after.new_world "11680") ended.2.2

abbrev buyer_before : ParticipantState fixed
buyer_before = some_of (get people "b") buyer_there

resolve_round-participant_delta_example :
    (now : ParticipantState fixed) × (get after.new_participants "b" ≡ some now)
    × (buyer_delta.new_capital ≡ now.capital)
    × (buyer_delta.new_holdings ≡ now.holdings)
    × (now.capital ≡ buyer_before.capital +ℤ buyer_delta.capital_change)
    × (now.holdings ≡ buyer_before.holdings +ℤ buyer_delta.holdings_change)
resolve_round-participant_delta_example =
    resolve_round-participant_delta fixed world people actions (pos 1) after ended.1 "b" buyer_delta
      buyer_before (some_of-eq _ ended.2.0) (some_of-eq _ buyer_there)

resolve_round-segment_delta_example :
    (segment.current_median_price ≡ told_delta.new_median_price)
    × (segment.current_volume ≡ told_delta.new_volume)
    × (get after.outcome.price_changes "11680" ≡ some told_delta.price_change_pct)
    × (pos 1 ≤ℤ told_delta.new_median_price)
    × (pos 0 ≤ℤ told_delta.new_volume)
    × Between fixed
        (fixed.decimal (negsuc 4) 2)
        told_delta.price_change_pct
        (fixed.decimal (pos 5) 2)
resolve_round-segment_delta_example =
    resolve_round-segment_delta fixed world people actions (pos 1) after ended.1 valid "11680"
      told_delta segment (some_of-eq _ ended.2.1) (some_of-eq _ ended.2.2)

resolve_round-world_example :
    (keys after.new_world ≡ keys world)
    × AllValues (IsValidSegment fixed) after.new_world
    × (get after.new_world "11440" ≡ get world "11440")
resolve_round-world_example =
    resolve_round-world fixed world people actions (pos 1) after ended.1 valid "11440" ended.2.3

collect_complete_example :
    IsFilled fixed
      (empty_bucket fixed)
      (select (aims_at fixed world people "11680") actions)
      (bucket_at fixed "11680" (collect fixed world people actions ([], [])))
    × (has (collect fixed world people actions ([], [])).0 "11680"
        ≡ any (aims_at fixed world people "11680") actions)
    × ((collect fixed world people actions ([], [])).1 ≡ warnings_of fixed world people actions)
collect_complete_example = collect_complete fixed world people "11680" actions
