-- ===== src/Resolver/Round.antt =====
-- `pure_resolve_round`: the loop over the segments, the deltas, the outcome and the payload.
pub mod Segments
pub mod Money
pub mod World
pub mod People
pub mod Total
pub mod Finish
pub mod Whole
pub mod Correct
pub mod Deltas
use mathlib.Core.List.{List, [], ◌∷◌, ◌++◌}
use younggeul.Prelude.{
  ℕ, ℤ, ◌==◌, String, Dict, get, has, keys, set_item, select, not, sorted, str_leb, length,
}
use younggeul.Errors.{key_error, Result, ok, ◌>>=◌, require}
use younggeul.Floats.{FloatOps}
use younggeul.State.{SegmentState, ParticipantState, ActionProposal, RoundOutcome}
use younggeul.Rounds.{
  SegmentDelta, ParticipantDelta, RoundResolvedPayload, no_participants, resolved,
  participant_delta, segment_delta, round_resolved_payload,
}
use younggeul.Resolver.Buckets.{Bucket, Warning, collect}
use younggeul.Resolver.Clearing.{Clearing, clear, copy_segment}
use younggeul.Resolver.Matching.{Ledger, Matching, change_of, match_buyers}

-- The variables of the loop over the segments.
pub record Progress (F : FloatOps) : Type 0 where
  pub world : Dict (SegmentState F)
  pub ledger : Ledger F
  pub segment_deltas : Dict (SegmentDelta F)
  pub cleared_volume : Dict ℕ
  pub price_changes : Dict F.Float

pub record ResolveRoundResult (F : FloatOps) : Type 0 where
  pub new_world : Dict (SegmentState F)
  pub new_participants : Dict (ParticipantState F)
  pub outcome : RoundOutcome F
  pub payload : RoundResolvedPayload F
  pub warnings : List Warning

module _ (F : FloatOps) where
  unfoldable pub delta_of : String → Clearing F → SegmentDelta F
  delta_of gu_code c = record {
    gu_code = gu_code;
    price_change_pct = c.price_change_pct;
    volume_change = c.volume_change;
    new_median_price = c.new_median_price;
    new_volume = c.new_volume;
  }

  -- The trades of a segment: buyers and sellers in the order of their ids.
  unfoldable pub match_segment : Bucket F → Clearing F → Ledger F → Result (Matching F)
  match_segment b c l =
      match_buyers F c.new_median_price c.matched_transactions (b.sell_count == 0)
        (sorted str_leb b.buyers)
        (record { ledger = l; sellers = sorted str_leb b.sellers; actual_matches = 0 })

  unfoldable pub resolve_segment : Dict (Bucket F) → String → Progress F → Result (Progress F)
  unfolding match_segment
  resolve_segment buckets gu_code s = do
    b ← require (get buckets gu_code) (key_error gu_code)
    segment ← require (get s.world gu_code) (key_error gu_code)
    let c = clear F b segment
    new_segment ← copy_segment F segment c
    delta ← segment_delta F (delta_of gu_code c)
    m ← match_segment b c s.ledger
    ok (record {
      world = set_item s.world gu_code new_segment;
      ledger = m.ledger;
      segment_deltas = set_item s.segment_deltas gu_code delta;
      cleared_volume = set_item s.cleared_volume gu_code m.actual_matches;
      price_changes = set_item s.price_changes gu_code c.price_change_pct;
    })

  unfoldable pub resolve_segments : Dict (Bucket F) → List String → Progress F → Result (Progress F)
  resolve_segments buckets [] s = ok s
  resolve_segments buckets (gu_code ∷ rest) s =
      resolve_segment buckets gu_code s >>= resolve_segments buckets rest

  -- `sorted(set(capital_changes) | set(holdings_changes))`
  unfoldable pub changed_ids : Ledger F → List String
  changed_ids l = sorted str_leb (
      keys l.capital_changes
      ++ select (λ id. not (has l.capital_changes id)) (keys l.holdings_changes))

  unfoldable pub delta_of_participant : Ledger F → String → Result ParticipantDelta
  unfolding participant_delta
  delta_of_participant l id = do
    p ← require (get l.participants id) (key_error id)
    participant_delta (record {
      participant_id = id;
      capital_change = change_of l.capital_changes id;
      holdings_change = change_of l.holdings_changes id;
      new_capital = p.capital;
      new_holdings = p.holdings;
    })

  unfoldable pub participant_deltas :
      Ledger F → List String → Dict ParticipantDelta → Result (Dict ParticipantDelta)
  participant_deltas l [] deltas = ok deltas
  participant_deltas l (id ∷ rest) deltas = do
    d ← delta_of_participant l id
    participant_deltas l rest (set_item deltas id d)

  -- The first segment's view: nothing has changed yet.
  abbrev pub start : Dict (SegmentState F) → Dict (ParticipantState F) → Progress F
  start world participants = record {
    world = world;
    ledger = record {
      participants = participants;
      capital_changes = [];
      holdings_changes = [];
      total_matched = 0;
    };
    segment_deltas = [];
    cleared_volume = [];
    price_changes = [];
  }

  unfoldable pub finish : ℤ → Progress F → List Warning → Result (ResolveRoundResult F)
  finish round_no s warnings = do
    deltas ← participant_deltas s.ledger (changed_ids s.ledger) []
    payload ← round_resolved_payload F (record {
      round_no = round_no;
      segment_deltas = s.segment_deltas;
      participant_deltas = deltas;
      transactions_count = s.ledger.total_matched;
      summary = resolved round_no s.ledger.total_matched (length s.segment_deltas);
    })
    ok (record {
      new_world = s.world;
      new_participants = s.ledger.participants;
      outcome = record {
        round_no = round_no;
        cleared_volume = s.cleared_volume;
        price_changes = s.price_changes;
        governance_applied = [];
        market_actions_resolved = s.ledger.total_matched;
      };
      payload = payload;
      warnings = warnings;
    })

  -- `if not participants: …`
  unfoldable pub no_round : Dict (SegmentState F) → ℤ → Result (ResolveRoundResult F)
  no_round world round_no = do
    payload ← round_resolved_payload F (record {
      round_no = round_no;
      segment_deltas = [];
      participant_deltas = [];
      transactions_count = 0;
      summary = no_participants round_no;
    })
    ok (record {
      new_world = world;
      new_participants = [];
      outcome = record {
        round_no = round_no;
        cleared_volume = [];
        price_changes = [];
        governance_applied = [];
        market_actions_resolved = 0;
      };
      payload = payload;
      warnings = [];
    })

  unfoldable pub pure_resolve_round :
      Dict (SegmentState F)
      → Dict (ParticipantState F)
      → Dict (ActionProposal F)
      → ℤ
      → Result (ResolveRoundResult F)
  unfolding no_round finish
  pure_resolve_round world [] actions round_no = no_round world round_no
  pure_resolve_round world (p ∷ ps) actions round_no =
      let (buckets, warnings) = collect F world (p ∷ ps) actions ([], []) in
      do
        s ← resolve_segments buckets (sorted str_leb (keys buckets)) (start world (p ∷ ps))
        finish round_no s warnings
