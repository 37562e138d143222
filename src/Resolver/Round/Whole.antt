-- ===== src/Resolver/Round/Whole.antt =====
-- `pure_resolve_round` as a whole: from what its loops keep to what its result has.
use mathlib.Core.Path.{◌≡◌, refl, ap}
use mathlib.Core.Bool.{true}
use mathlib.Core.List.{List, [], ◌∷◌}
use native.Mathlib.Omega.{arith}
use text.Mathlib.TextEquality.{eq_iff}
use younggeul.Prelude.{
  ℕ, ℤ, String, Dict, keys, knows, All, All-map, All-sorted, AllItems, sorted, str_leb,
}
use younggeul.Errors.{OnOk, OnOk_mono, bind-OnOk}
use younggeul.Floats.{FloatOps}
use younggeul.State.{SegmentState, ParticipantState, ActionProposal}
use younggeul.Rounds.{RoundResolvedPayload, round_resolved_payload}
use younggeul.Resolver.Buckets.Counted.{Placed, collect-Placed}
use younggeul.Resolver.Matching.{Ledger}
use younggeul.Resolver.Matching.Settle.{Settled}
use younggeul.Resolver.Round.{
  Progress, ResolveRoundResult, start, resolve_segments, finish, no_round, pure_resolve_round,
}
use younggeul.Resolver.Round.Finish.{checked, Finished, finish-Finished, through, buckets}
use younggeul.Resolver.Round.People.{resolve_segments-Keeps}

-- A list knows its members.
knows_weaken :
    (j : String) (js ks : List String)
    → All (λ k. knows js k ≡ true) ks
    → All (λ k. knows (j ∷ js) k ≡ true) ks
unfolding knows
knows_weaken j js ks = All-map _ _ ks (λ k h. ground (arith, h))

knows_keys : (ks : List String) → All (λ k. knows ks k ≡ true) ks
unfolding knows
knows_keys [] = tt
knows_keys (k ∷ ks) = (ground (arith, eq_iff k k), knows_weaken k ks ks (knows_keys ks))

module _ (F : FloatOps) (world : Dict (SegmentState F)) where
  module _ (p : String × ParticipantState F) (ps : Dict (ParticipantState F))
      (actions : Dict (ActionProposal F)) where
    abbrev pub begin : Progress F
    begin = start F world (p ∷ ps)

    abbrev pub codes : List String
    codes = sorted str_leb (keys (buckets F world p ps actions))

    pub placed : AllItems (Placed F world (p ∷ ps)) (buckets F world p ps actions)
    placed = collect-Placed F world (p ∷ ps) actions ([], []) tt

    pub has_codes : All (λ code. knows (keys (buckets F world p ps actions)) code ≡ true) codes
    has_codes =
        All-sorted str_leb _ (keys (buckets F world p ps actions))
          (knows_keys (keys (buckets F world p ps actions)))

    -- What is kept by every side of a trade, for the ledger at the end.
    module _ (round_no : ℤ) (Q : ResolveRoundResult F → Type 0) where
      pub kept :
          (P : Ledger F → Type 0)
          → ((l : Ledger F) (n : ℕ) → P l → P (record l { total_matched = n }))
          → ((id : String) (c h : ℤ) (l l' : Ledger F) → Settled F id c h l l' → P l → P l')
          → P begin.ledger
          → ((s : Progress F) (r : ResolveRoundResult F) → Finished F s r → P s.ledger → Q r)
          → OnOk Q (pure_resolve_round F world (p ∷ ps) actions round_no)
      kept P count settled h k =
          through F world p ps actions round_no (λ s. P s.ledger) Q
            (resolve_segments-Keeps F (buckets F world p ps actions) P count settled codes begin h)
            (λ s warnings v.
              OnOk_mono (Finished F s) Q (finish F round_no s warnings) (λ r f. k s r f v)
                (finish-Finished F round_no s warnings))

      pub looped :
          (P : Progress F → Type 0)
          → OnOk P (resolve_segments F (buckets F world p ps actions) codes begin)
          → ((s : Progress F) (r : ResolveRoundResult F) → Finished F s r → P s → Q r)
          → OnOk Q (pure_resolve_round F world (p ∷ ps) actions round_no)
      looped P h k = through F world p ps actions round_no P Q h (λ s warnings v.
          OnOk_mono (Finished F s) Q (finish F round_no s warnings) (λ r f. k s r f v)
            (finish-Finished F round_no s warnings))

  -- Without participants nothing moves.
  pub record Idle (r : ResolveRoundResult F) : Type 0 where
    pub segments : r.new_world ≡ world
    pub participants : r.new_participants ≡ []
    pub segment_deltas : r.payload.segment_deltas ≡ []
    pub participant_deltas : r.payload.participant_deltas ≡ []
    pub resolved : r.outcome.market_actions_resolved ≡ 0

  pub no_round-Idle : (round_no : ℤ) → OnOk Idle (no_round F world round_no)
  unfolding no_round
  no_round-Idle round_no =
      bind-OnOk (λ q. q ≡ _) _ (round_resolved_payload F _) _ (checked F _)
        λ payload e. record {
          segments = refl;
          participants = refl;
          segment_deltas = ap (λ (q : RoundResolvedPayload F). q.segment_deltas) e;
          participant_deltas = ap (λ (q : RoundResolvedPayload F). q.participant_deltas) e;
          resolved = refl;
        }
