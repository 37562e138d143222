-- ===== src/Resolver/Round/Finish.antt =====
-- The end of `pure_resolve_round`: what `finish` hands on, and the way from the loop to the result.
use mathlib.Core.Path.{◌≡◌, refl, sym, ◌∙◌, ap}
use mathlib.Core.Bool.{true}
use mathlib.Core.Option.{some}
use mathlib.Core.List.{List, [], ◌∷◌}
use native.Mathlib.Omega.{arith}
use younggeul.Prelude.{
  not, ltb_ℤ, ℤ, pos, String, Dict, get, set_item, keys, AllItems, AllItems-set_item, sorted,
  str_leb,
}
use younggeul.Errors.{
  ok, OnOk, OnOk_mono, bind-OnOk, OnOk_self, guarded-OnOk, require, require-OnOk, key_error,
}
use younggeul.Floats.{FloatOps}
use younggeul.State.{SegmentState, ParticipantState, ActionProposal}
use younggeul.Rounds.{
  ParticipantDelta, participant_delta, RoundResolvedPayload, round_resolved_payload,
}
use younggeul.Resolver.Buckets.{Bucket, Warning, collect}
use younggeul.Resolver.Matching.{Ledger, change_of}
use younggeul.Resolver.Round.{
  Progress, ResolveRoundResult, start, resolve_segments, finish, pure_resolve_round,
  participant_deltas, delta_of_participant, changed_ids,
}

module _ (F : FloatOps) where
  -- What `finish` hands on.
  pub record Finished (s : Progress F) (r : ResolveRoundResult F) : Type 0 where
    pub world : r.new_world ≡ s.world
    pub participants : r.new_participants ≡ s.ledger.participants
    pub resolved : r.outcome.market_actions_resolved ≡ s.ledger.total_matched
    pub segment_deltas : r.payload.segment_deltas ≡ s.segment_deltas
    pub price_changes : r.outcome.price_changes ≡ s.price_changes
    pub participant_deltas :
        participant_deltas F s.ledger (changed_ids F s.ledger) [] ≡ ok r.payload.participant_deltas

  pub checked : (p : RoundResolvedPayload F) → OnOk (λ q. q ≡ p) (round_resolved_payload F p)
  unfolding round_resolved_payload
  checked p = ground arith

  pub finish-Finished :
      (round_no : ℤ) (s : Progress F) (warnings : List Warning)
      → OnOk (Finished s) (finish F round_no s warnings)
  unfolding finish
  finish-Finished round_no s warnings =
      bind-OnOk _ _ (participant_deltas F s.ledger (changed_ids F s.ledger) []) _ (OnOk_self _)
        λ deltas made.
          bind-OnOk (λ q. q ≡ _) _ (round_resolved_payload F _) _ (checked _)
            λ payload e. record {
              world = refl;
              participants = refl;
              resolved = refl;
              segment_deltas = ap (λ (q : RoundResolvedPayload F). q.segment_deltas) e;
              price_changes = refl;
              participant_deltas =
                  made ∙ ap (λ (q : RoundResolvedPayload F). ok q.participant_deltas) (sym e);
            }

  -- What a participant's delta says of the ledger.
  pub record Right (l : Ledger F) (id : String) (d : ParticipantDelta) : Type 0 where
    pub participant : ParticipantState F
    pub found : get l.participants id ≡ some participant
    pub new_capital : d.new_capital ≡ participant.capital
    pub new_holdings : d.new_holdings ≡ participant.holdings
    pub capital_change : d.capital_change ≡ change_of l.capital_changes id
    pub holdings_change : d.holdings_change ≡ change_of l.holdings_changes id

  delta-Right : (l : Ledger F) (id : String) → OnOk (Right l id) (delta_of_participant F l id)
  unfolding delta_of_participant
  delta-Right l id =
      bind-OnOk _ _ (require (get l.participants id) (key_error id)) _ (require-OnOk _ _) λ p found.
        let told : ParticipantDelta = record {
          participant_id = id;
          capital_change = change_of l.capital_changes id;
          holdings_change = change_of l.holdings_changes id;
          new_capital = p.capital;
          new_holdings = p.holdings;
        } in
        OnOk_mono (λ d. (d ≡ told) × (not (ltb_ℤ p.holdings (pos 0)) ≡ true)) (Right l id)
          (participant_delta told)
          (λ d (e, valid). record {
            participant = p;
            found = found;
            new_capital = ap (λ (q : ParticipantDelta). q.new_capital) e;
            new_holdings = ap (λ (q : ParticipantDelta). q.new_holdings) e;
            capital_change = ap (λ (q : ParticipantDelta). q.capital_change) e;
            holdings_change = ap (λ (q : ParticipantDelta). q.holdings_change) e;
          })
          (guarded-OnOk _ _ _)

  pub participant_deltas-Right :
      (l : Ledger F) (ids : List String) (deltas : Dict ParticipantDelta)
      → AllItems (Right l) deltas
      → OnOk (AllItems (Right l)) (participant_deltas F l ids deltas)
  unfolding participant_deltas
  participant_deltas-Right l [] deltas v = v
  participant_deltas-Right l (id ∷ rest) deltas v =
      bind-OnOk (Right l id) _ (delta_of_participant F l id) _ (delta-Right l id) (λ d r.
        participant_deltas-Right l rest (set_item deltas id d)
          (AllItems-set_item (Right l) deltas id d v r))

  module _ (world : Dict (SegmentState F)) (p : String × ParticipantState F)
      (ps : Dict (ParticipantState F)) (actions : Dict (ActionProposal F)) where
    abbrev pub people : Dict (ParticipantState F)
    people = p ∷ ps

    abbrev pub buckets : Dict (Bucket F)
    buckets = (collect F world people actions ([], [])).0

    -- From what the loop over the segments has, to what the result has.
    pub through :
        (round_no : ℤ) (P : Progress F → Type 0) (Q : ResolveRoundResult F → Type 0)
        → OnOk P (resolve_segments F buckets (sorted str_leb (keys buckets)) (start F world people))
        → ((s : Progress F) (warnings : List Warning) → P s → OnOk Q (finish F round_no s warnings))
        → OnOk Q (pure_resolve_round F world people actions round_no)
    unfolding pure_resolve_round
    through round_no P Q h k = bind-OnOk P Q (resolve_segments F buckets _ _) _ h (λ s v. k s _ v)
