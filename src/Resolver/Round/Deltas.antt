-- ===== src/Resolver/Round/Deltas.antt =====
-- The deltas that `pure_resolve_round` publishes tell what it has changed.
use mathlib.Core.Path.{◌≡◌, refl, sym, ◌∙◌, ap}
use mathlib.Core.Option.{some, none}
use mathlib.Core.List.{[], ◌∷◌}
use younggeul.Prelude.{
  some-eq, ℤ, pos, negsuc, ◌+ℤ◌, ◌≤ℤ◌, int_laws, parts_of_eq, String, Dict, get, keys, AllItems,
  AllItems-get, AllValues,
}
use younggeul.Errors.{ok, OnOk, OnOk-ok}
use younggeul.Floats.{FloatOps, Between}
use younggeul.State.{SegmentState, ParticipantState, ActionProposal, IsValidSegment}
use younggeul.Rounds.{SegmentDelta, ParticipantDelta}
use younggeul.Resolver.Matching.{Ledger}
use younggeul.Resolver.Matching.Books.{Booked, settle-Booked}
use younggeul.Resolver.Round.{
  Progress, ResolveRoundResult, resolve_segments, pure_resolve_round, changed_ids,
}
use younggeul.Resolver.Round.Finish.{Finished, Right, participant_deltas-Right, buckets}
use younggeul.Resolver.Round.World.{Told, resolve_segments-Told}
use younggeul.Resolver.Round.Whole.{begin, codes, kept, looped, Idle, no_round-Idle}

same_plus : {m n : ℤ} → m ≡ n → m ≡ n +ℤ pos 0
same_plus e = omega (int_laws, parts_of_eq e)

module _ (F : FloatOps) (world : Dict (SegmentState F)) where
  module _ (p : String × ParticipantState F) (ps : Dict (ParticipantState F))
      (actions : Dict (ActionProposal F)) where
    loop-Told :
        AllValues (IsValidSegment F) world
        → OnOk (Told F world) (
            resolve_segments F
              (buckets F world p ps actions)
              (codes F world p ps actions)
              (begin F world p ps actions))
    unfolding get
    loop-Told valid =
        resolve_segments-Told F world (buckets F world p ps actions) (codes F world p ps actions)
          (begin F world p ps actions)
          (record {
            same_keys = refl;
            valid = valid;
            untouched = λ gu_code _. refl;
            told = λ gu_code d segment h _. absurd (cc);
          })

    -- The participants are those that the bookkeeping and the deltas tell.
    abbrev Accounted : ResolveRoundResult F → Type 0
    Accounted r =
        (l : Ledger F) × (r.new_participants ≡ l.participants)
        × Booked F (p ∷ ps) l
        × AllItems (Right F l) r.payload.participant_deltas

    unbooked : Booked F (p ∷ ps) (begin F world p ps actions).ledger
    unfolding get
    unbooked = record {
      capital = λ id before now e f.
          same_plus (ap (λ (q : ParticipantState F). q.capital) (some-eq (sym f ∙ e)));
      holdings = λ id before now e f.
          same_plus (ap (λ (q : ParticipantState F). q.holdings) (some-eq (sym f ∙ e)));
    }

    round-Accounted :
        (round_no : ℤ) → OnOk Accounted (pure_resolve_round F world (p ∷ ps) actions round_no)
    round-Accounted round_no =
        kept F world p ps actions round_no Accounted (Booked F (p ∷ ps))
          (λ l n b. record { capital = b.capital; holdings = b.holdings })
          (λ id c h l l' s b. settle-Booked F (p ∷ ps) s b) unbooked
          λ s r f b. (
            s.ledger,
            f.participants,
            b,
            OnOk-ok _ _ (participant_deltas-Right F s.ledger (changed_ids F s.ledger) [] tt)
                f.participant_deltas,
          )

  -- In a valid world, a segment that has a delta has the new price and volume of the delta, and the
  -- outcome has its price change; the price is at least 1, the volume is not negative and the price
  -- change is within 5 percent.
  pub resolve_round-segment_delta :
      (participants : Dict (ParticipantState F)) (actions : Dict (ActionProposal F)) (round_no : ℤ)
      (r : ResolveRoundResult F)
      → pure_resolve_round F world participants actions round_no ≡ ok r
      → AllValues (IsValidSegment F) world
      → (gu_code : String) (d : SegmentDelta F) (segment : SegmentState F)
      → get r.payload.segment_deltas gu_code ≡ some d
      → get r.new_world gu_code ≡ some segment
      → (segment.current_median_price ≡ d.new_median_price)
        × (segment.current_volume ≡ d.new_volume)
        × (get r.outcome.price_changes gu_code ≡ some d.price_change_pct)
        × (pos 1 ≤ℤ d.new_median_price)
        × (pos 0 ≤ℤ d.new_volume)
        × Between F (F.decimal (negsuc 4) 2) d.price_change_pct (F.decimal (pos 5) 2)
  unfolding pure_resolve_round get
  resolve_round-segment_delta [] actions round_no r e valid gu_code d segment has_d has_s =
      let i = OnOk-ok (Idle F world) _ (no_round-Idle F world round_no) e in
      let nothing : get {V = SegmentDelta F} [] gu_code ≡ some d = rw i.segment_deltas at has_d in
      absurd (cc)
  resolve_round-segment_delta (p ∷ ps) actions round_no r e valid gu_code d segment has_d has_s =
      let (s, t, f) =
        OnOk-ok (λ r. (s : Progress F) × Told F world s × Finished F s r) _
          (looped F world p ps actions round_no _ (Told F world) (loop-Told p ps actions valid)
            λ s r f t. (s, t, f))
          e in
      rw f.price_changes
        (t.told gu_code d segment (rw f.segment_deltas at has_d) (rw f.world at has_s))

  pub resolve_round-valid :
      (participants : Dict (ParticipantState F)) (actions : Dict (ActionProposal F)) (round_no : ℤ)
      (r : ResolveRoundResult F)
      → pure_resolve_round F world participants actions round_no ≡ ok r
      → AllValues (IsValidSegment F) world
      → (keys r.new_world ≡ keys world) × AllValues (IsValidSegment F) r.new_world
  unfolding pure_resolve_round
  resolve_round-valid [] actions round_no r e valid =
      let i = OnOk-ok (Idle F world) _ (no_round-Idle F world round_no) e in
      rw i.segments (refl, valid)
  resolve_round-valid (p ∷ ps) actions round_no r e valid =
      let (s, t, f) =
        OnOk-ok (λ r. (s : Progress F) × Told F world s × Finished F s r) _
          (looped F world p ps actions round_no _ (Told F world) (loop-Told p ps actions valid)
            λ s r f t. (s, t, f))
          e in
      rw f.world (t.same_keys, t.valid)

  -- A valid world stays valid and keeps its segments in their order; a segment without a delta is
  -- as it was.
  pub resolve_round-world :
      (participants : Dict (ParticipantState F)) (actions : Dict (ActionProposal F)) (round_no : ℤ)
      (r : ResolveRoundResult F)
      → pure_resolve_round F world participants actions round_no ≡ ok r
      → AllValues (IsValidSegment F) world
      → (gu_code : String) → get r.payload.segment_deltas gu_code ≡ none
      → (keys r.new_world ≡ keys world)
        × AllValues (IsValidSegment F) r.new_world
        × (get r.new_world gu_code ≡ get world gu_code)
  unfolding pure_resolve_round
  resolve_round-world [] actions round_no r e valid gu_code no_delta =
      let i = OnOk-ok (Idle F world) _ (no_round-Idle F world round_no) e in
      rw i.segments (refl, valid, refl)
  resolve_round-world (p ∷ ps) actions round_no r e valid gu_code no_delta =
      let (s, t, f) =
        OnOk-ok (λ r. (s : Progress F) × Told F world s × Finished F s r) _
          (looped F world p ps actions round_no _ (Told F world) (loop-Told p ps actions valid)
            λ s r f t. (s, t, f))
          e in
      rw f.world (t.same_keys, t.valid, t.untouched gu_code (rw f.segment_deltas at no_delta))

  -- A participant's delta has its capital and holdings after the round, and the changes that it
  -- says are the differences to those before the round.
  pub resolve_round-participant_delta :
      (participants : Dict (ParticipantState F)) (actions : Dict (ActionProposal F)) (round_no : ℤ)
      (r : ResolveRoundResult F)
      → pure_resolve_round F world participants actions round_no ≡ ok r
      → (id : String) (d : ParticipantDelta) (before : ParticipantState F)
      → get r.payload.participant_deltas id ≡ some d
      → get participants id ≡ some before
      → (now : ParticipantState F) × (get r.new_participants id ≡ some now)
        × (d.new_capital ≡ now.capital)
        × (d.new_holdings ≡ now.holdings)
        × (now.capital ≡ before.capital +ℤ d.capital_change)
        × (now.holdings ≡ before.holdings +ℤ d.holdings_change)
  unfolding pure_resolve_round get
  resolve_round-participant_delta [] actions round_no r e id d before has_d has_p = cc
  resolve_round-participant_delta (p ∷ ps) actions round_no r e id d before has_d has_p =
      let (l, same, b, right) =
        OnOk-ok (Accounted p ps actions) _ (round-Accounted p ps actions round_no) e in
      let t = AllItems-get (Right F l) r.payload.participant_deltas id right has_d in
      (
        t.participant,
        (rw same t.found),
        t.new_capital,
        t.new_holdings,
        rw t.capital_change (b.capital id before t.participant has_p t.found),
        rw t.holdings_change (b.holdings id before t.participant has_p t.found),
      )
