-- ===== src/Resolver/Round/Total.antt =====
-- A round over valid inputs raises nothing.
use mathlib.Core.Path.{◌≡◌, sym, ◌∙◌}
use mathlib.Core.Bool.{true}
use mathlib.Core.List.{List, [], ◌∷◌}
use native.Mathlib.Omega.{arith}
use younggeul.Prelude.{
  ℤ, pos, negsuc, ◌≤ℤ◌, ≤ℤ-max_ℤ, String, Dict, has, keys, knows, knows-get, has-knows, All,
  All-sorted, All-append, All-map, AllItems, AllItems-get, AllValues, AllValues-get,
  AllValues-set_item, keys-set_item, set_item, All-select, sorted, str_leb,
}
use younggeul.Errors.{
  OnOk-any, IsOk, bind-IsOk, validation_error, guarded_twice-IsOk, Returns, Returns-IsOk,
  Returns_mono, Returns-OnOk, OnOk-ok,
}
use younggeul.Floats.{FloatOps, Between, FloatLaws, clamp_decimal-Between}
use younggeul.State.{SegmentState, ParticipantState, IsValidSegment}
use younggeul.Rounds.{segment_delta, ParticipantDelta, RoundResolvedPayload, round_resolved_payload}
use younggeul.Resolver.Buckets.{Bucket, Warning}
use younggeul.Resolver.Buckets.Counted.{IsCounted, Placed}
use younggeul.Resolver.Clearing.{Clearing, clear, copy_segment}
use younggeul.Resolver.Matching.{Ledger, match_buyers}
use younggeul.Resolver.Matching.Total.{Ready, match_buyers-AllReady}
use younggeul.Resolver.Matching.Solvency.{AllSolvent, IsSolvent}
use younggeul.Resolver.Matching.Traders.{Traders}
use younggeul.Resolver.Round.{
  Progress, delta_of, match_segment, resolve_segment, resolve_segments, delta_of_participant,
  participant_deltas, changed_ids, finish, no_round,
}
use younggeul.Resolver.Round.Money.{price_pos}
use younggeul.Resolver.Round.Segments.{Resolved, resolve_segment-Resolved}
use younggeul.Resolver.Round.World.{copy_segment-ok}

module _ (F : FloatOps) (laws : FloatLaws F) where
  copy_segment-IsOk :
      (b : Bucket F) (segment : SegmentState F)
      → IsValidSegment F segment
      → IsOk (copy_segment F segment (clear F b segment))
  unfolding copy_segment clear
  copy_segment-IsOk b segment v =
      guarded_twice-IsOk _ _ (validation_error "sentiment_index")
        (validation_error "supply_pressure") _
        (clamp_decimal-Between F laws _ (pos 0) (pos 10) 1 (omega arith)) v.supply

  volume_nonneg :
      (b : Bucket F) (segment : SegmentState F) → pos 0 ≤ℤ (clear F b segment).new_volume
  unfolding clear
  volume_nonneg b segment = ≤ℤ-max_ℤ (pos 0) _

  pct_range :
      (b : Bucket F) (segment : SegmentState F)
      → Between F
          (F.decimal (negsuc 4) 2)
          (clear F b segment).price_change_pct
          (F.decimal (pos 5) 2)
  unfolding clear
  pct_range b segment = clamp_decimal-Between F laws _ (negsuc 4) (pos 5) 2 (omega arith)

  segment_delta-IsOk :
      (gu_code : String) (b : Bucket F) (segment : SegmentState F)
      → IsOk (segment_delta F (delta_of F gu_code (clear F b segment)))
  unfolding segment_delta delta_of
  segment_delta-IsOk gu_code b segment =
      ground (arith, price_pos F b segment, volume_nonneg b segment, pct_range b segment)

  module _ (world : Dict (SegmentState F)) (participants : Dict (ParticipantState F))
      (buckets : Dict (Bucket F)) (placed : AllItems (Placed F world participants) buckets) where
    abbrev people : List String
    people = keys participants

    known :
        (ids : List String)
        → All (λ id. has participants id ≡ true) ids
        → All (λ id. knows people id ≡ true) ids
    known ids = All-map _ _ ids (λ id h. sym (has-knows participants id) ∙ h)

    match_segment-IsOk :
        (b : Bucket F) (c : Clearing F) (l : Ledger F)
        → IsCounted F world participants b
        → Ready F people l
        → Returns (λ m. Ready F people m.ledger) (match_segment F b c l)
    unfolding match_segment
    match_segment-IsOk b c l v ready =
        Returns_mono _ _ (match_buyers F _ _ _ (sorted str_leb b.buyers) _) (λ m h. h.0)
          (match_buyers-AllReady F people _ _ _ (sorted str_leb b.buyers) _
            (All-sorted str_leb _ b.buyers (known b.buyers v.buyers))
            (ready, All-sorted str_leb _ b.sellers (known b.sellers v.sellers)))

    -- What the loop needs of its state at each segment.
    pub record Sound (s : Progress F) : Type 0 where
      pub same_keys : keys s.world ≡ keys world
      pub valid : AllValues (IsValidSegment F) s.world
      pub ready : Ready F people s.ledger

    resolve_segment-IsOk :
        (gu_code : String) (s : Progress F)
        → knows (keys buckets) gu_code ≡ true
        → Sound s
        → IsOk (resolve_segment F buckets gu_code s)
    unfolding resolve_segment
    resolve_segment-IsOk gu_code s k v =
        let (b, has_b) = knows-get buckets gu_code k in
        let (there, counted) =
          AllItems-get (Placed F world participants) buckets gu_code placed has_b in
        let (segment, has_s) =
          knows-get s.world gu_code (rw v.same_keys (sym (has-knows world gu_code) ∙ there)) in
        let c = clear F b segment in
        rw (has_b, has_s)
          (bind-IsOk _ (copy_segment F segment c) _
            (copy_segment-IsOk b segment
              (AllValues-get (IsValidSegment F) s.world gu_code v.valid has_s))
            (OnOk-any _)
            λ _ _.
              bind-IsOk _ (segment_delta F (delta_of F gu_code c)) _
                (segment_delta-IsOk gu_code b segment) (OnOk-any _)
                λ _ _.
                  bind-IsOk _ (match_segment F b c s.ledger) _
                    (Returns-IsOk _ (match_segment F b c s.ledger)
                      (match_segment-IsOk b c s.ledger counted v.ready))
                    (OnOk-any _) (λ _ _. tt))

    segment-Sound :
        (gu_code : String) (s s' : Progress F)
        → Resolved F buckets gu_code s s'
        → Sound s
        → Sound s'
    segment-Sound gu_code s s' r v =
        let c = clear F r.bucket r.segment in
        let counted =
          (AllItems-get (Placed F world participants) buckets gu_code placed r.has_bucket).1 in
        record {
          same_keys =
              rw r.world
                (keys-set_item s.world gu_code r.new_segment r.segment r.has_segment ∙ v.same_keys);
          valid = rw r.world (
              AllValues-set_item (IsValidSegment F) s.world gu_code r.new_segment v.valid
                (OnOk-ok _ _ (copy_segment-ok F r.segment c) r.copied).1);
          ready = rw r.ledger (
              OnOk-ok _ _
                (Returns-OnOk _ (match_segment F r.bucket c s.ledger)
                  (match_segment-IsOk r.bucket c s.ledger counted v.ready))
                r.matched);
        }

    -- Every segment that has a bucket is resolved.
    pub resolve_segments-IsOk :
        (codes : List String) (s : Progress F)
        → All (λ code. knows (keys buckets) code ≡ true) codes
        → Sound s
        → IsOk (resolve_segments F buckets codes s)
    unfolding resolve_segments
    resolve_segments-IsOk [] s k v = tt
    resolve_segments-IsOk (gu_code ∷ rest) s k v =
        bind-IsOk (Resolved F buckets gu_code s) (resolve_segment F buckets gu_code s) _
          (resolve_segment-IsOk gu_code s k.0 v) (resolve_segment-Resolved F buckets gu_code s)
          (λ s' r. resolve_segments-IsOk rest s' k.1 (segment-Sound gu_code s s' r v))

module _ (F : FloatOps) (ids : List String) where
  delta-IsOk :
      (l : Ledger F) (id : String)
      → AllSolvent F ids l
      → knows ids id ≡ true
      → IsOk (delta_of_participant F l id)
  unfolding delta_of_participant
  delta-IsOk l id v k =
      let (p, found) = knows-get l.participants id (rw v.same_keys k) in
      let solvent : IsSolvent F p = AllValues-get (IsSolvent F) l.participants id v.solvent found in
      rw found (ground (arith, solvent.holdings))

  participant_deltas-IsOk :
      (l : Ledger F) (changed : List String) (deltas : Dict ParticipantDelta)
      → AllSolvent F ids l
      → All (λ id. knows ids id ≡ true) changed
      → IsOk (participant_deltas F l changed deltas)
  unfolding participant_deltas
  participant_deltas-IsOk l [] deltas v k = tt
  participant_deltas-IsOk l (id ∷ rest) deltas v k =
      bind-IsOk _ (delta_of_participant F l id) _ (delta-IsOk l id v k.0) (OnOk-any _)
        (λ d _. participant_deltas-IsOk l rest (set_item deltas id d) v k.1)

  changed_ids-known :
      (l : Ledger F) → Traders F ids l → All (λ id. knows ids id ≡ true) (changed_ids F l)
  unfolding changed_ids
  changed_ids-known l v = All-sorted str_leb _ _ (
      All-append _ (keys l.capital_changes) _ v.capital
        (All-select _ _ (keys l.holdings_changes) v.holdings))

  payload-IsOk :
      (p : RoundResolvedPayload F) → pos 0 ≤ℤ p.round_no → IsOk (round_resolved_payload F p)
  unfolding round_resolved_payload
  payload-IsOk p h = ground arith

  -- The deltas and the payload pass their validators.
  pub finish-IsOk :
      (round_no : ℤ) (s : Progress F) (warnings : List Warning)
      → pos 0 ≤ℤ round_no
      → AllSolvent F ids s.ledger
      → Traders F ids s.ledger
      → IsOk (finish F round_no s warnings)
  unfolding finish
  finish-IsOk round_no s warnings h v t =
      bind-IsOk _ (participant_deltas F s.ledger (changed_ids F s.ledger) []) _
        (participant_deltas-IsOk s.ledger _ [] v (changed_ids-known s.ledger t)) (OnOk-any _)
        λ deltas _.
          bind-IsOk (λ _. Unit) (round_resolved_payload F _) _ (payload-IsOk _ h) (OnOk-any _)
            (λ _ _. tt)

  pub no_round-IsOk :
      (world : Dict (SegmentState F)) (round_no : ℤ)
      → pos 0 ≤ℤ round_no
      → IsOk (no_round F world round_no)
  unfolding no_round
  no_round-IsOk world round_no h =
      bind-IsOk (λ _. Unit) (round_resolved_payload F _) _ (payload-IsOk _ h) (OnOk-any _)
        (λ _ _. tt)
