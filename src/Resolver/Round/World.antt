-- ===== src/Resolver/Round/World.antt =====
-- What a round does to the segments, and that the deltas tell it.
use mathlib.Core.Path.{◌≡◌, refl, sym, ◌∙◌}
use mathlib.Core.Option.{some, none}
use mathlib.Core.List.{List}
use mathlib.Core.Logic.{inl, inr}
use native.Mathlib.Omega.{arith}
use text.Mathlib.Text.{◌==◌}
use younggeul.Prelude.{
  pos, negsuc, ◌≤ℤ◌, String, Dict, get, get-set_item, keys, keys-set_item, AllValues,
  AllValues-set_item, some-eq, Bool-cases, if◌then◌else◌,
}
use younggeul.Errors.{OnOk, OnOk-ok, OnOk_mono, guarded_twice-OnOk, validation_error}
use younggeul.Floats.{FloatOps, Between}
use younggeul.State.{SegmentState, IsValidSegment}
use younggeul.Rounds.{SegmentDelta, segment_delta}
use younggeul.Resolver.Buckets.{Bucket}
use younggeul.Resolver.Clearing.{Clearing, clear, copy_segment}
use younggeul.Resolver.Round.{Progress, delta_of, resolve_segments}
use younggeul.Resolver.Round.Money.{price_pos}
use younggeul.Resolver.Round.Segments.{Resolved, resolve_segments-OnOk}

module _ (F : FloatOps) where
  abbrev pub changed : SegmentState F → Clearing F → SegmentState F
  changed segment c = record segment {
    current_median_price = c.new_median_price;
    current_volume = c.new_volume;
    price_trend = c.price_trend;
    sentiment_index = c.new_sentiment;
  }

  pub copy_segment-ok :
      (segment : SegmentState F) (c : Clearing F)
      → OnOk (λ s. (s ≡ changed segment c) × IsValidSegment F s) (copy_segment F segment c)
  unfolding copy_segment
  copy_segment-ok segment c =
      OnOk_mono _ _ (copy_segment F segment c)
        (λ s (e, sentiment, supply). (e, rw e (record { sentiment = sentiment; supply = supply })))
        (guarded_twice-OnOk _ _ (validation_error "sentiment_index")
          (validation_error "supply_pressure") (changed segment c))

  segment_delta-ok :
      (d : SegmentDelta F)
      → OnOk
          (λ e.
            (e ≡ d)
            × (pos 0 ≤ℤ d.new_volume)
            × Between F (F.decimal (negsuc 4) 2) d.price_change_pct (F.decimal (pos 5) 2))
          (segment_delta F d)
  unfolding segment_delta
  segment_delta-ok d = ground arith

  module _ (before : Dict (SegmentState F)) where
    -- A segment with a delta has the new price and volume that the delta says, in range, and the
    -- outcome's price change; a segment without one is as it was. No segment comes or goes.
    pub record Told (s : Progress F) : Type 0 where
      pub same_keys : keys s.world ≡ keys before
      pub valid : AllValues (IsValidSegment F) s.world
      pub untouched :
          (gu_code : String)
          → get s.segment_deltas gu_code ≡ none
          → get s.world gu_code ≡ get before gu_code
      pub told :
          (gu_code : String) (d : SegmentDelta F) (segment : SegmentState F)
          → get s.segment_deltas gu_code ≡ some d
          → get s.world gu_code ≡ some segment
          → (segment.current_median_price ≡ d.new_median_price)
            × (segment.current_volume ≡ d.new_volume)
            × (get s.price_changes gu_code ≡ some d.price_change_pct)
            × (pos 1 ≤ℤ d.new_median_price)
            × (pos 0 ≤ℤ d.new_volume)
            × Between F (F.decimal (negsuc 4) 2) d.price_change_pct (F.decimal (pos 5) 2)

    module _ (buckets : Dict (Bucket F)) {gu_code : String} {s s' : Progress F}
        (r : Resolved F buckets gu_code s s') where
      abbrev clearing : Clearing F
      clearing = clear F r.bucket r.segment

      new_segment-eq : (r.new_segment ≡ changed r.segment clearing) × IsValidSegment F r.new_segment
      new_segment-eq = OnOk-ok _ _ (copy_segment-ok r.segment clearing) r.copied

      delta-eq :
          (r.delta ≡ delta_of F gu_code clearing)
          × (pos 0 ≤ℤ (delta_of F gu_code clearing).new_volume)
          × Between F
              (F.decimal (negsuc 4) 2)
              (delta_of F gu_code clearing).price_change_pct
              (F.decimal (pos 5) 2)
      delta-eq = OnOk-ok _ _ (segment_delta-ok (delta_of F gu_code clearing)) r.delta_checked

      after :
          (j : String)
          → (get s'.world j ≡ (if gu_code == j then some r.new_segment else get s.world j))
            × (get s'.segment_deltas j
                ≡ (if gu_code == j then some r.delta else get s.segment_deltas j))
            × (get s'.price_changes j
                ≡ (if gu_code == j then some clearing.price_change_pct else get s.price_changes j))
      after j = (
        rw r.world (get-set_item s.world gu_code j r.new_segment),
        rw r.segment_deltas (get-set_item s.segment_deltas gu_code j r.delta),
        rw r.price_changes (get-set_item s.price_changes gu_code j clearing.price_change_pct),
      )

      segment-Told : Told s → Told s'
      unfolding delta_of
      segment-Told v = record {
        same_keys =
            rw r.world
              (keys-set_item s.world gu_code r.new_segment r.segment r.has_segment ∙ v.same_keys);
        valid = rw r.world (
            AllValues-set_item (IsValidSegment F) s.world gu_code r.new_segment v.valid
              new_segment-eq.1);
        untouched = λ j none_yet. elim (Bool-cases (gu_code == j)) [
          | inl k ↦ absurd (ground (arith, (after j).1))
          | inr k ↦ (rw k at (after j).0) ∙ v.untouched j (sym (rw k at (after j).1) ∙ none_yet)
        ];
        told = λ j d segment has_d has_s. elim (Bool-cases (gu_code == j)) [
          | inl k ↦
              let same_d : r.delta ≡ d = some-eq (sym (rw k at (after j).1) ∙ has_d) in
              let same_s : r.new_segment ≡ segment = some-eq (sym (rw k at (after j).0) ∙ has_s) in
              rw (← same_d, ← same_s)
                (rw (delta-eq.0, new_segment-eq.0)
                  (
                    refl,
                    refl,
                    rw k at (after j).2,
                    price_pos F r.bucket r.segment,
                    delta-eq.1,
                    delta-eq.2,
                  ))
          | inr k ↦
              let t =
                v.told j d segment (sym (rw k at (after j).1) ∙ has_d)
                  (sym (rw k at (after j).0) ∙ has_s) in
              (t.0, t.1, (rw k at (after j).2) ∙ t.2, t.3, t.4, t.5)
        ];
      }

    -- The loop over the segments tells all that it changes.
    pub resolve_segments-Told :
        (buckets : Dict (Bucket F)) (codes : List String) (s : Progress F)
        → Told s
        → OnOk Told (resolve_segments F buckets codes s)
    resolve_segments-Told buckets =
        resolve_segments-OnOk F buckets Told (λ gu_code s s' r v. segment-Told buckets r v)
