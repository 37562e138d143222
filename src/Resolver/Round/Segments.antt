-- ===== src/Resolver/Round/Segments.antt =====
-- One segment's resolution, taken apart, and the proof rule for the loop over the segments.
use mathlib.Core.Path.{◌≡◌, refl}
use mathlib.Core.Option.{some}
use mathlib.Core.List.{List, [], ◌∷◌}
use younggeul.Prelude.{String, Dict, get, set_item}
use younggeul.Errors.{ok, OnOk, OnOk_self, bind-OnOk, require, require-OnOk, key_error}
use younggeul.Floats.{FloatOps}
use younggeul.State.{SegmentState}
use younggeul.Rounds.{SegmentDelta, segment_delta}
use younggeul.Resolver.Buckets.{Bucket}
use younggeul.Resolver.Clearing.{clear, copy_segment}
use younggeul.Resolver.Matching.{Matching}
use younggeul.Resolver.Round.{Progress, delta_of, match_segment, resolve_segment, resolve_segments}

module _ (F : FloatOps) (buckets : Dict (Bucket F)) where
  -- What a resolved segment had, and what it has written.
  pub record Resolved (gu_code : String) (s s' : Progress F) : Type 0 where
    pub bucket : Bucket F
    pub segment : SegmentState F
    pub new_segment : SegmentState F
    pub delta : SegmentDelta F
    pub matching : Matching F
    pub has_bucket : get buckets gu_code ≡ some bucket
    pub has_segment : get s.world gu_code ≡ some segment
    pub copied : copy_segment F segment (clear F bucket segment) ≡ ok new_segment
    pub delta_checked : segment_delta F (delta_of F gu_code (clear F bucket segment)) ≡ ok delta
    pub matched : match_segment F bucket (clear F bucket segment) s.ledger ≡ ok matching
    pub world : s'.world ≡ set_item s.world gu_code new_segment
    pub ledger : s'.ledger ≡ matching.ledger
    pub segment_deltas : s'.segment_deltas ≡ set_item s.segment_deltas gu_code delta
    pub cleared_volume :
        s'.cleared_volume ≡ set_item s.cleared_volume gu_code matching.actual_matches
    pub price_changes :
        s'.price_changes
        ≡ set_item s.price_changes gu_code (clear F bucket segment).price_change_pct

  pub resolve_segment-Resolved :
      (gu_code : String) (s : Progress F)
      → OnOk (Resolved gu_code s) (resolve_segment F buckets gu_code s)
  unfolding resolve_segment
  resolve_segment-Resolved gu_code s =
      bind-OnOk _ _ (require (get buckets gu_code) (key_error gu_code)) _ (require-OnOk _ _)
        λ b has_b.
          bind-OnOk _ _ (require (get s.world gu_code) (key_error gu_code)) _ (require-OnOk _ _)
            λ segment has_s.
              let c = clear F b segment in
              bind-OnOk _ _ (copy_segment F segment c) _ (OnOk_self _) λ new_segment copied.
                bind-OnOk _ _ (segment_delta F (delta_of F gu_code c)) _ (OnOk_self _)
                  λ delta checked.
                    bind-OnOk _ _ (match_segment F b c s.ledger) _ (OnOk_self _) λ m matched.
                      record {
                        bucket = b;
                        segment = segment;
                        new_segment = new_segment;
                        delta = delta;
                        matching = m;
                        has_bucket = has_b;
                        has_segment = has_s;
                        copied = copied;
                        delta_checked = checked;
                        matched = matched;
                        world = refl;
                        ledger = refl;
                        segment_deltas = refl;
                        cleared_volume = refl;
                        price_changes = refl;
                      }

  module _ (P : Progress F → Type 0)
      (keep : (gu_code : String) (s s' : Progress F) → Resolved gu_code s s' → P s → P s') where
    -- What every segment's resolution keeps, the loop keeps.
    pub resolve_segments-OnOk :
        (codes : List String) (s : Progress F) → P s → OnOk P (resolve_segments F buckets codes s)
    unfolding resolve_segments
    resolve_segments-OnOk [] s p = p
    resolve_segments-OnOk (gu_code ∷ rest) s p =
        bind-OnOk (Resolved gu_code s) P (resolve_segment F buckets gu_code s) _
          (resolve_segment-Resolved gu_code s)
          (λ s' r. resolve_segments-OnOk rest s' (keep gu_code s s' r p))
