-- ===== src/World/Segments.antt =====
-- simulation/nodes/world_initializer.py: the world is always built, and it is a valid one of the
-- target districts.
use mathlib.Core.Path.{◌≡◌, refl, ap}
use mathlib.Core.Bool.{true}
use mathlib.Core.Logic.{inl, inr}
use mathlib.Core.Option.{Option, none, some}
use mathlib.Core.List.{List, [], ◌∷◌}
use native.Mathlib.Omega.{arith}
use younggeul.Prelude.{
  ◌+◌, ℤ, ◌≤ℤ◌, pos, negsuc, String, Dict, get, get-set_item, has, set_item, set_item-IsUnique,
  keys, knows, IsUnique, AllValues, AllValues-set_item, not, length, length-append, select,
  Option-cases, if◌then◌else◌,
}
use younggeul.Errors.{Returns, Returns_mono, bind-Returns}
use younggeul.Floats.{FloatOps, FloatLaws, clamp_decimal-Between, Between}
use younggeul.State.{SegmentState, segment_state, IsValidSegment, ZeroOne, SignedOne}
use younggeul.Gold.{GoldDistrictMonthlyMetrics, BaselineForecast}
use younggeul.Resolver.Buckets.{Warning, no_gold_metrics}
use younggeul.World.{
  build_segment, build_fallback_segment, segment_for, warned_for, supply_of, Built, build_world,
}

module _ (F : FloatOps) (laws : FloatLaws F) where
  open F use {decimal}

  decimal-Between :
      (m n k : ℤ) → m ≤ℤ n → n ≤ℤ k → Between F (decimal m 1) (decimal n 1) (decimal k 1)
  decimal-Between m n k h l = rw (laws.decimal-le m n 1 h, laws.decimal-le n k 1 l) refl

  supply-SignedOne : (change : Option F.Float) → SignedOne F (supply_of F change)
  supply-SignedOne none = decimal-Between (negsuc 9) (pos 0) (pos 10) (omega arith) (omega arith)
  supply-SignedOne (some change) =
      clamp_decimal-Between F laws change (negsuc 9) (pos 10) 1 (omega arith)

  state-valid :
      (s : SegmentState F)
      → ZeroOne F s.sentiment_index
      → SignedOne F s.supply_pressure
      → Returns (IsValidSegment F) (segment_state F s)
  unfolding segment_state
  state-valid s h k = rw (h, k) (record { sentiment = h; supply = k })

  segment_for-valid :
      (gu_code : String) (metric : Option (GoldDistrictMonthlyMetrics F))
      (forecast : Option (BaselineForecast F))
      → Returns (IsValidSegment F) (segment_for F gu_code metric forecast)
  unfolding build_segment build_fallback_segment
  segment_for-valid gu_code none forecast =
      state-valid _ (decimal-Between (pos 0) (pos 5) (pos 10) (omega arith) (omega arith))
        (decimal-Between (negsuc 9) (pos 0) (pos 10) (omega arith) (omega arith))
  segment_for-valid gu_code (some metric) forecast =
      state-valid _ (clamp_decimal-Between F laws _ (pos 0) (pos 10) 1 (omega arith))
        (supply-SignedOne metric.mom_volume_change)

  -- What is added to a world and its warnings for the districts.
  pub record IsBuiltFor (metrics : Dict (GoldDistrictMonthlyMetrics F)) (gus : List String)
      (b b' : Built F) : Type 0 where
    pub valid : AllValues (IsValidSegment F) b'.0
    pub unique : IsUnique (keys b'.0)
    pub districts :
        (gu_code : String)
        → has b'.0 gu_code ≡ (if has b.0 gu_code then true else knows gus gu_code)
    pub warned :
        length b'.1 ≡ length b.1 + length (select (λ gu_code. not (has metrics gu_code)) gus)

  one_warning :
      (metrics : Dict (GoldDistrictMonthlyMetrics F)) (gu : String) (gus : List String)
      (warnings : List Warning) (b' : Built F)
      → length b'.1
        ≡ length (warned_for F gu (get metrics gu) warnings)
          + length (select (λ gu_code. not (has metrics gu_code)) gus)
      → length b'.1
        ≡ length warnings + length (select (λ gu_code. not (has metrics gu_code)) (gu ∷ gus))
  unfolding select
  one_warning metrics gu gus warnings b' h = elim (Option-cases (get metrics gu)) [
    | inl e ↦
        let added = ap (λ o. length (warned_for F gu o warnings)) e in
        rw e (omega (arith, h, added, length-append warnings (no_gold_metrics gu ∷ [])))
    | inr (m, e) ↦
        let same = ap (λ o. length (warned_for F gu o warnings)) e in rw e (omega (arith, h, same))
  ]

  -- In a world that is valid and has no district twice, building the world for a list of districts
  -- returns, whatever the metrics and the forecasts are. The result is valid again and has no district
  -- twice; its districts are those that were there and those of the list; and there is one warning more
  -- for each entry of the list that has no metrics.
  pub build_world-IsBuiltFor :
      (metrics : Dict (GoldDistrictMonthlyMetrics F)) (forecasts : Dict (BaselineForecast F))
      (gus : List String) (b : Built F)
      → AllValues (IsValidSegment F) b.0
      → IsUnique (keys b.0)
      → Returns (IsBuiltFor metrics gus b) (build_world F metrics forecasts gus b)
  unfolding build_world knows select
  build_world-IsBuiltFor metrics forecasts [] b v u = record {
    valid = v;
    unique = u;
    districts = λ gu_code. ground arith;
    warned = omega arith;
  }
  build_world-IsBuiltFor metrics forecasts (gu ∷ gus) (world, warnings) v u =
      bind-Returns (IsValidSegment F) (IsBuiltFor metrics (gu ∷ gus) (world, warnings))
        (segment_for F gu (get metrics gu) (get forecasts gu)) _
        (segment_for-valid gu (get metrics gu) (get forecasts gu))
        λ segment valid.
          let b : Built F =
            (set_item world gu segment, warned_for F gu (get metrics gu) warnings) in
          Returns_mono (IsBuiltFor metrics gus b) (IsBuiltFor metrics (gu ∷ gus) (world, warnings))
            (build_world F metrics forecasts gus b)
            (λ b' k. record {
              valid = k.valid;
              unique = k.unique;
              districts = λ gu_code.
                  ground (arith, k.districts gu_code, get-set_item world gu gu_code segment);
              warned = one_warning metrics gu gus warnings b' k.warned;
            })
            (build_world-IsBuiltFor metrics forecasts gus b
              (AllValues-set_item (IsValidSegment F) world gu segment v valid)
              (set_item-IsUnique world gu segment u))
