-- ===== src/World.antt =====
-- simulation/nodes/world_initializer.py and simulation/schemas/participant_roster.py: the segments and
-- the participants that a simulation starts with. The first four bytes of the SHA-256 of a seed and an
-- index are a parameter, and so are the reader of the snapshot and the validation of the roster.
pub mod Participants
pub mod Node
pub mod Segments
pub mod Ids
pub mod Count
use Prim.Native.String.{◌++◌}
use mathlib.Core.Bool.{Bool, true, false}
use mathlib.Core.Option.{Option, none, some}
use mathlib.Core.List.{List, [], ◌∷◌, ◌++◌ as ◌++l◌}
use younggeul.Prelude.{
  ℕ, ◌+◌, ◌-◌, ℤ, pos, negsuc, ltb_ℤ, ltb, ◌==◌, String, Dict, get, set_item, str, if◌then◌else◌,
}
use younggeul.Errors.{Result, ok, err, ◌>>=◌}
use younggeul.Floats.{FloatOps, clamp}
use younggeul.State.{CalendarDate, Trend, up, down, flat, SegmentState, segment_state}
use younggeul.Gold.{GoldDistrictMonthlyMetrics, BaselineForecast}
use younggeul.Resolver.Buckets.{Warning, no_gold_metrics}

-- `f"{n:02d}"`
abbrev pub two_digits : ℕ → String
two_digits n = if ltb n 10 then "0" ++ str (pos n) else str (pos n)

-- `_previous_month`
unfoldable pub previous_month : CalendarDate → String
previous_month d =
    if d.month == 1
    then str (pos (d.year - 1)) ++ "-12"
    else str (pos d.year) ++ ("-" ++ two_digits (d.month - 1))

module _ (F : FloatOps) where
  open F use {Float, add, sub, mul, lt, decimal}

  abbrev zero_float : Float
  zero_float = decimal (pos 0) 1

  abbrev pub trend_of_change : Option Float → Trend
  trend_of_change none = flat
  trend_of_change (some change) =
      if lt zero_float change then up else if lt change zero_float then down else flat

  -- `_derive_trend`
  unfoldable pub derive_trend : GoldDistrictMonthlyMetrics F → Option (BaselineForecast F) → Trend
  derive_trend metric (some forecast) = forecast.direction
  derive_trend metric none = trend_of_change metric.mom_price_change

  abbrev pub direction_sign : Trend → Float
  direction_sign up = decimal (pos 10) 1
  direction_sign down = decimal (negsuc 9) 1
  direction_sign flat = zero_float

  abbrev pub with_forecast : Option (BaselineForecast F) → Float → Float
  with_forecast none sentiment = sentiment
  with_forecast (some f) sentiment =
      add sentiment
        (mul (mul (direction_sign f.direction) (decimal (pos 15) 2)) f.direction_confidence)

  abbrev pub with_migration : Option ℤ → Float → Float
  with_migration none sentiment = sentiment
  with_migration (some net) sentiment =
      if ltb_ℤ (pos 0) net
      then add sentiment (decimal (pos 1) 1)
      else if ltb_ℤ net (pos 0)
      then sub sentiment (decimal (pos 1) 1)
      else sentiment

  abbrev pub supply_of : Option Float → Float
  supply_of none = zero_float
  supply_of (some change) = clamp F change (decimal (negsuc 9) 1) (decimal (pos 10) 1)

  -- `_build_segment`
  unfoldable pub build_segment :
      GoldDistrictMonthlyMetrics F → Option (BaselineForecast F) → Result (SegmentState F)
  unfolding derive_trend clamp segment_state
  build_segment metric forecast = segment_state F (record {
    gu_code = metric.gu_code;
    gu_name = metric.gu_name;
    current_median_price = metric.median_price;
    current_volume = metric.sale_count;
    price_trend = derive_trend metric forecast;
    sentiment_index =
        clamp F (with_migration metric.net_migration (with_forecast forecast (decimal (pos 5) 1)))
          (decimal (pos 0) 1) (decimal (pos 10) 1);
    supply_pressure = supply_of metric.mom_volume_change;
  })

  -- `_build_fallback_segment`
  unfoldable pub build_fallback_segment : String → Result (SegmentState F)
  unfolding segment_state
  build_fallback_segment gu_code = segment_state F (record {
    gu_code = gu_code;
    gu_name = gu_code;
    current_median_price = pos 500000;
    current_volume = pos 50;
    price_trend = flat;
    sentiment_index = decimal (pos 5) 1;
    supply_pressure = zero_float;
  })

  -- `{metric.gu_code: metric for metric in metrics}`, over the items so far
  unfoldable pub metrics_by_gu :
      List (GoldDistrictMonthlyMetrics F)
      → Dict (GoldDistrictMonthlyMetrics F)
      → Dict (GoldDistrictMonthlyMetrics F)
  metrics_by_gu [] d = d
  metrics_by_gu (m ∷ ms) d = metrics_by_gu ms (set_item d m.gu_code m)

  unfoldable pub forecast_by_gu :
      List (BaselineForecast F) → Dict (BaselineForecast F) → Dict (BaselineForecast F)
  forecast_by_gu [] d = d
  forecast_by_gu (f ∷ fs) d = forecast_by_gu fs (set_item d f.gu_code f)

  -- The world and the warnings so far.
  abbrev pub Built : Type 0
  Built = Dict (SegmentState F) × List Warning

  abbrev pub segment_for :
      String
      → Option (GoldDistrictMonthlyMetrics F)
      → Option (BaselineForecast F)
      → Result (SegmentState F)
  segment_for gu_code none forecast = build_fallback_segment gu_code
  segment_for gu_code (some metric) forecast = build_segment metric forecast

  abbrev pub warned_for :
      String → Option (GoldDistrictMonthlyMetrics F) → List Warning → List Warning
  warned_for gu_code none warnings = warnings ++l no_gold_metrics gu_code ∷ []
  warned_for gu_code (some metric) warnings = warnings

  -- `for gu_code in scenario.target_gus: …`
  unfoldable pub build_world :
      Dict (GoldDistrictMonthlyMetrics F)
      → Dict (BaselineForecast F)
      → List String
      → Built
      → Result Built
  unfolding build_segment build_fallback_segment
  build_world metrics forecasts [] b = ok b
  build_world metrics forecasts (gu_code ∷ rest) (world, warnings) = do
    segment ← segment_for gu_code (get metrics gu_code) (get forecasts gu_code)
    build_world metrics forecasts rest
        (set_item world gu_code segment, warned_for gu_code (get metrics gu_code) warnings)
