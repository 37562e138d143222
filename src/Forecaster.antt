-- ===== src/Forecaster.antt =====
-- forecaster.py: the baseline forecast of each district from its monthly metrics. The JSON report that
-- is written from the forecasts is left out.
pub mod Order
use Prim.Native.String.{◌++◌ as ◌+++◌}
use mathlib.Core.Bool.{Bool, true, false}
use mathlib.Core.Option.{Option, none, some}
use mathlib.Core.List.{List, [], ◌∷◌, ◌++◌, map}
use younggeul.Prelude.{
  ℕ, zero, suc, ◌+◌, ◌-◌, ℤ, pos, negsuc, ◌+ℤ◌, max_ℤ, ltb, leb, ◌==◌, String, Dict, get, set_item,
  keys, is_some, str_leb, sorted, length, decode, before_dash, after_dash, if◌then◌else◌,
}
use younggeul.Errors.{Result, ok, err, ◌>>=◌, require, value_error}
use younggeul.Floats.{FloatOps}
use younggeul.State.{Trend, up, down, flat}
use younggeul.Gold.{GoldDistrictMonthlyMetrics, BaselineForecast, baseline_forecast}
use younggeul.World.{two_digits}
use younggeul.World.Participants.{four_digits}

-- `_next_period`: a period has one dash; `decode` is `int` of a text of digits.
unfoldable pub next_period : String → String
unfolding before_dash after_dash decode
next_period period =
    let year = decode (before_dash period) 0 in
    let month = decode (after_dash period) 0 in
    if month == 12
    then four_digits (year + 1) +++ "-01"
    else four_digits year +++ ("-" +++ two_digits (month + 1))

module _ {A : Type 0} where
  abbrev pub without_first : ℕ → List A → List A
  without_first zero xs = xs
  without_first (suc n) [] = []
  without_first (suc n) (x ∷ xs) = without_first n xs

  -- `rows[-3:]` and `rows[-1]`
  abbrev pub last_three : List A → List A
  last_three xs = without_first (length xs - 3) xs

  abbrev pub last_one : List A → Option A
  last_one [] = none
  last_one (x ∷ []) = some x
  last_one (x ∷ (y ∷ ys)) = last_one (y ∷ ys)

  abbrev pub or_none : Option (List A) → List A
  or_none none = []
  or_none (some xs) = xs

module _ (F : FloatOps) where
  open F use {Float, add, sub, mul, div, lt, of_int, trunc, decimal}

  abbrev pub Metrics : Type 0
  Metrics = GoldDistrictMonthlyMetrics F

  -- `grouped[metric.gu_code].append(metric)`, over the groups so far
  unfoldable pub grouped : List Metrics → Dict (List Metrics) → Dict (List Metrics)
  grouped [] d = d
  grouped (m ∷ ms) d = grouped ms (set_item d m.gu_code (or_none (get d m.gu_code) ++ m ∷ []))

  abbrev pub or_zero : Option Float → Float
  or_zero none = decimal (pos 0) 1
  or_zero (some x) = x

  abbrev pub sum_of : List ℤ → ℤ
  sum_of [] = pos 0
  sum_of (n ∷ ns) = n +ℤ sum_of ns

  abbrev pub moving_average : List Metrics → Float
  moving_average rows =
      div (of_int (sum_of (map (λ r. r.avg_price) rows))) (of_int (pos (length rows)))

  abbrev pub ma3_signal : Metrics → Float → Float
  ma3_signal latest ma3 =
      if lt (of_int (pos 0)) ma3
      then mul (div (sub (of_int latest.avg_price) ma3) ma3) (decimal (pos 1000) 1)
      else decimal (pos 0) 1

  abbrev pub score_of : Metrics → List Metrics → Float
  score_of latest rows =
      add
        (add (mul (decimal (pos 6) 1) (or_zero latest.mom_price_change))
          (mul (decimal (pos 3) 1) (ma3_signal latest (moving_average (last_three rows)))))
        (mul (decimal (pos 1) 1) (or_zero latest.mom_volume_change))

  abbrev pub direction_of : Float → Trend
  direction_of score =
      if lt (decimal (pos 10) 1) score
      then up
      else if lt score (decimal (negsuc 9) 1)
      then down
      else flat

  abbrev pub confidence_of : ℕ → Float
  confidence_of rows =
      if leb 12 rows
      then decimal (pos 8) 1
      else if leb 6 rows
      then decimal (pos 6) 1
      else if leb 3 rows
      then decimal (pos 4) 1
      else decimal (pos 2) 1

  abbrev pub projected : ℤ → Option Float → ℤ
  projected n none = n
  projected n (some change) =
      trunc (mul (of_int n) (add (of_int (pos 1)) (div change (of_int (pos 100)))))

  -- `[name for name in feature_candidates if getattr(latest, name) is not None]`
  abbrev pub named {ℓ} : {A : Type ℓ} → String → Option A → List String → List String
  named name none rest = rest
  named name (some a) rest = name ∷ rest

  abbrev pub features_of : Metrics → List String
  features_of m = named "mom_price_change" m.mom_price_change (
      named "yoy_price_change" m.yoy_price_change (
        named "mom_volume_change" m.mom_volume_change (
          named "yoy_volume_change" m.yoy_volume_change (
            named "base_interest_rate" m.base_interest_rate
              (named "net_migration" m.net_migration [])))))

  abbrev pub forecast_of : Metrics → List Metrics → BaselineForecast F
  forecast_of latest rows = record {
    gu_code = latest.gu_code;
    gu_name = latest.gu_name;
    target_period = next_period latest.period;
    direction = direction_of (score_of latest rows);
    direction_confidence = confidence_of (length rows);
    predicted_volume = some (max_ℤ (pos 0) (projected latest.sale_count latest.mom_volume_change));
    predicted_median_price = some (projected latest.median_price latest.mom_price_change);
    model_name = "momentum_v1";
    features_used = features_of latest;
  }

  unfoldable pub forecast_rows : List Metrics → Result (BaselineForecast F)
  unfolding next_period baseline_forecast
  forecast_rows rows = do
    latest ← require (last_one rows) (value_error "no rows")
    baseline_forecast F (forecast_of latest rows)

  -- `for gu_code in sorted(grouped): …`
  unfoldable pub forecast_each :
      Dict (List Metrics) → List String → Result (List (BaselineForecast F))
  unfolding forecast_rows
  forecast_each groups [] = ok []
  forecast_each groups (gu_code ∷ rest) = do
    forecast ←
        forecast_rows (sorted (λ a b. str_leb a.period b.period) (or_none (get groups gu_code)))
    forecasts ← forecast_each groups rest
    ok (forecast ∷ forecasts)

  unfoldable pub forecast_baseline : List Metrics → Result (List (BaselineForecast F))
  unfolding grouped forecast_each
  forecast_baseline metrics =
      let groups = grouped metrics [] in forecast_each groups (sorted str_leb (keys groups))
