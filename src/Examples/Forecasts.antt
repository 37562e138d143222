-- ===== src/Examples/Forecasts.antt =====
-- The theorem on the forecaster, applied to two months of one district.
use mathlib.Core.List.{List, [], ◌∷◌}
use younggeul.Prelude.{String}
use younggeul.Errors.{OnOk}
use younggeul.Gold.{GoldDistrictMonthlyMetrics}
use younggeul.Forecaster.{forecast_baseline}
use younggeul.Forecaster.Order.{AreDistrictsOf, AreForecastsOf, forecast_baseline-AreForecastsOf}
use younggeul.Examples.Fixed.{fixed}
use younggeul.Examples.Published.{row}

abbrev months : List (GoldDistrictMonthlyMetrics fixed)
months = row ∷ record row { period = "2025-12" } ∷ []

forecast_baseline-AreForecastsOf_example :
    (ks : List String) × AreDistrictsOf fixed months ks
    × OnOk (AreForecastsOf fixed ks) (forecast_baseline fixed months)
forecast_baseline-AreForecastsOf_example = forecast_baseline-AreForecastsOf fixed months
