-- ===== src/Gold.antt =====
-- core/src/younggeul_core/state/gold.py: the metrics and the forecast of a district. A `Decimal` is
-- its digits as an integer, with the exponent of ten.
use mathlib.Core.Bool.{Bool, true, false, ◌&&◌, ◌||◌}
use mathlib.Core.Option.{Option, none, some}
use mathlib.Core.List.{List, [], ◌∷◌}
use younggeul.Prelude.{ℕ, ℤ, pos, negsuc, ltb_ℤ, not, leb, ◌==◌, String, codes}
use younggeul.Errors.{Result, ok, validation_error, guard, ◌>>◌}
use younggeul.Floats.{FloatOps, between}
use younggeul.State.{Trend}

abbrev pub Decimal : Type 0
Decimal = ℤ × ℤ

abbrev pub is_digit : ℕ → Bool
is_digit c = leb b'0' c && leb c b'9'

-- `0[1-9]|1[0-2]`
abbrev pub is_month : ℕ → ℕ → Bool
is_month a b =
    ((a == b'0') && leb b'1' b && leb b b'9') || ((a == b'1') && leb b'0' b && leb b b'2')

abbrev pub period_codes : List ℕ → Bool
period_codes (a ∷ b ∷ c ∷ d ∷ e ∷ f ∷ g ∷ []) =
    is_digit a && is_digit b && is_digit c && is_digit d && (e == b'-') && is_month f g
period_codes _ = false

-- The pattern of a period.
unfoldable pub is_period : String → Bool
is_period s = period_codes (codes s)

-- `decimal_places=2`
abbrev pub two_places : Option Decimal → Bool
two_places none = true
two_places (some (digits, exponent)) = not (ltb_ℤ exponent (negsuc 1))

pub record GoldDistrictMonthlyMetrics (F : FloatOps) : Type 0 where
  pub gu_code : String
  pub gu_name : String
  pub period : String
  pub sale_count : ℤ
  pub avg_price : ℤ
  pub median_price : ℤ
  pub min_price : ℤ
  pub max_price : ℤ
  pub price_per_pyeong_avg : ℤ
  pub yoy_price_change : Option F.Float
  pub mom_price_change : Option F.Float
  pub yoy_volume_change : Option F.Float
  pub mom_volume_change : Option F.Float
  pub avg_area_m2 : Option Decimal
  pub base_interest_rate : Option Decimal
  pub net_migration : Option ℤ
  pub dataset_snapshot_id : Option String

pub record BaselineForecast (F : FloatOps) : Type 0 where
  pub gu_code : String
  pub gu_name : String
  pub target_period : String
  pub direction : Trend
  pub direction_confidence : F.Float
  pub predicted_volume : Option ℤ
  pub predicted_median_price : Option ℤ
  pub model_name : String
  pub features_used : List String

module _ (F : FloatOps) where
  unfoldable pub gold_district_monthly_metrics :
      GoldDistrictMonthlyMetrics F → Result (GoldDistrictMonthlyMetrics F)
  unfolding is_period
  gold_district_monthly_metrics m = do
    guard (is_period m.period) (validation_error "period")
    guard (two_places m.base_interest_rate) (validation_error "base_interest_rate")
    ok m

  unfoldable pub baseline_forecast : BaselineForecast F → Result (BaselineForecast F)
  unfolding is_period
  baseline_forecast f = do
    guard (is_period f.target_period) (validation_error "target_period")
    guard (between F (F.decimal (pos 0) 1) f.direction_confidence (F.decimal (pos 10) 1))
        (validation_error "direction_confidence")
    ok f
