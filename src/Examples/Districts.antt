-- ===== src/Examples/Districts.antt =====
-- The theorems on the districts, applied to one, and to a hint that names it.
use mathlib.Core.Path.{◌≡◌, refl}
use mathlib.Core.Option.{some}
use younggeul.Prelude.{get, set_item}
use mathlib.Core.List.{List, [], ◌∷◌}
use younggeul.Prelude.{String}
use younggeul.Geography.{resolve_gu_codes}
use younggeul.Geography.Available.{IsResolved, resolve_gu_codes-IsResolved}
use younggeul.Regions.{
  dict_of, seoul_gu_code_to_name, seoul_gu_name_to_code, code_to_name_round_trip,
}

mapo : get seoul_gu_code_to_name "11440" ≡ some "마포구"
unfolding seoul_gu_code_to_name dict_of set_item get
mapo = refl

code_to_name_round_trip_example : get seoul_gu_name_to_code "마포구" ≡ some "11440"
code_to_name_round_trip_example = code_to_name_round_trip "11440" "마포구" mapo

abbrev covered : List String
covered = "11680" ∷ "11440" ∷ []

resolve_gu_codes-IsResolved_example :
    IsResolved covered (resolve_gu_codes (some " 마포구 아파트") covered)
resolve_gu_codes-IsResolved_example = resolve_gu_codes-IsResolved (some " 마포구 아파트") covered
