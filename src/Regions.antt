-- ===== src/Regions.antt =====
-- canonical/regions.py: the districts of Seoul, by code and by name.
use mathlib.Core.Path.{◌≡◌, refl}
use mathlib.Core.Option.{some}
use mathlib.Core.List.{List, [], ◌∷◌, map}
use younggeul.Prelude.{String, Dict, get, set_item, AllItems, AllItems-get}

abbrev pub seoul_gu_items : List (String × String)
seoul_gu_items =
    ("11110", "종로구")
    ∷ ("11140", "중구")
    ∷ ("11170", "용산구")
    ∷ ("11200", "성동구")
    ∷ ("11215", "광진구")
    ∷ ("11230", "동대문구")
    ∷ ("11260", "중랑구")
    ∷ ("11290", "성북구")
    ∷ ("11305", "강북구")
    ∷ ("11320", "도봉구")
    ∷ ("11350", "노원구")
    ∷ ("11380", "은평구")
    ∷ ("11410", "서대문구")
    ∷ ("11440", "마포구")
    ∷ ("11470", "양천구")
    ∷ ("11500", "강서구")
    ∷ ("11530", "구로구")
    ∷ ("11545", "금천구")
    ∷ ("11560", "영등포구")
    ∷ ("11590", "동작구")
    ∷ ("11620", "관악구")
    ∷ ("11650", "서초구")
    ∷ ("11680", "강남구")
    ∷ ("11710", "송파구")
    ∷ ("11740", "강동구")
    ∷ []

-- `dict(items)`, over the items so far
unfoldable pub dict_of : List (String × String) → Dict String → Dict String
dict_of [] d = d
dict_of ((k, v) ∷ items) d = dict_of items (set_item d k v)

unfoldable pub seoul_gu_code_to_name : Dict String
unfolding dict_of
seoul_gu_code_to_name = dict_of seoul_gu_items []

unfoldable pub seoul_gu_name_to_code : Dict String
unfolding dict_of
seoul_gu_name_to_code = dict_of (map (λ e. (e.1, e.0)) seoul_gu_items) []

names_back :
    AllItems (λ code name. get seoul_gu_name_to_code name ≡ some code) seoul_gu_code_to_name
unfolding seoul_gu_code_to_name seoul_gu_name_to_code dict_of set_item get
names_back = (
  refl,
  (
    refl,
    (
      refl,
      (
        refl,
        (
          refl,
          (
            refl,
            (
              refl,
              (
                refl,
                (
                  refl,
                  (
                    refl,
                    (
                      refl,
                      (
                        refl,
                        (
                          refl,
                          (
                            refl,
                            (
                              refl,
                              (
                                refl,
                                (
                                  refl,
                                  (
                                    refl,
                                    (refl, (refl, (refl, (refl, (refl, (refl, (refl, tt))))))),
                                  ),
                                ),
                              ),
                            ),
                          ),
                        ),
                      ),
                    ),
                  ),
                ),
              ),
            ),
          ),
        ),
      ),
    ),
  ),
)

-- The name that a code has leads back to the code, so no two codes share a name.
pub code_to_name_round_trip :
    (code name : String)
    → get seoul_gu_code_to_name code ≡ some name
    → get seoul_gu_name_to_code name ≡ some code
code_to_name_round_trip code name h =
    AllItems-get (λ c n. get seoul_gu_name_to_code n ≡ some c) seoul_gu_code_to_name code names_back
      h
