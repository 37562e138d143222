-- ===== src/Geography.antt =====
-- simulation/domain/gu_resolver.py: the districts that a hint in a query names.
pub mod Available
use Prim.Native.Char.{Char, code}
use Prim.Native.String.{◌++◌ as ◌+++◌}
use mathlib.Core.Bool.{Bool, true, false, ◌&&◌, ◌||◌}
use mathlib.Core.Option.{Option, none, some}
use mathlib.Core.List.{List, [], ◌∷◌}
use text.Mathlib.Text.{◌==◌ as ◌=s=◌}
use younggeul.Prelude.{
  ℕ, leb, ◌==◌, String, get, has, knows, select, is_some, after_prefix, if◌then◌else◌,
}
use younggeul.Regions.{seoul_gu_code_to_name, seoul_gu_name_to_code}

-- `str.isspace`
abbrev pub is_space : ℕ → Bool
is_space c =
    (leb 9 c && leb c 13)
    || (leb 28 c && leb c 32)
    || (c == 133)
    || (c == 160)
    || (c == 5760)
    || (leb 8192 c && leb c 8202)
    || (c == 8232)
    || (c == 8233)
    || (c == 8239)
    || (c == 8287)
    || (c == 12288)

unfoldable pub lstrip : String → String
lstrip String.[] = ""
lstrip (String.◌∷◌ c s) = let rest = lstrip s in if is_space (code c) then rest else String.◌∷◌ c s

-- A white space with nothing after it goes.
abbrev pub keep_char : Char → String → String
keep_char c String.[] = if is_space (code c) then "" else String.◌∷◌ c ""
keep_char c (String.◌∷◌ d s) = String.◌∷◌ c (String.◌∷◌ d s)

unfoldable pub rstrip : String → String
rstrip String.[] = ""
rstrip (String.◌∷◌ c s) = keep_char c (rstrip s)

-- `text in hint`
unfoldable pub contains : String → String → Bool
contains text String.[] = is_some (after_prefix "" text)
contains text (String.◌∷◌ c s) =
    let rest = contains text s in
    if is_some (after_prefix (String.◌∷◌ c s) text) then true else rest

abbrev pub name_in : String → Option String → Bool
name_in hint none = false
name_in hint (some name) = contains name hint

-- The codes, and the warnings.
abbrev pub Resolution : Type 0
Resolution = List String × List String

abbrev pub direct : List String → String → String → Resolution
direct available code_of warning =
    if knows available code_of then (code_of ∷ [], []) else (available, warning ∷ [])

abbrev pub or_unresolved : List String → List String → String → Resolution
or_unresolved available [] hint = (
  available,
  ("Could not resolve geography hint '" +++ (hint +++ "'; using all available districts.")) ∷ [],
)
or_unresolved available (code_of ∷ codes) hint = (code_of ∷ codes, [])

abbrev pub by_name : Option String → List String → String → String → Resolution
by_name (some code_of) available hint given =
    direct available code_of
      ("Requested district '" +++ (hint +++ "' is unavailable in snapshot coverage."))
by_name none available hint given =
    or_unresolved available
      (select (λ code_of. name_in hint (get seoul_gu_code_to_name code_of)) available) given

abbrev pub resolve_hint : String → String → List String → Resolution
resolve_hint hint given available =
    if hint =s= ""
    then (available, "Geography hint was empty; using all available districts." ∷ [])
    else if has seoul_gu_code_to_name hint
    then direct available hint
        ("Requested gu code '" +++ (hint +++ "' is unavailable in snapshot coverage."))
    else by_name (get seoul_gu_name_to_code hint) available hint given

unfoldable pub resolve_gu_codes : Option String → List String → Resolution
unfolding lstrip rstrip contains
resolve_gu_codes none available = (available, [])
resolve_gu_codes (some given) available = resolve_hint (rstrip (lstrip given)) given available
