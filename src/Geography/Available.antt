-- ===== src/Geography/Available.antt =====
-- simulation/domain/gu_resolver.py: only districts of the snapshot are ever named.
use mathlib.Core.Path.{◌≡◌, refl}
use mathlib.Core.Bool.{Bool, true, false}
use mathlib.Core.Logic.{◌⊎◌, inl, inr}
use mathlib.Core.Option.{Option, none, some}
use mathlib.Core.List.{List, [], ◌∷◌}
use native.Mathlib.Omega.{arith}
use text.Mathlib.Text.{◌==◌}
use text.Mathlib.TextEquality.{eq_iff}
use younggeul.Prelude.{String, get, has, knows, All, All-map, All-select, Bool-cases}
use younggeul.Regions.{seoul_gu_code_to_name, seoul_gu_name_to_code}
use younggeul.Geography.{
  Resolution, lstrip, rstrip, direct, or_unresolved, by_name, resolve_gu_codes,
}

abbrev is_empty : List String → Bool
is_empty [] = true
is_empty (c ∷ cs) = false

-- The codes are available ones, there are some if any are available, and a warning is given only where
-- all of them are taken.
pub record IsResolved (available : List String) (r : Resolution) : Type 0 where
  pub known : All (λ c. knows available c ≡ true) r.0
  pub some_code : is_empty r.0 ≡ is_empty available
  pub warned : (r.1 ≡ []) ⊎ (r.0 ≡ available)

self-known : (cs : List String) → All (λ c. knows cs c ≡ true) cs
unfolding knows
self-known [] = tt
self-known (c ∷ cs) = (
  rw ((eq_iff c c).1 refl) refl,
  All-map (λ d. knows cs d ≡ true) _ cs (λ d h. ground (arith, h)) (self-known cs),
)

all-IsResolved : (available warnings : List String) → IsResolved available (available, warnings)
all-IsResolved available warnings = record {
  known = self-known available;
  some_code = refl;
  warned = inr refl;
}

knows-some : (cs : List String) (c : String) → knows cs c ≡ true → false ≡ is_empty cs
unfolding knows
knows-some [] c h = h
knows-some (d ∷ cs) c h = refl

direct-IsResolved :
    (available : List String) (code_of warning : String)
    → IsResolved available (direct available code_of warning)
direct-IsResolved available code_of warning = elim (Bool-cases (knows available code_of)) [
  | inl e ↦
      rw e
        (record { known = (e, tt); some_code = knows-some available code_of e; warned = inl refl })
  | inr e ↦ rw e (all-IsResolved available (warning ∷ []))
]

unresolved-IsResolved :
    (available codes : List String) (hint : String)
    → All (λ c. knows available c ≡ true) codes
    → IsResolved available (or_unresolved available codes hint)
unresolved-IsResolved available [] hint a = all-IsResolved available _
unresolved-IsResolved available (c ∷ codes) hint a = record {
  known = a;
  some_code = knows-some available c a.0;
  warned = inl refl;
}

by_name-IsResolved :
    (o : Option String) (available : List String) (hint given : String)
    → IsResolved available (by_name o available hint given)
by_name-IsResolved (some code_of) available hint given = direct-IsResolved available code_of _
by_name-IsResolved none available hint given =
    unresolved-IsResolved available _ given
      (All-select (λ c. knows available c ≡ true) _ available (self-known available))

-- Whatever the hint is, the districts that it is resolved to are available ones; there is one, unless
-- none is available; and where a warning is given, all that are available are taken.
pub resolve_gu_codes-IsResolved :
    (hint : Option String) (available : List String)
    → IsResolved available (resolve_gu_codes hint available)
unfolding resolve_gu_codes
resolve_gu_codes-IsResolved none available = all-IsResolved available []
resolve_gu_codes-IsResolved (some given) available =
    let hint = rstrip (lstrip given) in
    elim (Bool-cases (hint == "")) [
      | inl e ↦ rw e (all-IsResolved available _)
      | inr e ↦ elim (Bool-cases (has seoul_gu_code_to_name hint)) [
        | inl f ↦ rw (e, f) (direct-IsResolved available hint _)
        | inr f ↦
            rw (e, f) (by_name-IsResolved (get seoul_gu_name_to_code hint) available hint given)
      ]
    ]
