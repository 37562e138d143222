-- ===== src/Prelude/Unique.antt =====
-- The keys of a `dict` are distinct, so that a lookup finds each of its items.
use mathlib.Core.Path.{◌≡◌, refl, ap, sym, ◌∙◌}
use mathlib.Core.Bool.{false}
use mathlib.Core.Logic.{inl, inr}
use mathlib.Core.Option.{some}
use mathlib.Core.List.{List, [], ◌∷◌}
use native.Mathlib.Omega.{arith}
use text.Mathlib.Text.{◌==◌}
use text.Mathlib.TextEquality.{eq_iff}
use younggeul.Prelude.Tests.{is_some, Bool-cases}
use younggeul.Prelude.Lists.{All-map}
use Prim.Native.String.{String}
use younggeul.Prelude.Dicts.{Dict, get, set_item, get-set_item, keys, knows, has-knows, AllItems}

abbrev pub IsUnique : List String → Type 0
IsUnique [] = Unit
IsUnique (k ∷ ks) = (knows ks k ≡ false) × IsUnique ks

module _ {V : Type 0} where
  pub set_item-IsUnique :
      (d : Dict V) (k : String) (v : V) → IsUnique (keys d) → IsUnique (keys (set_item d k v))
  unfolding knows set_item
  set_item-IsUnique [] k v u = (refl, tt)
  set_item-IsUnique ((j, w) ∷ d) k v u = elim (Bool-cases (j == k)) [
    | inl e ↦ rw e (rw ((eq_iff j k).0 e) at u)
    | inr e ↦
        let elsewhere : get (set_item d k v) j ≡ get d j =
          ground (arith, get-set_item d k j v, eq_iff j k, eq_iff k j) in
        rw e (
          sym (has-knows (set_item d k v) j) ∙ ap is_some elsewhere ∙ has-knows d j ∙ u.0,
          set_item-IsUnique d k v u.1,
        )
  ]

  -- Where the keys are distinct, a lookup finds each item.
  pub items-get : (d : Dict V) → IsUnique (keys d) → AllItems (λ k v. get d k ≡ some v) d
  unfolding get
  items-get [] u = tt
  items-get ((j, w) ∷ d) u = (
    rw ((eq_iff j j).1 refl) refl,
    All-map (λ e. get d e.0 ≡ some e.1) _ d
        (λ e h.
          let apart : (j == e.0) ≡ false = ground (arith, eq_iff j e.0, has-knows d j, u.0, h) in
          rw apart h)
        (items-get d u.1),
  )
