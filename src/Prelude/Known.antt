-- ===== src/Prelude/Known.antt =====
-- Lists of texts: what selecting, sorting and appending do to what they know, and that they keep a
-- list without repetition so.
use Prim.Native.String.{String}
use mathlib.Core.Path.{◌≡◌, refl, ap, ◌∙◌}
use mathlib.Core.Bool.{Bool, true, false}
use mathlib.Core.Logic.{inl, inr}
use mathlib.Core.List.{List, [], ◌∷◌, ◌++◌}
use native.Mathlib.Omega.{arith}
use text.Mathlib.Text.{◌==◌}
use text.Mathlib.TextEquality.{eq_iff}
use younggeul.Prelude.Tests.{if◌then◌else◌, Bool-cases}
use younggeul.Prelude.Text.{str_leb}
use younggeul.Prelude.Lists.{All, select, sorted, insert_sorted}
use younggeul.Prelude.Dicts.{knows}
use younggeul.Prelude.Unique.{IsUnique}

pub knows-append :
    (js ks : List String) (k : String)
    → knows (js ++ ks) k ≡ (if knows js k then true else knows ks k)
unfolding knows
knows-append [] ks k = refl
knows-append (j ∷ js) ks k = ground (arith, knows-append js ks k)

pub knows-select :
    (p : String → Bool) (ks : List String) (k : String)
    → knows (select p ks) k ≡ (if knows ks k then p k else false)
unfolding knows select
knows-select p [] k = refl
knows-select p (j ∷ ks) k = elim (Bool-cases (j == k)) [
  | inl e ↦
      let same : p j ≡ p k = ap p ((eq_iff j k).0 e) in ground (arith, knows-select p ks k, same, e)
  | inr e ↦ ground (arith, knows-select p ks k, e)
]

pub knows-insert_sorted :
    (j : String) (ks : List String) (k : String)
    → knows (insert_sorted str_leb j ks) k ≡ knows (j ∷ ks) k
unfolding knows insert_sorted
knows-insert_sorted j [] k = refl
knows-insert_sorted j (i ∷ ks) k = ground (arith, knows-insert_sorted j ks k)

pub knows-sorted : (ks : List String) (k : String) → knows (sorted str_leb ks) k ≡ knows ks k
unfolding knows sorted
knows-sorted [] k = refl
knows-sorted (j ∷ ks) k =
    knows-insert_sorted j (sorted str_leb ks) k ∙ ground (arith, knows-sorted ks k)

pub select-IsUnique : (p : String → Bool) (ks : List String) → IsUnique ks → IsUnique (select p ks)
unfolding select
select-IsUnique p [] u = tt
select-IsUnique p (k ∷ ks) u = elim (Bool-cases (p k)) [
  | inl e ↦ rw e (knows-select p ks k ∙ rw u.0 refl, select-IsUnique p ks u.1)
  | inr e ↦ rw e (select-IsUnique p ks u.1)
]

insert_sorted-IsUnique :
    (j : String) (ks : List String)
    → knows ks j ≡ false
    → IsUnique ks
    → IsUnique (insert_sorted str_leb j ks)
unfolding insert_sorted knows
insert_sorted-IsUnique j [] h u = (refl, tt)
insert_sorted-IsUnique j (k ∷ ks) h u = elim (Bool-cases (str_leb j k)) [
  | inl e ↦ rw e (h, u)
  | inr e ↦
      let apart : (j == k) ≡ false = ground (arith, h, eq_iff k j, eq_iff j k) in
      let other : knows ks j ≡ false = ground (arith, h) in
      rw e (knows-insert_sorted j ks k ∙ rw apart u.0, insert_sorted-IsUnique j ks other u.1)
]

pub sorted-IsUnique : (ks : List String) → IsUnique ks → IsUnique (sorted str_leb ks)
unfolding sorted
sorted-IsUnique [] u = tt
sorted-IsUnique (k ∷ ks) u =
    insert_sorted-IsUnique k (sorted str_leb ks) (knows-sorted ks k ∙ u.0) (sorted-IsUnique ks u.1)

pub append-IsUnique :
    (js ks : List String)
    → IsUnique js
    → IsUnique ks
    → All (λ j. knows ks j ≡ false) js
    → IsUnique (js ++ ks)
append-IsUnique [] ks u v h = v
append-IsUnique (j ∷ js) ks u v h =
    (knows-append js ks j ∙ rw u.0 h.0, append-IsUnique js ks u.1 v h.1)
