-- ===== src/Prelude/Dicts.antt =====
-- Python's `dict` with string keys, as a list of its items in insertion order.
use Prim.Native.Nat.{◌+◌}
use Prim.Native.String.{String}
use mathlib.Core.Path.{◌≡◌, refl, ap, sym, subst}
use mathlib.Core.Bool.{Bool, true, false}
use mathlib.Core.Logic.{inl, inr}
use mathlib.Core.Option.{Option, none, some}
use mathlib.Core.List.{List, [], ◌∷◌, map}
use native.Mathlib.Omega.{arith}
use text.Mathlib.Text.{◌==◌}
use text.Mathlib.TextEquality.{eq_iff}
use younggeul.Prelude.Tests.{if◌then◌else◌, is_some, Bool-cases, some-eq}
use younggeul.Prelude.Lists.{All, length}
use younggeul.Prelude.Int.{ℤ, pos, ◌+ℤ◌, int_laws, parts_of_eq}

abbrev pub Dict {ℓ} : Type ℓ → Type ℓ
Dict V = List (String × V)

module _ {ℓ} {V : Type ℓ} where
  -- `d.get(k)`
  unfoldable pub get : Dict V → String → Option V
  get [] k = none
  get ((j, v) ∷ d) k = if j == k then some v else get d k

  -- `k in d`
  abbrev pub has : Dict V → String → Bool
  has d k = is_some (get d k)

  -- `d[k] = v`: a key that is there keeps its place, a new one goes to the end.
  unfoldable pub set_item : Dict V → String → V → Dict V
  set_item [] k v = (k, v) ∷ []
  set_item ((j, w) ∷ d) k v = if j == k then (k, v) ∷ d else (j, w) ∷ set_item d k v

  -- `d.pop(k, None)`
  unfoldable pub without : Dict V → String → Dict V
  without [] k = []
  without ((j, v) ∷ d) k = let rest = without d k in if j == k then rest else (j, v) ∷ rest

  abbrev pub keys : Dict V → List String
  keys = map (λ e. e.0)

  abbrev pub values : Dict V → List V
  values = map (λ e. e.1)

  pub get-set_item :
      (d : Dict V) (k j : String) (v : V)
      → get (set_item d k v) j ≡ (if k == j then some v else get d j)
  unfolding get set_item
  get-set_item [] k j v = refl
  get-set_item ((i, w) ∷ d) k j v =
      ground (arith, eq_iff k j, eq_iff i k, eq_iff i j, get-set_item d k j v)

  pub get-without :
      (d : Dict V) (k j : String) → get (without d k) j ≡ (if k == j then none else get d j)
  unfolding get without
  get-without [] k j = ground arith
  get-without ((i, w) ∷ d) k j =
      ground (arith, eq_iff k j, eq_iff i k, eq_iff i j, get-without d k j)

  -- A write to a key that is there keeps the keys and their order.
  pub keys-set_item :
      (d : Dict V) (k : String) (v old : V) → get d k ≡ some old → keys (set_item d k v) ≡ keys d
  unfolding get set_item
  keys-set_item [] k v old h = cc
  keys-set_item ((j, w) ∷ d) k v old h = elim (Bool-cases (j == k)) [
    | inl e ↦ rw e (ap (λ (s : String). s ∷ keys d) (sym ((eq_iff j k).0 e)))
    | inr e ↦ rw e (ap (λ (l : List String). j ∷ l) (keys-set_item d k v old (rw e at h)))
  ]

  -- A property of all values.
  abbrev pub AllValues {κ} : (V → Type κ) → Dict V → Type κ
  AllValues P = All (λ e. P e.1)

  pub AllValues-get {κ} :
      (P : V → Type κ) (d : Dict V) (k : String) {v : V} → AllValues P d → get d k ≡ some v → P v
  unfolding get
  AllValues-get P [] k a h = absurd (cc)
  AllValues-get P ((j, w) ∷ d) k {v} a h = elim (Bool-cases (j == k)) [
    | inl e ↦ let same : w ≡ v = ground arith in subst P same a.0
    | inr e ↦ AllValues-get P d k a.1 (rw e at h)
  ]

  pub AllValues-set_item {κ} :
      (P : V → Type κ) (d : Dict V) (k : String) (v : V)
      → AllValues P d
      → P v
      → AllValues P (set_item d k v)
  unfolding set_item
  AllValues-set_item P [] k v a p = (p, tt)
  AllValues-set_item P ((j, w) ∷ d) k v a p = elim (Bool-cases (j == k)) [
    | inl e ↦ rw e (p, a.1)
    | inr e ↦ rw e (a.0, AllValues-set_item P d k v a.1 p)
  ]

  -- `sum(f(v) for v in d.values())`
  abbrev pub total : (V → ℤ) → Dict V → ℤ
  total f [] = pos 0
  total f ((k, v) ∷ d) = f v +ℤ total f d

  -- A write to a key that is there moves a total by the difference of the two values.
  pub total-set_item :
      (f : V → ℤ) (d : Dict V) (k : String) (v old : V)
      → get d k ≡ some old
      → total f (set_item d k v) +ℤ f old ≡ total f d +ℤ f v
  unfolding get set_item
  total-set_item f [] k v old h = cc
  total-set_item f ((j, w) ∷ d) k v old h = elim (Bool-cases (j == k)) [
    | inl e ↦ let same : w ≡ old = ground arith in rw e (rw same (omega int_laws))
    | inr e ↦ rw e (omega (int_laws, parts_of_eq (total-set_item f d k v old (rw e at h))))
  ]

module _ {ℓ} {V : Type ℓ} where
  pub total-new_item :
      (f : V → ℤ) (d : Dict V) (k : String) (v : V)
      → get d k ≡ none
      → total f (set_item d k v) ≡ total f d +ℤ f v
  unfolding get set_item
  total-new_item f [] k v h = omega int_laws
  total-new_item f ((j, w) ∷ d) k v h = elim (Bool-cases (j == k)) [
    | inl e ↦ absurd (ground arith)
    | inr e ↦ rw e (omega (int_laws, parts_of_eq (total-new_item f d k v (rw e at h))))
  ]

module _ {V : Type 0} where
  pub length-new_item :
      (d : Dict V) (k : String) (v : V) → has d k ≡ false → length (set_item d k v) ≡ length d + 1
  unfolding get set_item
  length-new_item [] k v h = refl
  length-new_item ((j, w) ∷ d) k v h = elim (Bool-cases (j == k)) [
    | inl e ↦ absurd (ground arith)
    | inr e ↦ rw e (omega (arith, length-new_item d k v (rw e at h)))
  ]

-- `k in ks`, over a list of keys
unfoldable pub knows : List String → String → Bool
knows [] k = false
knows (j ∷ js) k = if j == k then true else knows js k

module _ {ℓ} {V : Type ℓ} where
  pub has-knows : (d : Dict V) (k : String) → has d k ≡ knows (keys d) k
  unfolding get knows
  has-knows [] k = refl
  has-knows ((j, v) ∷ d) k = ground (arith, has-knows d k)

  -- A key that is known has a value.
  pub knows-get : (d : Dict V) (k : String) → knows (keys d) k ≡ true → (v : V) × (get d k ≡ some v)
  unfolding get knows
  knows-get [] k h = cc
  knows-get ((j, v) ∷ d) k h = elim (Bool-cases (j == k)) [
    | inl e ↦ (v, rw e)
    | inr e ↦ let (w, found) = knows-get d k (rw e at h) in (w, rw e found)
  ]

-- A property of all items, key and value.
module _ {ℓ} {V : Type ℓ} (P : String → V → Type 0) where
  abbrev pub AllItems : Dict V → Type 0
  AllItems = All (λ e. P e.0 e.1)

  pub AllItems-get : (d : Dict V) (k : String) {v : V} → AllItems d → get d k ≡ some v → P k v
  unfolding get
  AllItems-get [] k a h = absurd (cc)
  AllItems-get ((j, w) ∷ d) k {v} a h = elim (Bool-cases (j == k)) [
    | inl e ↦
        let same : w ≡ v = some-eq (rw e at h) in
        subst (P k) same (subst (λ (s : String). P s w) ((eq_iff j k).0 e) a.0)
    | inr e ↦ AllItems-get d k a.1 (rw e at h)
  ]

  pub AllItems-set_item :
      (d : Dict V) (k : String) (v : V) → AllItems d → P k v → AllItems (set_item d k v)
  unfolding set_item
  AllItems-set_item [] k v a p = (p, tt)
  AllItems-set_item ((j, w) ∷ d) k v a p = elim (Bool-cases (j == k)) [
    | inl e ↦ rw e (p, a.1)
    | inr e ↦ rw e (a.0, AllItems-set_item d k v a.1 p)
  ]

module _ {ℓ} {V : Type ℓ} (Q : String → Type 0) where
  -- A property of the keys, from one of the items.
  pub All-keys :
      (P : String → V → Type 0) (d : Dict V)
      → ((k : String) (v : V) → P k v → Q k)
      → AllItems P d
      → All Q (keys d)
  All-keys P [] f a = tt
  All-keys P ((k, v) ∷ d) f a = (f k v a.0, All-keys P d f a.1)

  pub All-keys-set_item :
      (d : Dict V) (k : String) (v : V) → All Q (keys d) → Q k → All Q (keys (set_item d k v))
  unfolding set_item
  All-keys-set_item [] k v a q = (q, tt)
  All-keys-set_item ((j, w) ∷ d) k v a q = elim (Bool-cases (j == k)) [
    | inl e ↦ rw e (q, a.1)
    | inr e ↦ rw e (a.0, All-keys-set_item d k v a.1 q)
  ]
