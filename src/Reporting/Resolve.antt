-- ===== src/Reporting/Resolve.antt =====
-- simulation/nodes/report_writer.py and citation_gate_node.py: the ids that the writer merges are
-- those that the gate resolves.
use mathlib.Core.Path.{◌≡◌, refl, sym, ap, ◌∙◌, subst}
use mathlib.Core.Bool.{Bool, true, ◌&&◌}
use mathlib.Core.Logic.{inl, inr}
use mathlib.Core.Option.{some}
use mathlib.Core.List.{List, [], ◌∷◌, ◌++◌, map}
use native.Mathlib.Omega.{arith}
use text.Mathlib.Text.{◌==◌}
use text.Mathlib.TextEquality.{eq_iff}
use younggeul.Prelude.{
  All-mapped, String, Dict, get, values, str_leb, any, any-sorted, select, All, All-sorted,
  All-append, All-map, AllItems, items-get, Bool-cases, some-eq,
}
use younggeul.Evidence.{EvidenceRecord, EvidenceStore, get_record}
use younggeul.Evidence.Store.{IsWellFormed}
use younggeul.Reporting.Write.{distinct, merge_evidence_ids}
use younggeul.Reporting.Gate.{resolved, resolve_each}

module _ {ℓ} {A : Type ℓ} where
  any-append : (p : A → Bool) (xs ys : List A) → any p xs ≡ true → any p (xs ++ ys) ≡ true
  unfolding any
  any-append p [] ys h = cc
  any-append p (x ∷ xs) ys h = ground (arith, any-append p xs ys)

  pub any-select :
      (p q : A → Bool) (xs : List A) → any (λ x. p x && q x) xs ≡ true → any q (select p xs) ≡ true
  unfolding any select
  any-select p q [] h = h
  any-select p q (x ∷ xs) h = ground (arith, any-select p q xs)

  any-map {κ} :
      {B : Type κ} (f : A → B) (q : B → Bool) (xs : List A)
      → any (λ x. q (f x)) xs ≡ true
      → any q (map f xs) ≡ true
  unfolding any
  any-map f q [] h = h
  any-map f q (x ∷ xs) h = ground (arith, any-map f q xs)

  pub All-unmapped {κ μ} :
      {B : Type κ} (f : A → B) (Q : B → Type μ) (xs : List A)
      → All Q (map f xs)
      → All (λ x. Q (f x)) xs
  All-unmapped f Q [] h = tt
  All-unmapped f Q (x ∷ xs) h = (h.0, All-unmapped f Q xs h.1)

  pub All-prefix {κ} : (P : A → Type κ) (xs ys : List A) → All P (xs ++ ys) → All P xs
  All-prefix P [] ys h = tt
  All-prefix P (x ∷ xs) ys h = (h.0, All-prefix P xs ys h.1)

-- A value that is found is among the values.
pub get-any :
    {V : Type 0} (d : Dict V) (k : String) (v : V) (p : V → Bool)
    → get d k ≡ some v
    → p v ≡ true
    → any p (values d) ≡ true
unfolding get any
get-any [] k v p h t = cc
get-any ((j, w) ∷ d) k v p h t = elim (Bool-cases (j == k)) [
  | inl e ↦ ground arith
  | inr e ↦ let rest = get-any d k v p (rw e at h) t in ground arith
]

-- The set of ids has the ids of the list.
distinct-any :
    (k : String) (ids : List String)
    → any (λ j. j == k) ids ≡ true
    → any (λ j. j == k) (distinct ids) ≡ true
unfolding any distinct
distinct-any k [] h = h
distinct-any k (id ∷ ids) h = elim (Bool-cases (any (λ j. j == id) (distinct ids))) [
  | inl e ↦ elim (Bool-cases (id == k)) [
    | inl same ↦
        rw e
          (subst (λ (s : String). any (λ j. j == s) (distinct ids) ≡ true) ((eq_iff id k).0 same) e)
    | inr apart ↦ rw e (distinct-any k ids (rw apart at h))
  ]
  | inr e ↦ elim (Bool-cases (id == k)) [
    | inl same ↦ rw (e, same) refl
    | inr apart ↦ rw (e, apart) (distinct-any k ids (rw apart at h))
  ]
]

distinct-All {κ} : (P : String → Type κ) (ids : List String) → All P ids → All P (distinct ids)
unfolding distinct
distinct-All P [] h = tt
distinct-All P (id ∷ ids) h = elim (Bool-cases (any (λ j. j == id) (distinct ids))) [
  | inl e ↦ rw e (distinct-All P ids h.1)
  | inr e ↦ rw e (h.0, distinct-All P ids h.1)
]

module _ {P : Type 0} (s : EvidenceStore P) where
  -- The record stands in the store under its own id.
  abbrev pub IsStored : EvidenceRecord P → Type 0
  IsStored r = get s r.evidence_id ≡ some r

  abbrev pub HasRecord : String → Type 0
  HasRecord id = (r : EvidenceRecord P) × (get s id ≡ some r)

  each-IsStored :
      (d : Dict (EvidenceRecord P))
      → AllItems (λ k r. r.evidence_id ≡ k) d
      → AllItems (λ k r. get s k ≡ some r) d
      → All (λ e. IsStored e.1) d
  each-IsStored [] a b = tt
  each-IsStored ((k, r) ∷ d) a b =
      (subst (λ j. get s j ≡ some r) (sym a.0) b.0, each-IsStored d a.1 b.1)

  pub values-IsStored : IsWellFormed s → All IsStored (values s)
  values-IsStored w =
      All-mapped (λ e. e.1) IsStored s (each-IsStored s w.kept (items-get s w.unique))

  pub merge-HasRecord :
      (a b : List (EvidenceRecord P))
      → All IsStored a
      → All IsStored b
      → All HasRecord (merge_evidence_ids a b)
  unfolding merge_evidence_ids
  merge-HasRecord a b h k = All-sorted str_leb HasRecord _ (
      distinct-All HasRecord _ (
        All-mapped (λ r. r.evidence_id) HasRecord (a ++ b)
          (All-map IsStored _ (a ++ b) (λ r e. (r, e)) (All-append IsStored a b h k))))

  pub merge-any :
      (a b : List (EvidenceRecord P)) (id : String)
      → any (λ r. r.evidence_id == id) a ≡ true
      → any (λ j. j == id) (merge_evidence_ids a b) ≡ true
  unfolding merge_evidence_ids
  merge-any a b id h =
      any-sorted str_leb (λ j. j == id) _
      ∙ distinct-any id _ (
          any-map (λ r. r.evidence_id) (λ j. j == id) (a ++ b)
            (any-append (λ r. r.evidence_id == id) a b h))

  found_once :
      (j id : String) (q r : EvidenceRecord P)
      → (j == id) ≡ true
      → get s j ≡ some q
      → get s id ≡ some r
      → q ≡ r
  found_once j id q r e h g = some-eq (sym h ∙ ap (λ k. get s k) ((eq_iff j id).0 e) ∙ g)

  -- Ids that the store has are resolved, and to the records that it has.
  pub resolve_each-resolved :
      (ids : List String)
      → All HasRecord ids
      → (records : List (EvidenceRecord P)) × (resolve_each s ids ≡ resolved records)
        × ((id : String) (r : EvidenceRecord P) (p : EvidenceRecord P → Bool)
            → any (λ j. j == id) ids ≡ true
            → get s id ≡ some r
            → p r ≡ true
            → any p records ≡ true)
  unfolding resolve_each get_record any
  resolve_each-resolved [] h = ([], refl, λ id r p a g t. cc)
  resolve_each-resolved (j ∷ ids) h =
      let rest = resolve_each-resolved ids h.1 in
      (
        h.0.0 ∷ rest.0,
        rw (h.0.1, rest.1) refl,
        λ id r p a g t. elim (Bool-cases (j == id)) [
          | inl e ↦ let same : h.0.0 ≡ r = found_once j id h.0.0 r e h.0.1 g in rw same (rw t refl)
          | inr e ↦ let later = rest.2 id r p (rw e at a) g t in ground arith
        ],
      )
