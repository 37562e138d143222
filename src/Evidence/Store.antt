-- ===== src/Evidence/Store.antt =====
-- simulation/evidence/store.py: what `add` does to the store.
use mathlib.Core.Path.{◌≡◌, refl, ap}
use mathlib.Core.Bool.{true, false}
use mathlib.Core.Logic.{◌⊎◌, inl, inr}
use mathlib.Core.Option.{some}
use mathlib.Core.List.{[], ◌∷◌, ◌++◌}
use native.Mathlib.Omega.{arith}
use text.Mathlib.Text.{◌==◌}
use younggeul.Prelude.{
  length-new_item, ◌+◌, String, Dict, get, get-set_item, has, set_item, set_item-IsUnique, keys,
  values, IsUnique, AllItems, AllItems-set_item, if◌then◌else◌, Bool-cases,
}
use younggeul.Errors.{err, value_error, Returns, Returns-OnOk, OnOk, if-OnOk}
use younggeul.Evidence.{EvidenceRecord, EvidenceStore, add, get_all, count}

module _ {V : Type 0} where
  -- A new key goes to the end.
  values-new_item :
      (d : Dict V) (k : String) (v : V)
      → has d k ≡ false
      → values (set_item d k v) ≡ values d ++ v ∷ []
  unfolding get set_item
  values-new_item [] k v h = refl
  values-new_item ((j, w) ∷ d) k v h = elim (Bool-cases (j == k)) [
    | inl e ↦ absurd (ground arith)
    | inr e ↦ rw e (ap (λ l. w ∷ l) (values-new_item d k v (rw e at h)))
  ]

module _ {Payload : Type 0} where
  -- Each record stands under its own id, and no id stands twice.
  abbrev pub IsKept : String → EvidenceRecord Payload → Type 0
  IsKept id r = r.evidence_id ≡ id

  pub record IsWellFormed (s : EvidenceStore Payload) : Type 0 where
    pub kept : AllItems IsKept s
    pub unique : IsUnique (keys s)

  pub record IsAdded (s : EvidenceStore Payload) (r : EvidenceRecord Payload)
      (s' : EvidenceStore Payload) : Type 0 where
    pub is_new : has s r.evidence_id ≡ false
    pub found : (id : String) → get s' id ≡ (if r.evidence_id == id then some r else get s id)
    pub all : get_all s' ≡ get_all s ++ r ∷ []
    pub counted : count s' ≡ count s + 1

  -- Either the store has the id, and the record is refused; or it is new: then the record is found
  -- under its id, every other id is answered as before, the record comes last in the list of all
  -- records, and the count grows by one.
  pub add_lem :
      (s : EvidenceStore Payload) (r : EvidenceRecord Payload)
      → ((has s r.evidence_id ≡ true) × (add s r ≡ err (value_error "Duplicate evidence_id")))
        ⊎ Returns (IsAdded s r) (add s r)
  unfolding add
  add_lem s r = elim (Bool-cases (has s r.evidence_id)) [
    | inl h ↦ inl (h, rw h refl)
    | inr h ↦ inr (
        rw h (record {
          is_new = h;
          found = λ id. get-set_item s r.evidence_id id r;
          all = values-new_item s r.evidence_id r h;
          counted = length-new_item s r.evidence_id r h;
        }))
  ]

  pub add-IsAdded :
      (s : EvidenceStore Payload) (r : EvidenceRecord Payload) → OnOk (IsAdded s r) (add s r)
  add-IsAdded s r = elim (add_lem s r) [
    | inl h ↦ rw h.1 tt
    | inr h ↦ Returns-OnOk (IsAdded s r) (add s r) h
  ]

  -- A store in which each record stands under its own id, and no id stands twice, is one after
  -- `add`, too.
  pub add-IsWellFormed :
      (s : EvidenceStore Payload) (r : EvidenceRecord Payload)
      → IsWellFormed s
      → OnOk IsWellFormed (add s r)
  unfolding add
  add-IsWellFormed s r w =
      if-OnOk IsWellFormed (has s r.evidence_id) _ _ (λ h. tt)
        (λ h. record {
          kept = AllItems-set_item IsKept s r.evidence_id r w.kept refl;
          unique = set_item-IsUnique s r.evidence_id r w.unique;
        })
