-- ===== src/Reporting/Cited.antt =====
-- simulation/nodes/citation_gate_node.py on the claims of report_writer.py: a claim whose evidence has
-- a record of its subject in the round passes.
use mathlib.Core.Path.{◌≡◌, refl, sym, ap, ◌∙◌}
use mathlib.Core.Bool.{Bool, true, false}
use mathlib.Core.Logic.{inl, inr}
use mathlib.Core.Option.{Option, none, some}
use mathlib.Core.List.{List, [], ◌∷◌}
use Prim.Native.String.{◌++◌ as ◌+++◌}
use native.Mathlib.Omega.{arith}
use text.Mathlib.Text.{◌==◌}
use text.Mathlib.TextEquality.{eq_iff}
use younggeul.Prelude.{
  ℤ, String, get, values, any, any-sorted, All, All-sorted, All-select, after_prefix,
  after_prefix-append, knows, Bool-cases,
}
use younggeul.Evidence.{EvidenceRecord, EvidenceStore, get_by_kind, get_by_subject}
use younggeul.Evidence.Store.{IsWellFormed}
use younggeul.Report.{nonempty}
use younggeul.Reporting.Write.{sorted_records, record_leb, merge_evidence_ids}
use younggeul.Reporting.Gate.{resolve_ids, resolve_each, matches_subject, subject_fits, judge, eq_ℤ}
use younggeul.Reporting.Resolve.{
  IsStored, values-IsStored, merge-HasRecord, merge-any, resolve_each-resolved, any-select, get-any,
}

-- A district's code that is no other kind of subject.
abbrev pub IsPlain : String → Type 0
IsPlain gu_code = ((gu_code == "simulation") ≡ false) × (after_prefix gu_code "role:" ≡ none)

pub same_text : (t : String) → (t == t) ≡ true
same_text t = (eq_iff t t).1 refl

eq_ℤ_refl : (n : ℤ) → eq_ℤ n n ≡ true
eq_ℤ_refl n = ground arith

module _ {P : Type 0} (s : EvidenceStore P) (w : IsWellFormed s) where
  -- Every record of a group that the writer asks the store for is stored.
  pub by_subject-IsStored :
      (t i : String) → All (IsStored s) (sorted_records (get_by_subject s t i))
  unfolding sorted_records get_by_subject
  by_subject-IsStored t i =
      All-sorted record_leb (IsStored s) _
        (All-select (IsStored s) _ (values s) (values-IsStored s w))

  pub by_kind-IsStored : (k : String) → All (IsStored s) (sorted_records (get_by_kind s k))
  unfolding sorted_records get_by_kind
  by_kind-IsStored k =
      All-sorted record_leb (IsStored s) _
        (All-select (IsStored s) _ (values s) (values-IsStored s w))

module _ {P : Type 0} (s : EvidenceStore P) (id : String) (r : EvidenceRecord P)
    (own : r.evidence_id ≡ id) (at : get s id ≡ some r) where
  -- A stored record is in the group of its subject and in that of its kind.
  pub by_subject-any :
      any (λ q. q.evidence_id == id) (sorted_records (get_by_subject s r.subject_type r.subject_id))
      ≡ true
  unfolding sorted_records get_by_subject
  by_subject-any =
      any-sorted record_leb (λ q. q.evidence_id == id) _
      ∙ any-select _ _ (values s) (
          get-any s id r _ at (
            rw (same_text r.subject_type, same_text r.subject_id)
              ((eq_iff r.evidence_id id).1 own)))

  pub by_kind-any : any (λ q. q.evidence_id == id) (sorted_records (get_by_kind s r.kind)) ≡ true
  unfolding sorted_records get_by_kind
  by_kind-any =
      any-sorted record_leb (λ q. q.evidence_id == id) _
      ∙ any-select _ _ (values s)
          (get-any s id r _ at (rw (same_text r.kind) ((eq_iff r.evidence_id id).1 own)))

module _ {P : Type 0} (s : EvidenceStore P) (run_id : String) (world_keys : List String) where
  resolve_ids-each :
      (ids : List String) (id : String)
      → any (λ j. j == id) ids ≡ true
      → resolve_ids s ids ≡ resolve_each s ids
  unfolding any
  resolve_ids-each [] id h = cc
  resolve_ids-each (j ∷ ids) id h = refl

  -- A subject fits whatever records contain one about it.
  abbrev pub Fits : Option String → EvidenceRecord P → Type 0
  Fits subject r =
      (records : List (EvidenceRecord P))
      → ((p : EvidenceRecord P → Bool) → p r ≡ true → any p records ≡ true)
      → subject_fits subject run_id world_keys records ≡ true

  pub judge-passes :
      (a b : List (EvidenceRecord P)) (subject : Option String) (round_no : ℤ) (id : String)
      (r : EvidenceRecord P)
      → All (IsStored s) a
      → All (IsStored s) b
      → get s id ≡ some r
      → any (λ q. q.evidence_id == id) a ≡ true
      → r.round_no ≡ round_no
      → Fits subject r
      → judge subject run_id world_keys round_no (resolve_ids s (merge_evidence_ids a b)) ≡ none
  judge-passes a b subject round_no id r ha hb at among in_round fits =
      let ids = merge_evidence_ids a b in
      let cited : any (λ j. j == id) ids ≡ true = merge-any s a b id among in
      let found = resolve_each-resolved s ids (merge-HasRecord s a b ha hb) in
      let all_of = λ (p : EvidenceRecord P → Bool) (t : p r ≡ true). found.2 id r p cited at t in
      let fit : subject_fits subject run_id world_keys found.0 ≡ true = fits found.0 all_of in
      let round : any (λ (q : EvidenceRecord P). eq_ℤ q.round_no round_no) found.0 ≡ true =
        all_of _ (ap (λ n. eq_ℤ n round_no) in_round ∙ eq_ℤ_refl round_no) in
      rw (resolve_ids-each ids id cited, found.1, fit, round) refl

  -- The three kinds of subject of the writer's claims.
  pub run-Fits :
      (r : EvidenceRecord P)
      → r.subject_type ≡ "simulation"
      → r.subject_id ≡ run_id
      → Fits (some "simulation") r
  unfolding matches_subject
  run-Fits r t i records all_of =
      all_of _
        (rw ((eq_iff r.subject_type "simulation").1 t, (eq_iff r.subject_id run_id).1 i) refl)

  not_simulation :
      (t key : String) → after_prefix t "role:" ≡ some key → (t == "simulation") ≡ false
  unfolding after_prefix
  not_simulation t key h = elim (Bool-cases (t == "simulation")) [
    | inl e ↦
        let clash = sym (ap (λ u. after_prefix u "role:") ((eq_iff t "simulation").0 e)) ∙ h in
        absurd (cc)
    | inr e ↦ e
  ]

  pub role-Fits :
      (key : String) (r : EvidenceRecord P)
      → r.subject_type ≡ "participant_role"
      → r.subject_id ≡ key
      → Fits (nonempty (some ("role:" +++ key))) r
  unfolding matches_subject
  role-Fits key r t i records all_of = elim (Bool-cases (("role:" +++ key) == "")) [
    | inl e ↦ rw e refl
    | inr e ↦
        let prefix = after_prefix-append "role:" key in
        rw (e, not_simulation ("role:" +++ key) key prefix, prefix)
          (all_of _ (
            rw ((eq_iff r.subject_type "participant_role").1 t, (eq_iff r.subject_id key).1 i)
              refl))
  ]

  pub segment-Fits :
      (gu_code : String) (r : EvidenceRecord P)
      → IsPlain gu_code
      → knows world_keys gu_code ≡ true
      → r.subject_type ≡ "segment"
      → r.subject_id ≡ gu_code
      → Fits (nonempty (some gu_code)) r
  unfolding matches_subject
  segment-Fits gu_code r plain known t i records all_of = elim (Bool-cases (gu_code == "")) [
    | inl e ↦ rw e refl
    | inr e ↦
        rw (e, plain.0, plain.1, known)
          (all_of _
            (rw ((eq_iff r.subject_type "segment").1 t, (eq_iff r.subject_id gu_code).1 i) refl))
  ]
