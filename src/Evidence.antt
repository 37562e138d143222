-- ===== src/Evidence.antt =====
-- simulation/evidence/store.py: the records of evidence and the store that keeps them by their ids.
-- The protocol's one implementation, InMemoryEvidenceStore, is modelled.
pub mod Store
use mathlib.Core.Bool.{◌&&◌}
use mathlib.Core.Option.{Option}
use mathlib.Core.List.{List}
use text.Mathlib.Text.{◌==◌}
use younggeul.Prelude.{
  ℕ, ℤ, String, Dict, get, has, set_item, values, length, select, if◌then◌else◌,
}
use younggeul.Errors.{Result, ok, err, value_error}

pub record EvidenceRecord (Payload : Type 0) : Type 0 where
  pub evidence_id : String
  pub kind : String
  pub subject_type : String
  pub subject_id : String
  pub round_no : ℤ
  pub payload : Payload
  pub source_event_ids : List String
  pub created_at : ℕ

abbrev pub EvidenceStore : Type 0 → Type 0
EvidenceStore Payload = Dict (EvidenceRecord Payload)

module _ {Payload : Type 0} where
  unfoldable pub add :
      EvidenceStore Payload → EvidenceRecord Payload → Result (EvidenceStore Payload)
  add s r =
      if has s r.evidence_id
      then err (value_error "Duplicate evidence_id")
      else ok (set_item s r.evidence_id r)

  unfoldable pub get_record : EvidenceStore Payload → String → Option (EvidenceRecord Payload)
  get_record s evidence_id = get s evidence_id

  abbrev pub get_all : EvidenceStore Payload → List (EvidenceRecord Payload)
  get_all s = values s

  unfoldable pub get_by_kind : EvidenceStore Payload → String → List (EvidenceRecord Payload)
  get_by_kind s kind = select (λ r. r.kind == kind) (values s)

  unfoldable pub get_by_subject :
      EvidenceStore Payload → String → String → List (EvidenceRecord Payload)
  get_by_subject s subject_type subject_id =
      select (λ r. (r.subject_type == subject_type) && (r.subject_id == subject_id)) (values s)

  abbrev pub count : EvidenceStore Payload → ℕ
  count s = length s
