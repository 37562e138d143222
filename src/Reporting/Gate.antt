-- ===== src/Reporting/Gate.antt =====
-- simulation/nodes/citation_gate_node.py: every claim is checked against its evidence. The metric
-- that is counted up at the end is left out.
use mathlib.Core.Bool.{Bool, true, false, ◌&&◌}
use mathlib.Core.Option.{Option, none, some}
use mathlib.Core.List.{List, [], ◌∷◌, ◌++◌}
use Prim.Native.String.{◌++◌ as ◌+++◌}
use text.Mathlib.Text.{◌==◌ as ◌=s=◌}
use younggeul.Prelude.{
  ℕ, ◌+◌, ℤ, pos, ltb_ℤ, String, keys, knows, length, any, str, after_prefix, if◌then◌else◌,
}
use younggeul.Errors.{Result, ok, ◌>>=◌, require, value_error}
use younggeul.Floats.{FloatOps}
use younggeul.State.{RunMeta, GateStatus, passed, failed, report_claim}
use younggeul.Events.{EventStore}
use younggeul.Simulation.{Payload, Simulation, emit, citation_gate}
use younggeul.Evidence.{EvidenceRecord, EvidenceStore, get_record}
use younggeul.Report.{Claim, text_at}
use younggeul.Reporting.{or_empty, Reporting}

-- `a == b`
abbrev pub eq_ℤ : ℤ → ℤ → Bool
eq_ℤ a b = if ltb_ℤ a b then false else if ltb_ℤ b a then false else true

-- A reason to refuse a claim, or the records of its evidence.
pub data Resolved (P : Type 0) : Type 0 where
  refused : (reason : String) → Resolved P
  resolved : List (EvidenceRecord P) → Resolved P

module _ {P : Type 0} where
  abbrev pub is_about : String → String → EvidenceRecord P → Bool
  is_about subject_type subject_id r =
      (r.subject_type =s= subject_type) && (r.subject_id =s= subject_id)

  -- `subject.split(":", 1)[1]` is what follows the prefix "role:".
  abbrev pub matches_role : Option String → String → List String → List (EvidenceRecord P) → Bool
  matches_role (some role_name) subject world_keys records =
      any (is_about "participant_role" role_name) records
  matches_role none subject world_keys records =
      if knows world_keys subject
      then any (is_about "segment" subject) records
      else any (λ r. r.subject_id =s= subject) records

  unfoldable pub matches_subject : String → String → List String → List (EvidenceRecord P) → Bool
  unfolding after_prefix
  matches_subject subject run_id world_keys records =
      if subject =s= "simulation"
      then any (is_about "simulation" run_id) records
      else matches_role (after_prefix subject "role:") subject world_keys records

  abbrev pub and_record : EvidenceRecord P → Resolved P → Resolved P
  and_record r (refused reason) = refused reason
  and_record r (resolved records) = resolved (r ∷ records)

  abbrev pub or_missing : String → Option (EvidenceRecord P) → Resolved P → Resolved P
  or_missing id none rest = refused ("missing evidence record: " +++ id)
  or_missing id (some r) rest = and_record r rest

  unfoldable pub resolve_each : EvidenceStore P → List String → Resolved P
  unfolding get_record
  resolve_each s [] = resolved []
  resolve_each s (id ∷ ids) = or_missing id (get_record s id) (resolve_each s ids)

  abbrev pub resolve_ids : EvidenceStore P → List String → Resolved P
  resolve_ids s [] = refused "missing evidence_ids"
  resolve_ids s (id ∷ ids) = resolve_each s (id ∷ ids)

  abbrev pub subject_fits : Option String → String → List String → List (EvidenceRecord P) → Bool
  subject_fits none run_id world_keys records = true
  subject_fits (some subject) run_id world_keys records =
      matches_subject subject run_id world_keys records

  abbrev pub judge : Option String → String → List String → ℤ → Resolved P → Option String
  judge subject run_id world_keys round_no (refused reason) = some reason
  judge subject run_id world_keys round_no (resolved records) =
      if subject_fits subject run_id world_keys records
      then (if any (λ r. eq_ℤ r.round_no round_no) records
          then none
          else some ("no evidence for round_no=" +++ str round_no))
      else some "subject mismatch with evidence"

  -- The reason why a claim fails, if it does.
  unfoldable pub failure_reason : EvidenceStore P → String → List String → ℤ → Claim → Option String
  unfolding resolve_each matches_subject text_at
  failure_reason s run_id world_keys round_no claim =
      judge (text_at claim.claim_json "subject") run_id world_keys round_no
        (resolve_ids s claim.evidence_ids)

-- What the loop over the claims keeps.
pub record Verdicts : Type 0 where
  pub validated_claims : List Claim
  pub failed_claim_ids : List String
  pub passed_count : ℕ
  pub warnings : List String

abbrev pub no_verdicts : Verdicts
no_verdicts = record {
  validated_claims = [];
  failed_claim_ids = [];
  passed_count = 0;
  warnings = [];
}

abbrev pub status_of : Option String → GateStatus
status_of none = passed
status_of (some reason) = failed

abbrev pub judged : Verdicts → Claim → Option String → Verdicts
judged v claim none = record v {
  validated_claims = v.validated_claims ++ claim ∷ [];
  passed_count = v.passed_count + 1;
}
judged v claim (some reason) = record v {
  validated_claims = v.validated_claims ++ claim ∷ [];
  failed_claim_ids = v.failed_claim_ids ++ claim.claim_id ∷ [];
  warnings = v.warnings ++ ("claim_id=" +++ (claim.claim_id +++ (": " +++ reason))) ∷ [];
}

-- The loop over the claims, over a test and the verdicts so far
unfoldable pub judge_each : (Claim → Option String) → List Claim → Verdicts → Result Verdicts
unfolding report_claim
judge_each reason_of [] v = ok v
judge_each reason_of (c ∷ cs) v = do
  claim ← report_claim (record c { gate_status = status_of (reason_of c); repair_count = pos 0 })
  judge_each reason_of cs (judged v claim (reason_of c))

module _ (F : FloatOps) (store : EventStore (Payload F)) (env : ℕ → String × ℕ) where
  abbrev pub after_gate :
      Reporting F store env → Verdicts → Simulation F store env → Reporting F store env
  after_gate s v published = record s {
    simulation = published;
    warnings = s.warnings ++ v.warnings;
  }

  -- The test of a claim, in a state.
  abbrev pub reason_in : Reporting F store env → RunMeta → Claim → Option String
  reason_in s run_meta =
      failure_reason s.evidence run_meta.run_id (keys (or_empty s.simulation.state.world))
        s.simulation.state.round_no

  unfoldable pub citation_gate_node : Reporting F store env → Result (Reporting F store env)
  unfolding judge_each emit
  citation_gate_node s = do
    run_meta ← require s.simulation.state.run_meta (value_error "run_meta is required")
    let g = s.simulation.state
    v ← judge_each (reason_in s run_meta) s.report_claims no_verdicts
    published ←
        emit F store env run_meta "CITATION_GATE"
          (citation_gate (record {
            total_claims = length v.validated_claims;
            passed = v.passed_count;
            failed = length v.failed_claim_ids;
            failed_claim_ids = v.failed_claim_ids;
          }))
          s.simulation g
    ok (after_gate s v published)
