-- ===== src/Report.antt =====
-- core/src/younggeul_core/state/simulation.py, `ReportClaim.claim_json`, and
-- simulation/schemas/report.py: the claims of a report and the rendered report. `claim_json` is a
-- `dict` whose values are those that the code puts into it.
use mathlib.Core.Option.{Option, none, some}
use mathlib.Core.List.{List}
use text.Mathlib.Text.{◌==◌}
use younggeul.Prelude.{ℕ, ℤ, String, Dict, get, if◌then◌else◌}
use younggeul.State.{GateStatus, ReportClaim}

-- A value of `claim_json`, as `isinstance` tells it.
pub data Value : Type 0 where
  no_value : Value
  text_value : String → Value
  mapping : Dict ℤ → Value

abbrev pub ClaimJson : Type 0
ClaimJson = Dict Value

abbrev pub Claim : Type 0
Claim = ReportClaim ClaimJson

-- `isinstance(value, str)`
abbrev pub text_of : Option Value → Option String
text_of (some (text_value s)) = some s
text_of _ = none

-- `isinstance(value, str) and value`
abbrev pub nonempty : Option String → Option String
nonempty none = none
nonempty (some s) = if s == "" then none else some s

unfoldable pub text_at : ClaimJson → String → Option String
text_at json key = nonempty (text_of (get json key))

pub record RenderedClaimEntry : Type 0 where
  pub claim_id : String
  pub claim_type : String
  pub statement : String
  pub metrics : Option (Dict ℤ)
  pub evidence_count : ℕ
  pub gate_status : GateStatus

pub record RenderedSection : Type 0 where
  pub section_key : String
  pub title : String
  pub claims : List RenderedClaimEntry
  pub claim_count : ℕ

pub record RenderedReport : Type 0 where
  pub run_id : String
  pub round_no : ℤ
  pub rendered_at : ℕ
  pub total_claims : ℕ
  pub passed_claims : ℕ
  pub failed_claims : ℕ
  pub sections : List RenderedSection
  pub markdown : String

-- The payload of the event CITATION_GATE.
pub record GateReport : Type 0 where
  pub total_claims : ℕ
  pub passed : ℕ
  pub failed : ℕ
  pub failed_claim_ids : List String

-- Per role of the participants: how many, and what they have together.
pub record RoleData : Type 0 where
  pub count : ℕ
  pub total_capital : ℤ
  pub total_holdings : ℤ

-- The payload of the event SIMULATION_COMPLETED; a district has its median price and its volume.
pub record Completion : Type 0 where
  pub total_rounds : ℤ
  pub world_summary : Dict (ℤ × ℤ)
  pub participant_summary : Dict RoleData
  pub total_warnings : ℕ
