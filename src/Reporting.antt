-- ===== src/Reporting.antt =====
-- The state that the nodes after the loop work on: simulation/graph_state.py with its reducers, and
-- the two stores of simulation/graph.py. What three of the nodes share is here: the totals per role.
pub mod Summary
pub mod Build
pub mod Facts
pub mod Cover
pub mod Write
pub mod Writer
pub mod Gate
pub mod Resolve
pub mod Cited
pub mod Written
pub mod Passes
pub mod Verdict
pub mod Render
pub mod Sections
pub mod Totals
use mathlib.Core.Option.{Option, none, some}
use mathlib.Core.List.{List, [], ◌∷◌}
use younggeul.Prelude.{ℕ, ℤ, pos, ◌+◌, ◌+ℤ◌, String, Dict, get, set_item, str_leb, sorted}
use younggeul.Floats.{FloatOps}
use younggeul.State.{
  Role, buyer, investor, tenant, landlord, broker, ParticipantState, ActionProposal, Trend,
}
use younggeul.Events.{EventStore}
use younggeul.Simulation.{Payload, Simulation}
use younggeul.Evidence.{EvidenceStore}
use younggeul.Report.{Claim, RoleData}

-- Python's formatting of the values that are abstract here: `f"{x:+.2f}"`, `datetime.isoformat`, and
-- `str.title` of a text after `replace("_", " ")`.
pub record TextOps (F : FloatOps) : Type 0 where
  pub signed_2 : F.Float → String
  pub isoformat : ℕ → String
  pub title : String → String

-- The payload of an evidence record, per kind.
pub data Fact (F : FloatOps) : Type 0 where
  simulation_fact :
      (total_rounds : ℤ) (total_segments total_participants : ℕ) (completion_reason : String)
      → Fact F
  segment_fact :
      (gu_code gu_name : String) (final_median_price final_volume : ℤ) (final_trend : Trend)
      (final_sentiment : F.Float)
      → Fact F
  participant_fact : (role : String) (data_of_role : RoleData) → Fact F
  round_fact :
      (round_no : ℤ) (market_actions_resolved : ℕ) (cleared_volume : Dict ℕ)
      (price_changes : Dict F.Float)
      → Fact F

abbrev pub role_key : Role → String
role_key buyer = "buyer"
role_key investor = "investor"
role_key tenant = "tenant"
role_key landlord = "landlord"
role_key broker = "broker"

-- `sorted(d.items())`: the keys differ, so they decide.
abbrev pub sorted_items {ℓ} : {V : Type ℓ} → Dict V → Dict V
sorted_items d = sorted (λ a b. str_leb a.0 b.0) d

-- `x or {}`
abbrev pub or_empty {ℓ} : {V : Type ℓ} → Option (Dict V) → Dict V
or_empty none = []
or_empty (some d) = d

module _ (F : FloatOps) where
  -- `if role not in role_data: …`
  abbrev pub counted_so_far : Option RoleData → RoleData
  counted_so_far none = record { count = 0; total_capital = pos 0; total_holdings = pos 0 }
  counted_so_far (some data_of_role) = data_of_role

  abbrev pub counted : RoleData → ParticipantState F → RoleData
  counted d p = record {
    count = d.count + 1;
    total_capital = d.total_capital +ℤ p.capital;
    total_holdings = d.total_holdings +ℤ p.holdings;
  }

  -- `for participant in participants.values(): …`, over the totals so far
  unfoldable pub role_data : Dict (ParticipantState F) → Dict RoleData → Dict RoleData
  role_data [] roles = roles
  role_data ((id, p) ∷ rest) roles =
      role_data rest (
        set_item roles (role_key p.role) (counted (counted_so_far (get roles (role_key p.role))) p))

  module _ (store : EventStore (Payload F)) (env : ℕ → String × ℕ) where
    pub record Reporting : Type 0 where
      pub simulation : Simulation F store env
      pub governance_actions : Dict (ActionProposal F)
      pub evidence : EvidenceStore (Fact F)
      pub evidence_refs : List String
      pub report_claims : List Claim
      pub warnings : List String
