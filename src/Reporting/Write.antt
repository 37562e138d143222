-- ===== src/Reporting/Write.antt =====
-- simulation/nodes/report_writer.py: the claims of the report, each with the ids of its evidence.
use mathlib.Core.Bool.{Bool, true, false}
use mathlib.Core.Option.{Option, none, some}
use mathlib.Core.List.{List, [], ◌∷◌, ◌++◌, map}
use Prim.Native.String.{◌++◌ as ◌+++◌}
use text.Mathlib.Text.{◌==◌ as ◌=s=◌}
use younggeul.Prelude.{
  ℕ, ℤ, pos, ltb_ℤ, String, Dict, length, str, str_leb, join, sorted, select, any, if◌then◌else◌,
}
use younggeul.Floats.{FloatOps}
use younggeul.State.{
  ScenarioSpec, Shock, ShockType, interest_rate, regulation, supply, demand, external, SegmentState,
  Trend, up, down, flat,
}
use younggeul.Evidence.{EvidenceRecord, EvidenceStore, get_by_kind, get_by_subject}
use younggeul.Report.{text_value, mapping, ClaimJson, RoleData}
use younggeul.Reporting.{Fact, TextOps}

-- `a < b or (a == b and rest)` on a part of a key
abbrev pub int_then : ℤ → ℤ → Bool → Bool
int_then a b rest = if ltb_ℤ a b then true else if ltb_ℤ b a then false else rest

abbrev pub str_then : String → String → Bool → Bool
str_then a b rest = if a =s= b then rest else str_leb a b

module _ {P : Type 0} where
  -- The order of the keys of `_sorted_records`
  abbrev pub record_leb : EvidenceRecord P → EvidenceRecord P → Bool
  record_leb a b = int_then a.round_no b.round_no (
      str_then a.subject_type b.subject_type (
        str_then a.subject_id b.subject_id
          (str_then a.kind b.kind (str_leb a.evidence_id b.evidence_id))))

  unfoldable pub sorted_records : List (EvidenceRecord P) → List (EvidenceRecord P)
  sorted_records records = sorted record_leb records

-- A set of texts, as a list without repetition.
unfoldable pub distinct : List String → List String
distinct [] = []
distinct (id ∷ ids) =
    let rest = distinct ids in if any (λ j. j =s= id) rest then rest else id ∷ rest

-- `_merge_evidence_ids`
unfoldable pub merge_evidence_ids :
    {P : Type 0} → List (EvidenceRecord P) → List (EvidenceRecord P) → List String
unfolding distinct
merge_evidence_ids a b = sorted str_leb (distinct (map (λ r. r.evidence_id) (a ++ b)))

abbrev pub claim_json : String → String → String → String → Dict ℤ → ClaimJson
claim_json claim_type section subject statement metrics =
    ("type", text_value claim_type)
    ∷ ("section", text_value section)
    ∷ ("subject", text_value subject)
    ∷ ("statement", text_value statement)
    ∷ ("metrics", mapping metrics)
    ∷ []

abbrev pub trend_text : Trend → String
trend_text up = "up"
trend_text down = "down"
trend_text flat = "flat"

abbrev pub shock_text : ShockType → String
shock_text interest_rate = "interest_rate"
shock_text regulation = "regulation"
shock_text supply = "supply"
shock_text demand = "demand"
shock_text external = "external"

-- `text or default`
abbrev pub or_else : String → String → String
or_else t default = if t =s= "" then default else t

module _ (F : FloatOps) (T : TextOps F) where
  -- A claim without its id: what it says, and its evidence.
  abbrev pub Wording : Type 0
  Wording = ClaimJson × List String

  abbrev pub segment_evidence : EvidenceStore (Fact F) → String → List String
  segment_evidence evidence gu_code =
      merge_evidence_ids (sorted_records (get_by_subject evidence "segment" gu_code)) (
        select (λ r. r.subject_id =s= gu_code)
          (sorted_records (get_by_kind evidence "segment_fact")))

  abbrev pub direction_json : ℤ → String → SegmentState F → ClaimJson
  direction_json round_no gu_code segment =
      claim_json "direction" "direction" gu_code
        (segment.gu_name
          +++ ("("
              +++ (gu_code
                  +++ (") price direction is "
                      +++ (trend_text segment.price_trend
                          +++ (" at round " +++ (str round_no +++ ".")))))))
        (("median_price", segment.current_median_price)
          ∷ ("volume", segment.current_volume)
          ∷ ("round_no", round_no)
          ∷ [])

  abbrev pub volume_json : ℤ → String → SegmentState F → ClaimJson
  volume_json round_no gu_code segment =
      claim_json "volume" "volume" gu_code
        (segment.gu_name
          +++ ("("
              +++ (gu_code
                  +++ (") trading volume is "
                      +++ (str segment.current_volume
                          +++ (" with median price "
                              +++ (str segment.current_median_price
                                  +++ (" at round " +++ (str round_no +++ ".")))))))))
        (("volume", segment.current_volume)
          ∷ ("median_price", segment.current_median_price)
          ∷ ("round_no", round_no)
          ∷ [])

  -- The loop over the districts
  unfoldable pub segment_wordings :
      EvidenceStore (Fact F) → ℤ → Dict (SegmentState F) → List Wording
  unfolding merge_evidence_ids sorted_records get_by_kind get_by_subject
  segment_wordings evidence round_no [] = []
  segment_wordings evidence round_no ((gu_code, segment) ∷ rest) =
      (direction_json round_no gu_code segment, segment_evidence evidence gu_code)
      ∷ (volume_json round_no gu_code segment, segment_evidence evidence gu_code)
      ∷ segment_wordings evidence round_no rest

  abbrev pub role_evidence : EvidenceStore (Fact F) → String → List String
  role_evidence evidence key =
      merge_evidence_ids (sorted_records (get_by_subject evidence "participant_role" key)) (
        select (λ r. r.subject_id =s= key)
          (sorted_records (get_by_kind evidence "participant_fact")))

  abbrev pub role_json : ℤ → String → RoleData → ClaimJson
  role_json round_no key d =
      claim_json "participant_summary" "drivers" ("role:" +++ key)
        ("Role "
          +++ (key
              +++ (" has "
                  +++ (str (pos d.count)
                      +++ (" participants, total capital "
                          +++ (str d.total_capital
                              +++ (", and holdings "
                                  +++ (str d.total_holdings
                                      +++ (" at round " +++ (str round_no +++ "."))))))))))
        (("count", pos d.count)
          ∷ ("total_capital", d.total_capital)
          ∷ ("total_holdings", d.total_holdings)
          ∷ ("round_no", round_no)
          ∷ [])

  -- The loop over the roles
  unfoldable pub role_wordings : EvidenceStore (Fact F) → ℤ → Dict RoleData → List Wording
  unfolding merge_evidence_ids sorted_records get_by_kind get_by_subject
  role_wordings evidence round_no [] = []
  role_wordings evidence round_no ((key, d) ∷ rest) =
      (role_json round_no key d, role_evidence evidence key) ∷ role_wordings evidence round_no rest

  abbrev pub shocks_of : Option (ScenarioSpec F) → List (Shock F)
  shocks_of none = []
  shocks_of (some scenario) = sorted (λ a b. str_leb a.description b.description) scenario.shocks

  abbrev pub shock_description : Shock F → String
  shock_description shock =
      shock_text shock.shock_type
      +++ ("("
          +++ (T.signed_2 shock.magnitude
              +++ (") on " +++ or_else (join "," (sorted str_leb shock.target_segments)) "all")))

  abbrev pub active_shocks : List String → String
  active_shocks [] = "No active shocks in scenario."
  active_shocks (d ∷ ds) = "Active shocks: " +++ join "; " (d ∷ ds)

  abbrev pub risk_wording : EvidenceStore (Fact F) → ℤ → List (Shock F) → ℕ → Wording
  risk_wording evidence round_no shocks governance_actions = (
    claim_json "risk_factors" "risks" "simulation"
        (active_shocks (map shock_description shocks)
          +++ (" Governance actions proposed: " +++ (str (pos governance_actions) +++ ".")))
        (("shock_count", pos (length shocks))
          ∷ ("governance_actions", pos governance_actions)
          ∷ ("round_no", round_no)
          ∷ []),
    merge_evidence_ids (sorted_records (get_by_kind evidence "simulation_fact"))
        (sorted_records (get_by_kind evidence "round_fact")),
  )

  abbrev pub overview_wording : EvidenceStore (Fact F) → ℤ → String → ℕ → ℕ → Wording
  overview_wording evidence round_no run_id segments participants = (
    claim_json "simulation_overview" "summary" "simulation"
        ("Simulation "
          +++ (run_id
              +++ (" completed "
                  +++ (str round_no
                      +++ (" rounds across "
                          +++ (str (pos segments)
                              +++ (" segments with "
                                  +++ (str (pos participants) +++ " participants."))))))))
        (("round_no", round_no)
          ∷ ("segment_count", pos segments)
          ∷ ("participant_count", pos participants)
          ∷ []),
    merge_evidence_ids (sorted_records (get_by_kind evidence "simulation_fact"))
        (sorted_records (get_by_subject evidence "simulation" run_id)),
  )
