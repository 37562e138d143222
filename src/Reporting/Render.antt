-- ===== src/Reporting/Render.antt =====
-- simulation/nodes/report_renderer.py: the claims that are not blocked, by section, and the report as
-- markdown.
use mathlib.Core.Bool.{Bool, true, false, ◌&&◌}
use mathlib.Core.Option.{Option, none, some}
use mathlib.Core.List.{List, [], ◌∷◌, ◌++◌, map}
use Prim.Native.String.{◌++◌ as ◌+++◌}
use text.Mathlib.Text.{◌==◌}
use younggeul.Prelude.{
  ℕ, ◌-◌, ℤ, pos, not, String, Dict, get, has, set_item, keys, knows, length, str, str_leb, join,
  sorted, select, if◌then◌else◌,
}
use younggeul.Errors.{Result, ok, ◌>>=◌, require, value_error}
use younggeul.Floats.{FloatOps}
use younggeul.State.{GateStatus, pending, passed, failed, repaired, RunMeta}
use younggeul.Events.{EventStore}
use younggeul.Simulation.{Payload, Simulation, emit, report_rendered}
use younggeul.Report.{
  Value, text_value, mapping, ClaimJson, Claim, text_of, text_at, RenderedClaimEntry,
  RenderedSection, RenderedReport,
}
use younggeul.Reporting.{TextOps, Reporting}

abbrev pub section_order : List String
section_order = "summary" ∷ "direction" ∷ "volume" ∷ "drivers" ∷ "risks" ∷ []

abbrev pub section_titles : Dict String
section_titles =
    ("summary", "Summary")
    ∷ ("direction", "Direction")
    ∷ ("volume", "Volume")
    ∷ ("drivers", "Drivers")
    ∷ ("risks", "Risks")
    ∷ []

-- `x if x is not None else default`
abbrev pub or_default {ℓ} : {A : Type ℓ} → A → Option A → A
or_default default none = default
or_default default (some a) = a

unfoldable pub get_section_key : Claim → String
unfolding text_at
get_section_key c = or_default "summary" (text_at c.claim_json "section")

unfoldable pub get_claim_type : Claim → String
unfolding text_at
get_claim_type c = or_default "unknown" (text_at c.claim_json "type")

abbrev pub statement_or_summary : Option String → Option String → String
statement_or_summary (some statement) summary = statement
statement_or_summary none summary = or_default "" summary

unfoldable pub get_statement : Claim → String
unfolding text_at
get_statement c =
    statement_or_summary (text_at c.claim_json "statement") (text_of (get c.claim_json "summary"))

abbrev pub mapping_of : Option Value → Option (Dict ℤ)
mapping_of (some (mapping d)) = some d
mapping_of _ = none

unfoldable pub get_metrics : Claim → Option (Dict ℤ)
get_metrics c = mapping_of (get c.claim_json "metrics")

-- `gate_status in ("passed", "pending")`
abbrev pub not_blocked : GateStatus → Bool
not_blocked passed = true
not_blocked pending = true
not_blocked failed = false
not_blocked repaired = false

abbrev pub status_text : GateStatus → String
status_text pending = "pending"
status_text passed = "passed"
status_text failed = "failed"
status_text repaired = "repaired"

unfoldable pub entry : Claim → RenderedClaimEntry
unfolding get_claim_type get_statement get_metrics
entry c = record {
  claim_id = c.claim_id;
  claim_type = get_claim_type c;
  statement = get_statement c;
  metrics = get_metrics c;
  evidence_count = length c.evidence_ids;
  gate_status = c.gate_status;
}

-- A `defaultdict(list)`
abbrev pub Sections : Type 0
Sections = Dict (List RenderedClaimEntry)

unfoldable pub section_of : Sections → String → List RenderedClaimEntry
section_of d key = or_default [] (get d key)

-- The loop over the claims, over the sections so far
unfoldable pub section_entries : List Claim → Sections → Sections
unfolding get_section_key entry section_of
section_entries [] d = d
section_entries (c ∷ cs) d =
    section_entries cs
      (set_item d (get_section_key c) (section_of d (get_section_key c) ++ entry c ∷ []))

unfoldable pub sorted_section_keys : Sections → List String
sorted_section_keys d =
    select (has d) section_order
    ++ sorted str_leb (select (λ k. not (knows section_order k)) (keys d))

module _ (F : FloatOps) (T : TextOps F) where
  unfoldable pub section_title : String → String
  section_title key = or_default (T.title key) (get section_titles key)

  abbrev pub rendered_section : Sections → String → RenderedSection
  rendered_section d key = record {
    section_key = key;
    title = section_title key;
    claims = section_of d key;
    claim_count = length (section_of d key);
  }

  abbrev pub section_lines : List RenderedSection → List String
  section_lines [] = []
  section_lines (s ∷ rest) =
      ("" ∷ ("## " +++ s.title) ∷ "" ∷ [])
      ++ map
          (λ c.
            "- " +++ (c.statement +++ (" [evidence: " +++ (str (pos c.evidence_count) +++ "]"))))
          s.claims
      ++ section_lines rest

  abbrev pub warning_lines : List String → List String
  warning_lines [] = []
  warning_lines (w ∷ ws) = ("" ∷ "## Warnings" ∷ "" ∷ []) ++ map (λ t. "- " +++ t) (w ∷ ws)

  unfoldable pub build_markdown :
      String → ℤ → ℕ → ℕ → ℕ → List RenderedSection → List String → String
  build_markdown run_id round_no rendered_at total passed_claims sections warnings = join "\n" (
      ("# Simulation Report"
        ∷ ""
        ∷ ("**Run**: " +++ run_id)
        ∷ ("**Round**: " +++ str round_no)
        ∷ ("**Generated**: " +++ T.isoformat rendered_at)
        ∷ ("**Claims**: "
            +++ (str (pos passed_claims) +++ (" passed / " +++ (str (pos total) +++ " total"))))
        ∷ [])
      ++ section_lines sections
      ++ warning_lines warnings)

  abbrev pub blocked_warning : Claim → String
  blocked_warning c = "Claim " +++ (c.claim_id +++ (" failed: " +++ status_text c.gate_status))

  abbrev pub blocked_warnings : List Claim → List String
  blocked_warnings claims =
      map blocked_warning (select (λ c. not (not_blocked c.gate_status)) claims)

  abbrev pub rendered_claims : List Claim → List Claim
  rendered_claims claims = select (λ c. not_blocked c.gate_status) claims

  abbrev pub rendered_sections : List Claim → List RenderedSection
  rendered_sections claims =
      let d = section_entries (rendered_claims claims) [] in
      map (rendered_section d) (sorted_section_keys d)

  unfoldable pub render : RunMeta → ℤ → ℕ → List Claim → RenderedReport
  unfolding section_entries sorted_section_keys section_title build_markdown
  render run_meta round_no rendered_at claims = record {
    run_id = run_meta.run_id;
    round_no = round_no;
    rendered_at = rendered_at;
    total_claims = length claims;
    passed_claims = length (rendered_claims claims);
    failed_claims = length claims - length (rendered_claims claims);
    sections = rendered_sections claims;
    markdown =
        build_markdown run_meta.run_id round_no rendered_at (length claims)
          (length (rendered_claims claims)) (rendered_sections claims) (blocked_warnings claims);
  }

  -- `claim_json == {"summary": "stub report"}`
  abbrev pub is_stub : ClaimJson → Bool
  is_stub ((k, text_value t) ∷ []) = (k == "summary") && (t == "stub report")
  is_stub _ = false

  abbrev pub is_legacy_stub_claims : List Claim → Bool
  is_legacy_stub_claims (c ∷ []) = is_stub c.claim_json
  is_legacy_stub_claims _ = false

  module _ (store : EventStore (Payload F)) (env : ℕ → String × ℕ) where
    abbrev pub with_warnings :
        Reporting F store env → Simulation F store env → Reporting F store env
    with_warnings s published = record s {
      simulation = published;
      warnings = s.warnings ++ blocked_warnings s.report_claims;
    }

    unfoldable pub report_renderer : Reporting F store env → Result (Reporting F store env)
    unfolding render emit
    report_renderer s = do
      run_meta ← require s.simulation.state.run_meta (value_error "run_meta is required")
      let g = s.simulation.state
      let report = render run_meta g.round_no (env s.simulation.ticks).1 s.report_claims
      published ←
          if is_legacy_stub_claims s.report_claims
          then ok s.simulation
          else emit F store env run_meta "REPORT_RENDERED" (report_rendered report) s.simulation g
      ok (with_warnings s published)
