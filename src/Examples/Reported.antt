-- ===== src/Examples/Reported.antt =====
-- The theorems on the report, applied to a finished simulation whose ids are tally marks.
use mathlib.Core.Path.{◌≡◌, refl, sym, ap, ◌∙◌}
use mathlib.Core.Bool.{true}
use mathlib.Core.Logic.{◌⊎◌}
use mathlib.Core.Option.{none, some}
use mathlib.Core.List.{[], ◌∷◌}
use native.Mathlib.Omega.{arith}
use younggeul.Prelude.{
  ℕ, zero, suc, ◌+◌, pos, int_laws, total, String, codes, length, get, has, after_prefix,
}
use younggeul.Errors.{err, value_error, OnOk, Returns, ◌>>=◌}
use younggeul.State.{pending, failed}
use younggeul.Events.{EventStore}
use younggeul.Events.Memory.{memory_store}
use younggeul.Simulation.{Payload}
use younggeul.Evidence.{EvidenceRecord, EvidenceStore, add}
use younggeul.Evidence.Store.{IsAdded, add_lem}
use younggeul.Report.{Claim, text_value}
use younggeul.Reporting.{TextOps, Reporting, role_data}
use younggeul.Reporting.Build.{evidence_builder, building, build_each, drafts}
use younggeul.Reporting.Facts.{IsBuilt, IsFresh, build_each-IsBuilt}
use younggeul.Reporting.Writer.{report_writer}
use younggeul.Reporting.Gate.{citation_gate_node, reason_in}
use younggeul.Reporting.Written.{IsReportable}
use younggeul.Reporting.Passes.{IsCited, report-IsCited}
use younggeul.Reporting.Verdict.{
  IsGated, citation_gate_node-IsGated, rendered_claims-citation_gate_node,
}
use younggeul.Reporting.Render.{render, rendered_claims, blocked_warnings}
use younggeul.Reporting.Sections.{IsComplete, render-IsComplete}
use younggeul.Reporting.Totals.{role_data_totals}
use younggeul.Examples.Fixed.{fixed}
use younggeul.Examples.Round.{world, people}
use younggeul.Examples.Simulated.{meta, scenario}

abbrev store : EventStore (Payload fixed)
store = memory_store (Payload fixed)

abbrev tally : ℕ → String
tally zero = ""
tally (suc n) = String.◌∷◌ "|" (tally n)

length-tally : (n : ℕ) → length (codes (tally n)) ≡ n
length-tally zero = refl
length-tally (suc n) = omega (arith, length-tally n)

abbrev env : ℕ → String × ℕ
env n = (tally n, n)

abbrev texts : TextOps fixed
texts = record { signed_2 = λ _. "+0.00"; isoformat = λ _. "2026-01-01"; title = λ t. t }

abbrev finished : Reporting fixed store env
finished = record {
  simulation = record {
    state = record {
      run_meta = some meta;
      scenario = some scenario;
      round_no = pos 3;
      max_rounds = pos 3;
      world = some world;
      participants = people;
      market_actions = [];
      last_outcome = none;
      event_refs = "first" ∷ "last" ∷ [];
      warnings = [];
    };
    events = [];
    ticks = 0;
  };
  governance_actions = [];
  evidence = [];
  evidence_refs = [];
  report_claims = [];
  warnings = [];
}

nothing-IsFresh : IsFresh fixed store env [] 0
unfolding get
nothing-IsFresh = record {
  distinct = λ i j h. sym (length-tally i) ∙ ap (λ t. length (codes t)) h ∙ length-tally j;
  unused = λ i h. refl;
}

finished-IsReportable : IsReportable fixed texts store env finished
unfolding after_prefix
finished-IsReportable = record {
  run_meta = meta;
  has_run_meta = refl;
  round_no = omega int_laws;
  no_claims = refl;
  well_formed = record { kept = tt; unique = tt };
  fresh = nothing-IsFresh;
  plain = ((refl, refl), ((refl, refl), tt));
}

report-IsCited_example : Returns (IsCited fixed texts store env finished) (
    evidence_builder fixed store env finished
    >>= report_writer fixed texts store env
    >>= citation_gate_node fixed store env)
report-IsCited_example = report-IsCited fixed texts store env finished finished-IsReportable

build_each-IsBuilt_example :
    OnOk
      (IsBuilt fixed store env
        (drafts fixed store env meta finished.simulation.state)
        (building fixed store env finished))
      (build_each fixed store env 0
        (drafts fixed store env meta finished.simulation.state)
        (building fixed store env finished))
build_each-IsBuilt_example =
    build_each-IsBuilt fixed store env 0 (drafts fixed store env meta finished.simulation.state)
      (building fixed store env finished) (record { kept = tt; unique = tt })

role_data_totals_example :
    (total (λ d. pos d.count) (role_data fixed people []) ≡ pos (length people))
    × (total (λ d. d.total_capital) (role_data fixed people []) ≡ total (λ p. p.capital) people)
    × (total (λ d. d.total_holdings) (role_data fixed people []) ≡ total (λ p. p.holdings) people)
role_data_totals_example = role_data_totals fixed people

-- A claim that names no evidence, and one that is blocked.
abbrev claim : Claim
claim = record {
  claim_id = "c1";
  claim_json = ("section", text_value "summary") ∷ ("statement", text_value "All is well.") ∷ [];
  evidence_ids = [];
  gate_status = pending;
  repair_count = pos 0;
}

abbrev blocked : Claim
blocked = record claim { claim_id = "c2"; gate_status = failed }

abbrev claimed : Reporting fixed store env
claimed = record finished { report_claims = claim ∷ [] }

citation_gate_node-IsGated_example :
    Returns
      (IsGated fixed store env (reason_in fixed store env claimed meta) claimed)
      (citation_gate_node fixed store env claimed)
citation_gate_node-IsGated_example =
    citation_gate_node-IsGated fixed store env claimed meta refl (omega int_laws)

rendered_claims-citation_gate_node_example :
    Returns
      (λ s'.
        (rendered_claims fixed texts s'.report_claims ≡ claimed.report_claims)
        × (blocked_warnings fixed texts s'.report_claims ≡ []))
      (citation_gate_node fixed store env claimed)
rendered_claims-citation_gate_node_example =
    rendered_claims-citation_gate_node fixed store env texts claimed meta refl (omega int_laws)
      (refl, tt)

render-IsComplete_example :
    IsComplete fixed texts
      (claim ∷ blocked ∷ [])
      (render fixed texts meta (pos 3) 0 (claim ∷ blocked ∷ [])).sections
    × ((render fixed texts meta (pos 3) 0 (claim ∷ blocked ∷ [])).passed_claims
          + (render fixed texts meta (pos 3) 0 (claim ∷ blocked ∷ [])).failed_claims
        ≡ (render fixed texts meta (pos 3) 0 (claim ∷ blocked ∷ [])).total_claims)
render-IsComplete_example = render-IsComplete fixed texts meta (pos 3) 0 (claim ∷ blocked ∷ [])

-- A store with one record, whose id is given again.
abbrev kept_record : EvidenceRecord ℕ
kept_record = record {
  evidence_id = "e1";
  kind = "segment_fact";
  subject_type = "segment";
  subject_id = "11680";
  round_no = pos 1;
  payload = 7;
  source_event_ids = [];
  created_at = 0;
}

abbrev one_record : EvidenceStore ℕ
one_record = ("e1", kept_record) ∷ []

add_lem_example :
    ((has one_record "e1" ≡ true)
      × (add one_record kept_record ≡ err (value_error "Duplicate evidence_id")))
    ⊎ Returns (IsAdded one_record kept_record) (add one_record kept_record)
add_lem_example = add_lem one_record kept_record
