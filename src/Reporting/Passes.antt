-- ===== src/Reporting/Passes.antt =====
-- The evidence builder, the report writer and the citation gate in a row, as simulation/graph.py
-- connects them: every claim of the report passes the gate.
use mathlib.Core.Path.{◌≡◌, refl, sym, ap, ◌∙◌, subst}
use mathlib.Core.Option.{Option, none}
use mathlib.Core.List.{List, [], ◌∷◌, ◌++◌, append-nil}
use native.Mathlib.Omega.{arith}
use younggeul.Prelude.{ℕ, ◌+◌, pos, String, length, length-append, All}
use younggeul.Errors.{
  ◌>>=◌, require, value_error, Returns, bind-Returns, require-Returns, Returns_mono,
}
use younggeul.Floats.{FloatOps}
use younggeul.State.{RunMeta, report_claim}
use younggeul.Events.{SimulationEvent, EventStore}
use younggeul.Simulation.{Payload, emit, citation_gate}
use younggeul.Simulation.Emit.{emit-Published}
use younggeul.Report.{Claim}
use younggeul.Reporting.{TextOps, Reporting}
use younggeul.Reporting.Build.{evidence_builder}
use younggeul.Reporting.Writer.{report_writer}
use younggeul.Reporting.Gate.{
  reason_in, Verdicts, no_verdicts, status_of, judged, judge_each, after_gate, citation_gate_node,
}
use younggeul.Reporting.Written.{
  IsReportable, IsWritable, IsWritten, builder-IsWritable, writer-IsWritten,
}

-- A gate that finds no fault counts every claim as passed.
pub judge_each-faultless :
    (reason_of : Claim → Option String) (cs : List Claim) (v : Verdicts)
    → All (λ c. reason_of c ≡ none) cs
    → Returns
        (λ v'.
          (length v'.validated_claims ≡ length v.validated_claims + length cs)
          × (v'.passed_count ≡ v.passed_count + length cs)
          × (v'.failed_claim_ids ≡ v.failed_claim_ids)
          × (v'.warnings ≡ v.warnings))
        (judge_each reason_of cs v)
unfolding judge_each report_claim
judge_each-faultless reason_of [] v h = (omega arith, omega arith, refl, refl)
judge_each-faultless reason_of (c ∷ cs) v h =
    let claim = record c { gate_status = status_of (reason_of c); repair_count = pos 0 } in
    Returns_mono _ _ (judge_each reason_of cs (judged v claim (reason_of c)))
      (λ v' q.
        let step = ap (λ o. judged v claim o) h.0 in
        let grown = ap (λ (u : Verdicts). length u.validated_claims) step in
        let more = ap (λ (u : Verdicts). u.passed_count) step in
        (
          omega (arith, q.0, grown, length-append v.validated_claims (claim ∷ [])),
          omega (arith, q.1, more),
          q.2 ∙ ap (λ (u : Verdicts). u.failed_claim_ids) step,
          q.3 ∙ ap (λ (u : Verdicts). u.warnings) step,
        ))
      (judge_each-faultless reason_of cs (judged v claim (reason_of c)) h.1)

module _ (F : FloatOps) (T : TextOps F) (store : EventStore (Payload F))
    (env : ℕ → String × ℕ) where
  -- All claims passed: the gate's event says so, it is the last one, and no warning was added.
  pub record IsCited (s s' : Reporting F store env) : Type 0 where
    pub event : SimulationEvent (Payload F)
    pub before : store.State
    pub last : s'.simulation.events ≡ store.append before event
    pub payload :
        event.payload
        ≡ citation_gate (record {
          total_claims = length s'.report_claims;
          passed = length s'.report_claims;
          failed = 0;
          failed_claim_ids = [];
        })
    pub warnings : s'.warnings ≡ s.warnings

  gate-IsCited :
      (s : Reporting F store env)
      → IsWritten F T store env s
      → Returns (IsCited s) (citation_gate_node F store env s)
  unfolding citation_gate_node
  gate-IsCited s h =
      let g = s.simulation.state in
      let P = IsCited s in
      bind-Returns _ P (require g.run_meta (value_error "run_meta is required")) _
        (require-Returns _ _ h.has_run_meta)
        λ m meta.
          let reason = reason_in F store env s m in
          bind-Returns _ P (judge_each reason s.report_claims no_verdicts) _
            (judge_each-faultless reason s.report_claims no_verdicts (
              subst (λ (q : RunMeta). All (λ c. reason_in F store env s q c ≡ none) s.report_claims)
                (sym meta.1) h.passing))
            λ v q.
              let total : length v.validated_claims ≡ length s.report_claims = omega (arith, q.0) in
              let all : v.passed_count ≡ length s.report_claims = omega (arith, q.1) in
              bind-Returns (λ p. P (after_gate F store env s v p)) P
                (emit F store env m "CITATION_GATE" _ s.simulation g) _
                (emit-Published F store env (λ p. P (after_gate F store env s v p)) m
                  "CITATION_GATE" _ s.simulation g h.round_no
                  (λ e same. record {
                    event = e;
                    before = s.simulation.events;
                    last = refl;
                    payload = same ∙ rw (total, all, q.2) refl;
                    warnings = ap (λ ws. s.warnings ++ ws) q.3 ∙ append-nil s.warnings;
                  }))
                λ p k. k

  -- In a state with run metadata, a round that is not negative and no claim yet, with a well-formed
  -- evidence store, fresh ids, and no district's code that is "simulation" or starts with "role:",
  -- the evidence builder, the report writer and the citation gate all return, one after the other;
  -- the last event is then the gate's, it counts every claim of the report as passed and none as
  -- failed, and no warning was added.
  pub report-IsCited :
      (s : Reporting F store env)
      → IsReportable F T store env s
      → Returns (IsCited s) (
          evidence_builder F store env s
          >>= report_writer F T store env
          >>= citation_gate_node F store env)
  report-IsCited s h =
      let Ready =
        λ (u : Reporting F store env). IsWritable F T store env u × (u.warnings ≡ s.warnings) in
      let Done =
        λ (u : Reporting F store env). IsWritten F T store env u × (u.warnings ≡ s.warnings) in
      bind-Returns Done (IsCited s) (evidence_builder F store env s >>= report_writer F T store env)
        (citation_gate_node F store env)
        (bind-Returns Ready Done (evidence_builder F store env s) (report_writer F T store env)
          (builder-IsWritable F T store env s h)
          λ u k.
            Returns_mono
              (λ (u' : Reporting F store env).
                IsWritten F T store env u' × (u'.warnings ≡ u.warnings))
              Done (report_writer F T store env u) (λ u' q. (q.0, q.1 ∙ k.1))
              (writer-IsWritten F T store env u k.0))
        λ u k.
          Returns_mono (IsCited u) (IsCited s) (citation_gate_node F store env u)
            (λ u' q. record {
              event = q.event;
              before = q.before;
              last = q.last;
              payload = q.payload;
              warnings = q.warnings ∙ k.1;
            })
            (gate-IsCited u k.0)
