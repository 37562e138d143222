-- ===== src/Reporting/Verdict.antt =====
-- simulation/nodes/citation_gate_node.py: what the gate counts and publishes, and what it leaves.
use mathlib.Core.Path.{◌≡◌, refl, sym, ap, subst, ◌∙◌}
use mathlib.Core.Bool.{true}
use mathlib.Core.Logic.{inl, inr}
use mathlib.Core.Option.{Option, some}
use mathlib.Core.List.{List, [], ◌∷◌, ◌++◌, append-nil, append_assoc, map}
use native.Mathlib.Omega.{arith}
use younggeul.Prelude.{
  ℕ, ◌+◌, pos, ◌≤ℤ◌, String, length, length-append, select, All, is_some, not, Option-cases,
}
use younggeul.Errors.{require, value_error, Returns, bind-Returns, require-Returns, Returns_mono}
use younggeul.Floats.{FloatOps}
use younggeul.State.{RunMeta, pending, report_claim}
use younggeul.Events.{SimulationEvent, EventStore}
use younggeul.Simulation.{Payload, emit, published, citation_gate}
use younggeul.Simulation.Emit.{emit-Published}
use younggeul.Report.{Claim}
use younggeul.Reporting.{Reporting, TextOps}
use younggeul.Reporting.Gate.{
  reason_in, Verdicts, no_verdicts, status_of, judged, judge_each, after_gate, citation_gate_node,
}
use younggeul.Reporting.Render.{not_blocked, rendered_claims, blocked_warnings}

abbrev pub ids_of : List Claim → List String
ids_of = map (λ c. c.claim_id)

module _ (reason_of : Claim → Option String) where
  -- The claims that fail, those that pass, and a claim with its verdict.
  abbrev pub faulty : List Claim → List Claim
  faulty = select (λ c. is_some (reason_of c))

  abbrev pub faultless : List Claim → List Claim
  faultless = select (λ c. not (is_some (reason_of c)))

  abbrev pub with_verdict : Claim → Claim
  with_verdict c = record c { gate_status = status_of (reason_of c); repair_count = pos 0 }

  -- The verdicts grow by those on the claims.
  pub record IsJudged (cs : List Claim) (v v' : Verdicts) : Type 0 where
    pub validated : v'.validated_claims ≡ v.validated_claims ++ map with_verdict cs
    pub failed_ids : v'.failed_claim_ids ≡ v.failed_claim_ids ++ ids_of (faulty cs)
    pub passes : v'.passed_count ≡ v.passed_count + length (faultless cs)
    pub warned : length v'.warnings ≡ length v.warnings + length (faulty cs)

  judged-IsJudged :
      (c : Claim) (cs : List Claim) (v v' : Verdicts)
      → IsJudged cs (judged v (with_verdict c) (reason_of c)) v'
      → IsJudged (c ∷ cs) v v'
  unfolding select
  judged-IsJudged c cs v v' h = elim (Option-cases (reason_of c)) [
    | inl e ↦
        let step = ap (λ o. judged v (with_verdict c) o) e in
        record {
          validated =
              h.validated
              ∙ ap (λ (u : Verdicts). u.validated_claims ++ map with_verdict cs) step
              ∙ append_assoc v.validated_claims (with_verdict c ∷ []) (map with_verdict cs);
          failed_ids =
              rw e (
                h.failed_ids
                ∙ ap (λ (u : Verdicts). u.failed_claim_ids ++ ids_of (faulty cs)) step);
          passes = rw e (omega (arith, h.passes, ap (λ (u : Verdicts). u.passed_count) step));
          warned = rw e (omega (arith, h.warned, ap (λ (u : Verdicts). length u.warnings) step));
        }
    | inr (reason, e) ↦
        let step = ap (λ o. judged v (with_verdict c) o) e in
        record {
          validated =
              h.validated
              ∙ ap (λ (u : Verdicts). u.validated_claims ++ map with_verdict cs) step
              ∙ append_assoc v.validated_claims (with_verdict c ∷ []) (map with_verdict cs);
          failed_ids = rw e (
              h.failed_ids
              ∙ ap (λ (u : Verdicts). u.failed_claim_ids ++ ids_of (faulty cs)) step
              ∙ append_assoc v.failed_claim_ids (c.claim_id ∷ []) (ids_of (faulty cs)));
          passes = rw e (omega (arith, h.passes, ap (λ (u : Verdicts). u.passed_count) step));
          warned = rw e (
              omega (
                arith,
                h.warned,
                ap (λ (u : Verdicts). length u.warnings) step,
                length-append v.warnings _,
              ));
        }
  ]

  pub judge_each-IsJudged :
      (cs : List Claim) (v : Verdicts) → Returns (IsJudged cs v) (judge_each reason_of cs v)
  unfolding judge_each report_claim select
  judge_each-IsJudged [] v = record {
    validated = sym (append-nil v.validated_claims);
    failed_ids = sym (append-nil v.failed_claim_ids);
    passes = omega arith;
    warned = omega arith;
  }
  judge_each-IsJudged (c ∷ cs) v =
      let next = judged v (with_verdict c) (reason_of c) in
      Returns_mono (IsJudged cs next) (IsJudged (c ∷ cs) v) (judge_each reason_of cs next)
        (λ v' h. judged-IsJudged c cs v v' h) (judge_each-IsJudged cs next)

length-ids_of : (cs : List Claim) → length (ids_of cs) ≡ length cs
length-ids_of [] = refl
length-ids_of (c ∷ cs) = omega (arith, length-ids_of cs)

length-with_verdict :
    (reason_of : Claim → Option String) (cs : List Claim)
    → length (map (with_verdict reason_of) cs) ≡ length cs
length-with_verdict reason_of [] = refl
length-with_verdict reason_of (c ∷ cs) = omega (arith, length-with_verdict reason_of cs)

pending_claims :
    (F : FloatOps) (T : TextOps F) (cs : List Claim)
    → All (λ c. c.gate_status ≡ pending) cs
    → (rendered_claims F T cs ≡ cs) × (blocked_warnings F T cs ≡ [])
unfolding select
pending_claims F T [] h = (refl, refl)
pending_claims F T (c ∷ cs) h =
    let rest = pending_claims F T cs h.1 in
    let shown : not_blocked c.gate_status ≡ true = ap not_blocked h.0 in
    (rw (shown, rest.0) refl, rw shown rest.1)

module _ (F : FloatOps) (store : EventStore (Payload F)) (env : ℕ → String × ℕ) where
  -- The gate's event reports the verdict on each claim; the claims themselves are left.
  pub record IsGated (reason_of : Claim → Option String) (s s' : Reporting F store env)
      : Type 0 where
    pub event : SimulationEvent (Payload F)
    pub last : s'.simulation.events ≡ store.append s.simulation.events event
    pub payload :
        event.payload
        ≡ citation_gate (record {
          total_claims = length s.report_claims;
          passed = length (faultless reason_of s.report_claims);
          failed = length (faulty reason_of s.report_claims);
          failed_claim_ids = ids_of (faulty reason_of s.report_claims);
        })
    pub warned : length s'.warnings ≡ length s.warnings + length (faulty reason_of s.report_claims)
    pub claims : s'.report_claims ≡ s.report_claims

  -- With run metadata and a round that is not negative, the gate returns. It publishes one event,
  -- which counts all claims, those without and those with a reason to fail, and names the latter in
  -- their order; it adds one warning per failing claim, and it leaves the claims of the state as they
  -- were.
  pub citation_gate_node-IsGated :
      (s : Reporting F store env) (run_meta : RunMeta)
      → s.simulation.state.run_meta ≡ some run_meta
      → pos 0 ≤ℤ s.simulation.state.round_no
      → Returns (IsGated (reason_in F store env s run_meta) s) (citation_gate_node F store env s)
  unfolding citation_gate_node
  citation_gate_node-IsGated s run_meta has_run_meta round_no =
      let g = s.simulation.state in
      let cs = s.report_claims in
      let P = IsGated (reason_in F store env s run_meta) s in
      bind-Returns _ P (require g.run_meta (value_error "run_meta is required")) _
        (require-Returns _ _ has_run_meta)
        λ m meta.
          let reason = reason_in F store env s m in
          let same_test = ap (reason_in F store env s) meta.1 in
          bind-Returns _ P (judge_each reason cs no_verdicts) _
            (judge_each-IsJudged reason cs no_verdicts)
            λ v q.
              let total : length v.validated_claims ≡ length cs =
                ap length q.validated ∙ length-with_verdict reason cs in
              let ids : length v.failed_claim_ids ≡ length (faulty reason cs) =
                ap length q.failed_ids ∙ length-ids_of (faulty reason cs) in
              let all : v.passed_count ≡ length (faultless reason cs) = omega (arith, q.passes) in
              bind-Returns (λ p. P (after_gate F store env s v p)) P
                (emit F store env m "CITATION_GATE" _ s.simulation g) _
                (emit-Published F store env (λ p. P (after_gate F store env s v p)) m
                  "CITATION_GATE" _ s.simulation g round_no
                  (λ e same.
                    let s' = after_gate F store env s v (published F store env s.simulation g e) in
                    subst (λ r. IsGated r s s') same_test
                      (record {
                        event = e;
                        last = refl;
                        payload = same ∙ rw (total, ids, all, q.failed_ids) refl;
                        warned = omega (arith, q.warned, length-append s.warnings v.warnings);
                        claims = refl;
                      })))
                λ p k. k

  -- Where every claim is pending, the renderer shows every claim after the gate has run, whatever the
  -- gate's verdict on it is: none is blocked, and no warning names one.
  pub rendered_claims-citation_gate_node :
      (T : TextOps F) (s : Reporting F store env) (run_meta : RunMeta)
      → s.simulation.state.run_meta ≡ some run_meta
      → pos 0 ≤ℤ s.simulation.state.round_no
      → All (λ c. c.gate_status ≡ pending) s.report_claims
      → Returns
          (λ s'.
            (rendered_claims F T s'.report_claims ≡ s.report_claims)
            × (blocked_warnings F T s'.report_claims ≡ []))
          (citation_gate_node F store env s)
  rendered_claims-citation_gate_node T s run_meta has_run_meta round_no h =
      Returns_mono (IsGated (reason_in F store env s run_meta) s) _
        (citation_gate_node F store env s)
        (λ s' q. (
          ap (rendered_claims F T) q.claims ∙ (pending_claims F T s.report_claims h).0,
          ap (blocked_warnings F T) q.claims ∙ (pending_claims F T s.report_claims h).1,
        ))
        (citation_gate_node-IsGated s run_meta has_run_meta round_no)
