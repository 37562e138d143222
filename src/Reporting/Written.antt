-- ===== src/Reporting/Written.antt =====
-- simulation/nodes/evidence_builder.py and report_writer.py, one after the other: what holds of the
-- state after each, so that every claim is backed by the evidence.
use mathlib.Core.Path.{◌≡◌, refl, sym, subst}
use mathlib.Core.Option.{none, some}
use mathlib.Core.List.{List, [], ◌∷◌, ◌++◌, map}
use younggeul.Prelude.{
  ℕ, suc, ◌+◌, ℤ, pos, ◌≤ℤ◌, String, keys, length, All, All-sorted, All-append, All-suffix,
}
use younggeul.Errors.{require, value_error, Returns, Returns_of, bind-Returns, require-Returns}
use younggeul.Floats.{FloatOps}
use younggeul.State.{RunMeta, report_claim}
use younggeul.Events.{EventStore}
use younggeul.Simulation.{Payload, emit}
use younggeul.Simulation.Emit.{emit-Published}
use younggeul.Evidence.{EvidenceStore}
use younggeul.Evidence.Store.{IsWellFormed}
use younggeul.Report.{Claim}
use younggeul.Reporting.{Fact, TextOps, sorted_items, or_empty, role_data, Reporting}
use younggeul.Reporting.Build.{
  simulation_draft, segment_draft, participant_draft, round_drafts, drafts, building, build_each,
  evidence_builder,
}
use younggeul.Reporting.Facts.{IsPresent, IsBuilt, IsFresh, build_each-IsBuilt, build_each-IsOk}
use younggeul.Reporting.Write.{Wording, segment_wordings, role_wordings}
use younggeul.Reporting.Writer.{wordings, write_each, after_write, report_writer}
use younggeul.Reporting.Gate.{failure_reason, reason_in}
use younggeul.Reporting.Resolve.{All-prefix, All-unmapped}
use younggeul.Reporting.Cited.{IsPlain}
use younggeul.Reporting.Cover.{
  All-knows, Passing, segments-Passing, roles-Passing, risk-Passing, overview-Passing,
}

module _ (F : FloatOps) (T : TextOps F) (store : EventStore (Payload F))
    (env : ℕ → String × ℕ) where
  -- What holds before the builder.
  pub record IsReportable (s : Reporting F store env) : Type 0 where
    pub run_meta : RunMeta
    pub has_run_meta : s.simulation.state.run_meta ≡ some run_meta
    pub round_no : pos 0 ≤ℤ s.simulation.state.round_no
    pub no_claims : s.report_claims ≡ []
    pub well_formed : IsWellFormed s.evidence
    pub fresh : IsFresh F store env s.evidence s.simulation.ticks
    pub plain : All (λ e. IsPlain e.0) (or_empty s.simulation.state.world)

  -- What holds after it.
  pub record IsWritable (s : Reporting F store env) : Type 0 where
    pub run_meta : RunMeta
    pub has_run_meta : s.simulation.state.run_meta ≡ some run_meta
    pub round_no : pos 0 ≤ℤ s.simulation.state.round_no
    pub no_claims : s.report_claims ≡ []
    pub well_formed : IsWellFormed s.evidence
    pub present : All (IsPresent F s.evidence) (drafts F store env run_meta s.simulation.state)
    pub plain : All (λ e. IsPlain e.0) (or_empty s.simulation.state.world)

  pub record IsWritten (s : Reporting F store env) : Type 0 where
    pub run_meta : RunMeta
    pub has_run_meta : s.simulation.state.run_meta ≡ some run_meta
    pub round_no : pos 0 ≤ℤ s.simulation.state.round_no
    pub passing : All (λ c. reason_in F store env s run_meta c ≡ none) s.report_claims

  pub builder-IsWritable :
      (s : Reporting F store env)
      → IsReportable s
      → Returns (λ s'. IsWritable s' × (s'.warnings ≡ s.warnings)) (evidence_builder F store env s)
  unfolding evidence_builder
  builder-IsWritable s h =
      let P = λ (s' : Reporting F store env). IsWritable s' × (s'.warnings ≡ s.warnings) in
      bind-Returns _ P (require s.simulation.state.run_meta (value_error "run_meta is required")) _
        (require-Returns _ _ h.has_run_meta)
        λ m meta.
          let now = (env s.simulation.ticks).1 in
          let ds = drafts F store env m s.simulation.state in
          let b = building F store env s in
          bind-Returns (IsBuilt F store env ds b) P (build_each F store env now ds b) _
            (Returns_of (IsBuilt F store env ds b) _ (build_each-IsOk F store env now ds b h.fresh)
              (build_each-IsBuilt F store env now ds b h.well_formed))
            λ b' i. (
              record {
                run_meta = m;
                has_run_meta = meta.0;
                round_no = h.round_no;
                no_claims = h.no_claims;
                well_formed = i.well_formed;
                present = i.present;
                plain = h.plain;
              },
              refl,
            )

  wordings-Passing :
      (s : Reporting F store env) (h : IsWritable s)
      → All
          (Passing F T s.evidence h.well_formed h.run_meta.run_id
            (keys (or_empty s.simulation.state.world))
            s.simulation.state.round_no)
          (wordings F T store env h.run_meta s)
  unfolding wordings drafts
  wordings-Passing s h =
      let g = s.simulation.state in
      let world = or_empty g.world in
      let P = Passing F T s.evidence h.well_formed h.run_meta.run_id (keys world) g.round_no in
      let Present = IsPresent F s.evidence in
      let segment_drafts = map (segment_draft F g.round_no) (sorted_items world) in
      let role_drafts =
        map (participant_draft F g.round_no) (sorted_items (role_data F g.participants [])) in
      let first = simulation_draft F h.run_meta g ∷ segment_drafts in
      let most =
        All-prefix Present (first ++ role_drafts) (round_drafts F g.last_outcome) h.present in
      let whole = All-prefix Present first role_drafts most in
      let roles = All-suffix Present first role_drafts most in
      let segments = segment_wordings F T s.evidence g.round_no (sorted_items world) in
      let of_roles =
        role_wordings F T s.evidence g.round_no (sorted_items (role_data F g.participants [])) in
      All-append P (segments ++ of_roles) _
        (All-append P segments of_roles
          (segments-Passing F T s.evidence h.well_formed h.run_meta.run_id (keys world) g.round_no _
            (All-unmapped (segment_draft F g.round_no) Present _ whole.1) (All-sorted _ _ _ h.plain)
            (All-sorted _ _ _ (All-knows world)))
          (roles-Passing F T s.evidence h.well_formed h.run_meta.run_id (keys world) g.round_no _
            (All-unmapped (participant_draft F g.round_no) Present _ roles)))
        (
          risk-Passing F T s.evidence h.well_formed h.run_meta.run_id (keys world) g.round_no
              h.run_meta g _ _ refl refl whole.0,
          (
            overview-Passing F T s.evidence h.well_formed h.run_meta.run_id (keys world) g.round_no
                h.run_meta g _ _ refl refl whole.0,
            tt,
          ),
        )

  write_each-Returns :
      (s : EvidenceStore (Fact F)) (w : IsWellFormed s) (run_id : String) (world_keys : List String)
      (round_no : ℤ) (n : ℕ) (ws : List (Wording F T))
      → All (Passing F T s w run_id world_keys round_no) ws
      → Returns
          (All (λ c. failure_reason s run_id world_keys round_no c ≡ none))
          (write_each F T store env n ws)
  unfolding write_each report_claim failure_reason
  write_each-Returns s w run_id world_keys round_no n [] h = tt
  write_each-Returns s w run_id world_keys round_no n (c ∷ ws) h =
      let P = λ (c : Claim). failure_reason s run_id world_keys round_no c ≡ none in
      bind-Returns (All P) (All P) (write_each F T store env (suc n) ws) _
        (write_each-Returns s w run_id world_keys round_no (suc n) ws h.1)
        λ claims passing. (h.0, passing)

  pub writer-IsWritten :
      (s : Reporting F store env)
      → IsWritable s
      → Returns (λ s'. IsWritten s' × (s'.warnings ≡ s.warnings)) (report_writer F T store env s)
  unfolding report_writer
  writer-IsWritten s h =
      let P = λ (s' : Reporting F store env). IsWritten s' × (s'.warnings ≡ s.warnings) in
      let g = s.simulation.state in
      bind-Returns _ P (require g.run_meta (value_error "run_meta is required")) _
        (require-Returns _ _ h.has_run_meta)
        λ m meta.
          bind-Returns _ P
            (write_each F T store env s.simulation.ticks (wordings F T store env m s)) _
            (write_each-Returns s.evidence h.well_formed m.run_id (keys (or_empty g.world))
              g.round_no s.simulation.ticks (wordings F T store env m s)
              (subst
                (λ (q : RunMeta).
                  All
                    (Passing F T s.evidence h.well_formed q.run_id (keys (or_empty g.world))
                      g.round_no)
                    (wordings F T store env q s))
                (sym meta.1) (wordings-Passing s h)))
            λ claims passing.
              bind-Returns (λ p. P (after_write F T store env s claims p)) P
                (emit F store env m "REPORT_WRITTEN" _
                  (record s.simulation { ticks = s.simulation.ticks + length claims }) g)
                _
                (emit-Published F store env (λ p. P (after_write F T store env s claims p)) m
                  "REPORT_WRITTEN" _
                  (record s.simulation { ticks = s.simulation.ticks + length claims }) g h.round_no
                  (λ e _. (
                    record {
                      run_meta = m;
                      has_run_meta = meta.0;
                      round_no = h.round_no;
                      passing =
                          subst (λ cs. All (λ c. reason_in F store env s m c ≡ none) (cs ++ claims))
                            (sym h.no_claims) passing;
                    },
                    refl,
                  )))
                λ p q. q
