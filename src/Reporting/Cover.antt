-- ===== src/Reporting/Cover.antt =====
-- simulation/nodes/report_writer.py: what every claim says is covered by the evidence of the builder.
use mathlib.Core.Path.{◌≡◌, refl}
use mathlib.Core.Bool.{true}
use mathlib.Core.Option.{none, some}
use mathlib.Core.List.{List, [], ◌∷◌}
use native.Mathlib.Omega.{arith}
use text.Mathlib.Text.{◌==◌}
use text.Mathlib.TextEquality.{eq_iff}
use younggeul.Prelude.{ℕ, ℤ, String, Dict, get, keys, knows, select, All, All-select, All-map}
use younggeul.Floats.{FloatOps}
use younggeul.State.{RunMeta, SegmentState, Shock}
use younggeul.Simulation.{GraphState}
use younggeul.Evidence.{EvidenceStore, get_by_kind, get_by_subject}
use younggeul.Evidence.Store.{IsWellFormed}
use younggeul.Report.{RoleData, text_at}
use younggeul.Reporting.{Fact, TextOps}
use younggeul.Reporting.Build.{simulation_draft, segment_draft, participant_draft, recorded}
use younggeul.Reporting.Facts.{IsPresent}
use younggeul.Reporting.Write.{
  Wording, segment_wordings, role_wordings, risk_wording, overview_wording, sorted_records,
}
use younggeul.Reporting.Gate.{judge, resolve_ids}
use younggeul.Reporting.Resolve.{IsStored}
use younggeul.Reporting.Cited.{
  IsPlain, by_subject-IsStored, by_kind-IsStored, by_subject-any, by_kind-any, judge-passes,
  run-Fits, role-Fits, segment-Fits,
}

-- The keys of a `dict` are known.
pub All-knows {ℓ} : {V : Type ℓ} (d : Dict V) → All (λ e. knows (keys d) e.0 ≡ true) d
unfolding knows
All-knows [] = tt
All-knows ((k, v) ∷ d) =
    (rw ((eq_iff k k).1 refl) refl, All-map _ _ d (λ e h. ground (arith, h)) (All-knows d))

module _ (F : FloatOps) (T : TextOps F) (s : EvidenceStore (Fact F)) (w : IsWellFormed s)
    (run_id : String) (world_keys : List String) (round_no : ℤ) where
  -- The gate finds no fault with a claim that says this.
  abbrev pub Passing : Wording F T → Type 0
  Passing c = judge (text_at c.0 "subject") run_id world_keys round_no (resolve_ids s c.1) ≡ none

  pub segments-Passing :
      (items : Dict (SegmentState F))
      → All (λ e. IsPresent F s (segment_draft F round_no e)) items
      → All (λ e. IsPlain e.0) items
      → All (λ e. knows world_keys e.0 ≡ true) items
      → All Passing (segment_wordings F T s round_no items)
  unfolding segment_wordings text_at get
  segments-Passing [] h p k = tt
  segments-Passing ((gu_code, segment) ∷ items) h p k =
      let id = h.0.0 in
      let r = recorded F (segment_draft F round_no (gu_code, segment)) id h.0.1 in
      let passes =
        judge-passes s run_id world_keys (sorted_records (get_by_subject s "segment" gu_code))
          (select (λ r. r.subject_id == gu_code) (sorted_records (get_by_kind s "segment_fact"))) _
          round_no id r (by_subject-IsStored s w "segment" gu_code)
          (All-select (IsStored s) _ _ (by_kind-IsStored s w "segment_fact")) h.0.2
          (by_subject-any s id r refl h.0.2) refl
          (segment-Fits s run_id world_keys gu_code r p.0 k.0 refl refl) in
      (passes, (passes, segments-Passing items h.1 p.1 k.1))

  pub roles-Passing :
      (items : Dict RoleData)
      → All (λ e. IsPresent F s (participant_draft F round_no e)) items
      → All Passing (role_wordings F T s round_no items)
  unfolding role_wordings text_at get
  roles-Passing [] h = tt
  roles-Passing ((key, d) ∷ items) h =
      let id = h.0.0 in
      let r = recorded F (participant_draft F round_no (key, d)) id h.0.1 in
      (
        judge-passes s run_id world_keys (sorted_records (get_by_subject s "participant_role" key))
            (select (λ r. r.subject_id == key) (sorted_records (get_by_kind s "participant_fact")))
            _ round_no id r (by_subject-IsStored s w "participant_role" key)
            (All-select (IsStored s) _ _ (by_kind-IsStored s w "participant_fact")) h.0.2
            (by_subject-any s id r refl h.0.2) refl (role-Fits s run_id world_keys key r refl refl),
        roles-Passing items h.1,
      )

  pub risk-Passing :
      (m : RunMeta) (g : GraphState F) (shocks : List (Shock F)) (n : ℕ)
      → m.run_id ≡ run_id
      → g.round_no ≡ round_no
      → IsPresent F s (simulation_draft F m g)
      → Passing (risk_wording F T s round_no shocks n)
  unfolding text_at get
  risk-Passing m g shocks n e same h =
      let r = recorded F (simulation_draft F m g) h.0 h.1 in
      judge-passes s run_id world_keys (sorted_records (get_by_kind s "simulation_fact"))
        (sorted_records (get_by_kind s "round_fact")) (some "simulation") round_no h.0 r
        (by_kind-IsStored s w "simulation_fact") (by_kind-IsStored s w "round_fact") h.2
        (by_kind-any s h.0 r refl h.2) same (run-Fits s run_id world_keys r refl e)

  pub overview-Passing :
      (m : RunMeta) (g : GraphState F) (n k : ℕ)
      → m.run_id ≡ run_id
      → g.round_no ≡ round_no
      → IsPresent F s (simulation_draft F m g)
      → Passing (overview_wording F T s round_no run_id n k)
  unfolding text_at get
  overview-Passing m g n k e same h =
      let r = recorded F (simulation_draft F m g) h.0 h.1 in
      judge-passes s run_id world_keys (sorted_records (get_by_kind s "simulation_fact"))
        (sorted_records (get_by_subject s "simulation" run_id)) (some "simulation") round_no h.0 r
        (by_kind-IsStored s w "simulation_fact") (by_subject-IsStored s w "simulation" run_id) h.2
        (by_kind-any s h.0 r refl h.2) same (run-Fits s run_id world_keys r refl e)
