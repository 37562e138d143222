-- ===== src/Reporting/Writer.antt =====
-- simulation/nodes/report_writer.py: the node, which gives the claims their ids and publishes them.
use mathlib.Core.List.{List, [], ◌∷◌, ◌++◌, map}
use younggeul.Prelude.{ℕ, suc, ◌+◌, pos, String, length}
use younggeul.Errors.{Result, ok, ◌>>=◌, require, value_error}
use younggeul.Floats.{FloatOps}
use younggeul.State.{RunMeta, pending, report_claim}
use younggeul.Events.{EventStore}
use younggeul.Simulation.{Payload, Simulation, emit, report_written}
use younggeul.Report.{Claim}
use younggeul.Reporting.{TextOps, sorted_items, or_empty, role_data, Reporting}
use younggeul.Reporting.Write.{
  Wording, segment_wordings, role_wordings, shocks_of, risk_wording, overview_wording,
}

module _ (F : FloatOps) (T : TextOps F) where
  abbrev pub pending_claim : String → Wording F T → Claim
  pending_claim id (json, evidence_ids) = record {
    claim_id = id;
    claim_json = json;
    evidence_ids = evidence_ids;
    gate_status = pending;
    repair_count = pos 0;
  }

  module _ (store : EventStore (Payload F)) (env : ℕ → String × ℕ) where
    -- What the claims say, in the order in which the code makes them.
    unfoldable pub wordings : RunMeta → Reporting F store env → List (Wording F T)
    unfolding segment_wordings role_wordings
    wordings run_meta s =
        let g = s.simulation.state in
        segment_wordings F T s.evidence g.round_no (sorted_items (or_empty g.world))
        ++ role_wordings F T s.evidence g.round_no (sorted_items (role_data F g.participants []))
        ++ risk_wording F T s.evidence g.round_no (shocks_of F T g.scenario)
            (length s.governance_actions)
          ∷ overview_wording F T s.evidence g.round_no run_meta.run_id (length (or_empty g.world))
              (length g.participants)
          ∷ []

    -- The claims with fresh ids, from the n-th on.
    unfoldable pub write_each : ℕ → List (Wording F T) → Result (List Claim)
    unfolding report_claim
    write_each n [] = ok []
    write_each n (w ∷ rest) = do
      claim ← report_claim (pending_claim (env n).0 w)
      claims ← write_each (suc n) rest
      ok (claim ∷ claims)

    abbrev pub after_write :
        Reporting F store env → List Claim → Simulation F store env → Reporting F store env
    after_write s claims published = record s {
      simulation = published;
      report_claims = s.report_claims ++ claims;
    }

    unfoldable pub report_writer : Reporting F store env → Result (Reporting F store env)
    unfolding wordings write_each emit
    report_writer s = do
      run_meta ← require s.simulation.state.run_meta (value_error "run_meta is required")
      let n = s.simulation.ticks
      claims ← write_each n (wordings run_meta s)
      published ←
          emit F store env run_meta "REPORT_WRITTEN" (report_written (map (λ c. c.claim_id) claims))
            (record s.simulation { ticks = n + length claims }) s.simulation.state
      ok (after_write s claims published)
