-- ===== src/Reporting/Build.antt =====
-- simulation/nodes/evidence_builder.py: the facts of a finished simulation go to the evidence store.
use mathlib.Core.Option.{Option, none, some}
use mathlib.Core.List.{List, [], ◌∷◌, ◌++◌, map}
use Prim.Native.String.{◌++◌ as ◌+++◌}
use younggeul.Prelude.{ℕ, suc, ℤ, ◌==◌, String, length, str, if◌then◌else◌}
use younggeul.Errors.{Result, ok, ◌>>=◌, require, value_error}
use younggeul.Floats.{FloatOps}
use younggeul.State.{RunMeta, SegmentState, RoundOutcome}
use younggeul.Events.{EventStore}
use younggeul.Simulation.{Payload, GraphState}
use younggeul.Evidence.{EvidenceRecord, EvidenceStore, add}
use younggeul.Report.{RoleData}
use younggeul.Reporting.{
  Fact, simulation_fact, segment_fact, participant_fact, round_fact, sorted_items, or_empty,
  role_data, Reporting,
}

-- `event_refs[-1:]`
unfoldable pub last_of : List String → List String
last_of [] = []
last_of (e ∷ []) = e ∷ []
last_of (e ∷ (f ∷ es)) = last_of (f ∷ es)

module _ (F : FloatOps) where
  -- A record without its id.
  pub record Draft : Type 0 where
    pub kind : String
    pub subject_type : String
    pub subject_id : String
    pub round_no : ℤ
    pub payload : Fact F
    pub source_event_ids : List String

  abbrev pub completion_reason : Option (RoundOutcome F) → String
  completion_reason none = "max_rounds"
  completion_reason (some outcome) =
      if outcome.market_actions_resolved == 0 then "market_frozen" else "max_rounds"

  abbrev pub simulation_draft : RunMeta → GraphState F → Draft
  simulation_draft run_meta g = record {
    kind = "simulation_fact";
    subject_type = "simulation";
    subject_id = run_meta.run_id;
    round_no = g.round_no;
    payload =
        simulation_fact g.round_no (length (or_empty g.world)) (length g.participants)
          (completion_reason g.last_outcome);
    source_event_ids = last_of g.event_refs;
  }

  abbrev pub segment_draft : ℤ → String × SegmentState F → Draft
  segment_draft round_no (gu_code, segment) = record {
    kind = "segment_fact";
    subject_type = "segment";
    subject_id = gu_code;
    round_no = round_no;
    payload =
        segment_fact gu_code segment.gu_name segment.current_median_price segment.current_volume
          segment.price_trend segment.sentiment_index;
    source_event_ids = [];
  }

  abbrev pub participant_draft : ℤ → String × RoleData → Draft
  participant_draft round_no (key, totals) = record {
    kind = "participant_fact";
    subject_type = "participant_role";
    subject_id = key;
    round_no = round_no;
    payload = participant_fact key totals;
    source_event_ids = [];
  }

  abbrev pub round_drafts : Option (RoundOutcome F) → List Draft
  round_drafts none = []
  round_drafts (some outcome) =
      record {
        kind = "round_fact";
        subject_type = "round";
        subject_id = "round-" +++ str outcome.round_no;
        round_no = outcome.round_no;
        payload =
            round_fact outcome.round_no outcome.market_actions_resolved outcome.cleared_volume
              outcome.price_changes;
        source_event_ids = [];
      }
      ∷ []

  abbrev pub recorded : Draft → String → ℕ → EvidenceRecord (Fact F)
  recorded d id now = record {
    evidence_id = id;
    kind = d.kind;
    subject_type = d.subject_type;
    subject_id = d.subject_id;
    round_no = d.round_no;
    payload = d.payload;
    source_event_ids = d.source_event_ids;
    created_at = now;
  }

  module _ (store : EventStore (Payload F)) (env : ℕ → String × ℕ) where
    -- The evidence store, the ids so far and how many ids are given out.
    pub record Building : Type 0 where
      pub evidence : EvidenceStore (Fact F)
      pub evidence_ids : List String
      pub ticks : ℕ

    abbrev pub built : Building → EvidenceStore (Fact F) → Building
    built b evidence = record {
      evidence = evidence;
      evidence_ids = b.evidence_ids ++ (env b.ticks).0 ∷ [];
      ticks = suc b.ticks;
    }

    -- A fresh id, `evidence_store.add`, and the id is noted, for each draft in turn.
    unfoldable pub build_each : ℕ → List Draft → Building → Result Building
    unfolding add
    build_each now [] b = ok b
    build_each now (d ∷ rest) b = do
      evidence ← add b.evidence (recorded d (env b.ticks).0 now)
      build_each now rest (built b evidence)

    -- The drafts in the order in which the code adds them.
    unfoldable pub drafts : RunMeta → GraphState F → List Draft
    unfolding role_data last_of
    drafts run_meta g =
        (simulation_draft run_meta g
          ∷ map (segment_draft g.round_no) (sorted_items (or_empty g.world)))
        ++ map (participant_draft g.round_no) (sorted_items (role_data F g.participants []))
        ++ round_drafts g.last_outcome

    abbrev pub after_build : Reporting F store env → Building → Reporting F store env
    after_build s b = record s {
      simulation = record s.simulation { ticks = b.ticks };
      evidence = b.evidence;
      evidence_refs = s.evidence_refs ++ b.evidence_ids;
    }

    abbrev pub building : Reporting F store env → Building
    building s = record { evidence = s.evidence; evidence_ids = []; ticks = s.simulation.ticks }

    unfoldable pub evidence_builder : Reporting F store env → Result (Reporting F store env)
    unfolding build_each drafts
    evidence_builder s = do
      run_meta ← require s.simulation.state.run_meta (value_error "run_meta is required")
      b ← build_each (env s.simulation.ticks).1 (drafts run_meta s.simulation.state) (building s)
      ok (after_build s b)
