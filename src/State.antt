-- ===== src/State.antt =====
-- core/src/younggeul_core/state/simulation.py: the data that the simulation passes from node to
-- node. A `Literal` of texts is a data type, an instant is its number of microseconds, and a
-- pydantic model is a record with the function that its constructor is: the validators, then the
-- value.
use mathlib.Core.Bool.{Bool, ◌&&◌, ◌||◌}
use mathlib.Core.Option.{Option}
use mathlib.Core.List.{List}
use younggeul.Prelude.{
  ℕ, ℤ, pos, negsuc, ltb_ℤ, ltb, leb, String, Dict, length, if◌then◌else◌, codes, ◌==◌, all,
}
use younggeul.Errors.{validation_error, Result, ok, err, ◌>>◌, guard}
use younggeul.Floats.{FloatOps, between, Between}

pub record RunMeta : Type 0 where
  pub run_id : String
  pub run_name : String
  pub created_at : ℕ
  pub model_id : String
  pub config_hash : Option String

pub record SnapshotRef : Type 0 where
  pub dataset_snapshot_id : String
  pub created_at : ℕ
  pub table_count : ℤ

-- `character in "0123456789abcdefABCDEF"`
unfoldable pub is_hex_digit : ℕ → Bool
is_hex_digit c =
    (leb b'0' c && leb c b'9') || (leb b'a' c && leb c b'f') || (leb b'A' c && leb c b'F')

unfoldable pub snapshot_ref : SnapshotRef → Result SnapshotRef
snapshot_ref s = do
  let id = codes s.dataset_snapshot_id
  guard (length id == 64) (validation_error "dataset_snapshot_id")
  guard (all is_hex_digit id) (validation_error "dataset_snapshot_id")
  ok s

pub data ShockType : Type 0 where
  interest_rate regulation supply demand external : ShockType

pub record Shock (F : FloatOps) : Type 0 where
  pub shock_type : ShockType
  pub description : String
  pub magnitude : F.Float
  pub target_segments : List String

-- A date by its year, month and day.
pub record CalendarDate : Type 0 where
  pub year : ℕ
  pub month : ℕ
  pub day : ℕ

-- `a < b` on dates
pub date_ltb : CalendarDate → CalendarDate → Bool
date_ltb a b =
    if a.year == b.year
    then (if a.month == b.month then ltb a.day b.day else ltb a.month b.month)
    else ltb a.year b.year

pub record ScenarioSpec (F : FloatOps) : Type 0 where
  pub scenario_name : String
  pub target_gus : List String
  pub target_period_start : CalendarDate
  pub target_period_end : CalendarDate
  pub shocks : List (Shock F)

pub data Trend : Type 0 where
  up down flat : Trend

pub record SegmentState (F : FloatOps) : Type 0 where
  pub gu_code : String
  pub gu_name : String
  pub current_median_price : ℤ
  pub current_volume : ℤ
  pub price_trend : Trend
  pub sentiment_index : F.Float
  pub supply_pressure : F.Float

pub data Role : Type 0 where
  buyer investor tenant landlord broker : Role

pub data Sentiment : Type 0 where
  bullish bearish neutral : Sentiment

pub record ParticipantState (F : FloatOps) : Type 0 where
  pub participant_id : String
  pub role : Role
  pub capital : ℤ
  pub holdings : ℤ
  pub sentiment : Sentiment
  pub risk_tolerance : F.Float

pub data ActionType : Type 0 where
  buy sell hold rent_out regulate adjust_rate : ActionType

-- The policies put one key into the payload: `{"max_budget": capital}`.
pub record ActionProposal (F : FloatOps) : Type 0 where
  pub agent_id : String
  pub round_no : ℤ
  pub action_type : ActionType
  pub target_segment : String
  pub confidence : F.Float
  pub reasoning_summary : String
  pub proposed_value : Option (Dict ℤ)

pub record RoundOutcome (F : FloatOps) : Type 0 where
  pub round_no : ℤ
  pub cleared_volume : Dict ℕ
  pub price_changes : Dict F.Float
  pub governance_applied : List String
  pub market_actions_resolved : ℕ

pub data GateStatus : Type 0 where
  pending passed failed repaired : GateStatus

-- `Json` is the type of the claim's payload.
pub record ReportClaim (Json : Type 0) : Type 0 where
  pub claim_id : String
  pub claim_json : Json
  pub evidence_ids : List String
  pub gate_status : GateStatus
  pub repair_count : ℤ

unfoldable pub report_claim : {Json : Type 0} → ReportClaim Json → Result (ReportClaim Json)
report_claim c =
    if ltb_ℤ (pos 2) c.repair_count then err (validation_error "repair_count") else ok c

module _ (F : FloatOps) where
  open F use {Float, decimal}

  abbrev pub ZeroOne : Float → Type 0
  ZeroOne x = Between F (decimal (pos 0) 1) x (decimal (pos 10) 1)

  abbrev pub SignedOne : Float → Type 0
  SignedOne x = Between F (decimal (negsuc 9) 1) x (decimal (pos 10) 1)

  pub shock : Shock F → Result (Shock F)
  shock s = do
    guard (between F (decimal (negsuc 9) 1) s.magnitude (decimal (pos 10) 1))
        (validation_error "magnitude")
    ok s

  pub scenario_spec : ScenarioSpec F → Result (ScenarioSpec F)
  unfolding date_ltb
  scenario_spec s =
      if date_ltb s.target_period_end s.target_period_start
      then err (validation_error "target_period_end")
      else ok s

  unfoldable pub segment_state : SegmentState F → Result (SegmentState F)
  segment_state s = do
    guard (between F (decimal (pos 0) 1) s.sentiment_index (decimal (pos 10) 1))
        (validation_error "sentiment_index")
    guard (between F (decimal (negsuc 9) 1) s.supply_pressure (decimal (pos 10) 1))
        (validation_error "supply_pressure")
    ok s

  unfoldable pub participant_state : ParticipantState F → Result (ParticipantState F)
  participant_state p = do
    guard (between F (decimal (pos 0) 1) p.risk_tolerance (decimal (pos 10) 1))
        (validation_error "risk_tolerance")
    ok p

  unfoldable pub action_proposal : ActionProposal F → Result (ActionProposal F)
  action_proposal a = do
    guard (between F (decimal (pos 0) 1) a.confidence (decimal (pos 10) 1))
        (validation_error "confidence")
    ok a

  -- What the validators of the two state models guarantee of a value.
  pub record IsValidSegment (s : SegmentState F) : Type 0 where
    pub sentiment : ZeroOne s.sentiment_index
    pub supply : SignedOne s.supply_pressure

  abbrev pub IsValidParticipant : ParticipantState F → Type 0
  IsValidParticipant p = ZeroOne p.risk_tolerance
