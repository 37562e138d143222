-- ===== src/Replay.antt =====
-- simulation/replay/engine.py: the state of a run, rebuilt from its events. A payload is a `dict` of
-- Python values; what pydantic's `model_validate` makes of one is a parameter. A `bool` is an `int`.
pub mod Handlers
pub mod Known
pub mod Core
use mathlib.Core.Bool.{Bool, true, false}
use mathlib.Core.Option.{Option, none, some}
use mathlib.Core.List.{List, [], ◌∷◌, ◌++◌}
use text.Mathlib.Text.{◌==◌}
use younggeul.Prelude.{ℕ, ℤ, String, Dict, if◌then◌else◌}
use younggeul.Floats.{FloatOps}
use younggeul.State.{ScenarioSpec}

-- A value of a payload, as `isinstance` tells it.
mutual
  pub data Any : Type 0 where
    int_value : ℤ → Any
    str_value : String → Any
    list_value : Items → Any
    dict_value : Entries → Any
    other_value : Any

  pub data Items : Type 0 where
    no_items : Items
    item : Any → Items → Items

  pub data Entries : Type 0 where
    no_entries : Entries
    entry : String → Any → Entries → Entries

-- `payload.get(key)`
unfoldable pub lookup : Entries → String → Option Any
lookup no_entries key = none
lookup (entry k v rest) key = if k == key then some v else lookup rest key

-- `isinstance` tests
abbrev pub as_int : Option Any → Option ℤ
as_int (some (int_value n)) = some n
as_int _ = none

abbrev pub as_str : Option Any → Option String
as_str (some (str_value s)) = some s
as_str _ = none

abbrev pub as_dict : Option Any → Option Entries
as_dict (some (dict_value d)) = some d
as_dict _ = none

abbrev pub with_text : Any → List String → List String
with_text (str_value s) rest = s ∷ rest
with_text _ rest = rest

-- `[warning for warning in raw if isinstance(warning, str)]`
unfoldable pub texts : Items → List String
texts no_items = []
texts (item v rest) = with_text v (texts rest)

abbrev pub texts_of : Option Any → List String
texts_of (some (list_value items)) = texts items
texts_of _ = []

-- `_warning_list`
unfoldable pub warning_list : Entries → List String
unfolding lookup texts
warning_list payload = texts_of (lookup payload "warnings")

abbrev pub with_dict : String → Any → Dict Entries → Dict Entries
with_dict k (dict_value d) rest = (k, d) ∷ rest
with_dict k _ rest = rest

-- `{gu_code: values for … if isinstance(values, dict)}`
unfoldable pub dicts : Entries → Dict Entries
dicts no_entries = []
dicts (entry k v rest) = with_dict k v (dicts rest)

-- A `RoundOutcome`; the count of a payload may be any `int`.
pub record ReplayedOutcome (F : FloatOps) : Type 0 where
  pub round_no : ℤ
  pub cleared_volume : Dict ℤ
  pub price_changes : Dict F.Float
  pub governance_applied : List String
  pub market_actions_resolved : ℤ

-- The graph state, where a key may be missing.
pub record ReplayState (F : FloatOps) : Type 0 where
  pub intake_plan : Option Entries
  pub user_query : Option String
  pub scenario : Option (ScenarioSpec F)
  pub participant_roster : Option Entries
  pub max_rounds : Option ℤ
  pub round_no : Option ℤ
  pub market_actions : Option Entries
  pub last_outcome : Option (ReplayedOutcome F)
  pub warnings : Option (List String)

abbrev pub no_state : {F : FloatOps} → ReplayState F
no_state = record {
  intake_plan = none;
  user_query = none;
  scenario = none;
  participant_roster = none;
  max_rounds = none;
  round_no = none;
  market_actions = none;
  last_outcome = none;
  warnings = none;
}

pub data Completeness : Type 0 where
  partial full : Completeness

pub record ReplayResult (F : FloatOps) : Type 0 where
  pub state : ReplayState F
  pub completeness : Completeness
  pub event_count : ℕ
  pub warnings : List String
  pub world_summary : Option (Dict Entries)
  pub participant_count : Option ℤ
  pub anchor_period : Option String

-- What `model_validate` gives: the intake plan as a `dict`, and the scenario.
pub record Validators (F : FloatOps) : Type 0 where
  pub intake_plan : Entries → Option Entries
  pub scenario_spec : Entries → Option (ScenarioSpec F)
