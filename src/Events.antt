-- ===== src/Events.antt =====
-- simulation/events.py: an event of a run, and the protocol of an event store, with what its
-- documentation says of each method, against a log.
pub mod Memory
pub mod File
pub mod Refine
pub mod InMemory
pub mod InFile
pub mod Answers
use mathlib.Core.Path.{◌≡◌}
use mathlib.Core.Bool.{Bool}
use mathlib.Core.List.{List, [], ◌∷◌, ◌++◌}
use text.Mathlib.Text.{◌==◌}
use younggeul.Prelude.{ℕ, ℤ, leb, String, length, select, sorted, if◌then◌else◌}
use younggeul.Errors.{Result, ok, ◌>>=◌, ◌>>◌}
use younggeul.Rounds.{ge_zero}

-- An instant is its number of microseconds.
pub record SimulationEvent (Payload : Type 0) : Type 0 where
  pub event_id : String
  pub run_id : String
  pub round_no : ℤ
  pub event_type : String
  pub timestamp : ℕ
  pub payload : Payload

module _ (Payload : Type 0) where
  abbrev pub Event : Type 0
  Event = SimulationEvent Payload

  unfoldable pub simulation_event : Event → Result Event
  simulation_event e = do ge_zero e.round_no "round_no"; ok e

  -- `a.timestamp <= b.timestamp`
  abbrev pub not_later : Event → Event → Bool
  not_later a b = leb a.timestamp b.timestamp

  abbrev pub by_time : List Event → List Event
  by_time = sorted not_later

  abbrev pub of_type : String → List Event → List Event
  of_type event_type = select (λ e. e.event_type == event_type)

  -- The protocol: a store has a state, two methods that change it and three that read it.
  pub record EventStore : Type 1 where
    pub State : Type 0
    pub empty : State
    pub append : State → Event → State
    pub clear : State → String → State
    pub get_events : State → String → Result (List Event)
    pub get_events_by_type : State → String → String → Result (List Event)
    pub count : State → String → ℕ

  pub data Operation : Type 0 where
    append : Event → Operation
    clear : (run_id : String) → Operation

  -- What a store stands for: the events of each run, in the order of their arrival.
  abbrev pub Log : Type 0
  Log = String → List Event

  unfoldable pub log_step : Log → Operation → Log
  log_step log (append e) =
      λ run_id. if e.run_id == run_id then log run_id ++ e ∷ [] else log run_id
  log_step log (clear id) = λ run_id. if id == run_id then [] else log run_id

  -- The log after the operations, the last one first.
  unfoldable pub log_of : List Operation → Log
  log_of [] = λ _. []
  log_of (o ∷ rest) = log_step (log_of rest) o

  module _ (store : EventStore) where
    unfoldable pub step : store.State → Operation → store.State
    step s (append e) = store.append s e
    step s (clear id) = store.clear s id

    -- The store after the operations, the last one first.
    unfoldable pub state_of : List Operation → store.State
    state_of [] = store.empty
    state_of (o ∷ rest) = step (state_of rest) o
