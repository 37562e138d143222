-- ===== src/Events/Memory.antt =====
-- simulation/event_store.py, `InMemoryEventStore`: a `defaultdict` of lists.
use mathlib.Core.Option.{Option, none, some}
use mathlib.Core.List.{List, [], ◌∷◌, ◌++◌}
use younggeul.Prelude.{ℕ, String, Dict, get, set_item, without, length}
use younggeul.Errors.{ok}
use younggeul.Events.{Event, EventStore, by_time, of_type}

module _ (Payload : Type 0) where
  abbrev pub InMemoryEventStore : Type 0
  InMemoryEventStore = Dict (List (Event Payload))

  -- `self._events_by_run.get(run_id, [])`
  abbrev pub events_of : Option (List (Event Payload)) → List (Event Payload)
  events_of none = []
  events_of (some events) = events

  unfoldable pub append : InMemoryEventStore → Event Payload → InMemoryEventStore
  append s e = set_item s e.run_id (events_of (get s e.run_id) ++ e ∷ [])

  unfoldable pub get_events : InMemoryEventStore → String → List (Event Payload)
  get_events s run_id = by_time Payload (events_of (get s run_id))

  unfoldable pub get_events_by_type : InMemoryEventStore → String → String → List (Event Payload)
  unfolding get_events
  get_events_by_type s run_id event_type = of_type Payload event_type (get_events s run_id)

  unfoldable pub count : InMemoryEventStore → String → ℕ
  count s run_id = length (events_of (get s run_id))

  unfoldable pub clear : InMemoryEventStore → String → InMemoryEventStore
  clear s run_id = without s run_id

  abbrev pub memory_store : EventStore Payload
  memory_store = record {
    State = InMemoryEventStore;
    empty = [];
    append = append;
    clear = clear;
    get_events = λ s run_id. ok (get_events s run_id);
    get_events_by_type = λ s run_id event_type. ok (get_events_by_type s run_id event_type);
    count = count;
  }
