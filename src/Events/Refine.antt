-- ===== src/Events/Refine.antt =====
-- An event store implements the log: its answers are those of the log of its operations.
use mathlib.Core.Path.{◌≡◌}
use mathlib.Core.List.{List, [], ◌∷◌}
use younggeul.Prelude.{String, All, length}
use younggeul.Errors.{ok}
use younggeul.Events.{
  Event, EventStore, Operation, append, clear, Log, log_step, log_of, step, state_of, by_time,
  of_type,
}

module _ (Payload : Type 0) (Allowed : Event Payload → Type 0) where
  abbrev pub AllowedOperation : Operation Payload → Type 0
  AllowedOperation (append e) = Allowed e
  AllowedOperation (clear id) = Unit

  module _ (store : EventStore Payload) where
    -- `holds` relates a state to the log that it stands for.
    pub record Implements : Type 1 where
      pub holds : store.State → Log Payload → Type 0
      pub begins : holds store.empty (λ _. [])
      pub steps :
          (s : store.State) (log : Log Payload) (o : Operation Payload)
          → AllowedOperation o
          → holds s log
          → holds (step Payload store s o) (log_step Payload log o)
      pub gets :
          (s : store.State) (log : Log Payload) (run_id : String)
          → holds s log
          → store.get_events s run_id ≡ ok (by_time Payload (log run_id))
      pub gets_by_type :
          (s : store.State) (log : Log Payload) (run_id event_type : String)
          → holds s log
          → store.get_events_by_type s run_id event_type
            ≡ ok (of_type Payload event_type (by_time Payload (log run_id)))
      pub counts :
          (s : store.State) (log : Log Payload) (run_id : String)
          → holds s log
          → store.count s run_id ≡ length (log run_id)

    module _ (i : Implements) where
      state_of-holds :
          (os : List (Operation Payload))
          → All AllowedOperation os
          → i.holds (state_of Payload store os) (log_of Payload os)
      unfolding state_of log_of
      state_of-holds [] a = i.begins
      state_of-holds (o ∷ os) a = i.steps _ _ o a.0 (state_of-holds os a.1)

      -- After any sequence of allowed operations, the three reads answer for the log.
      pub answers :
          (os : List (Operation Payload)) (run_id event_type : String)
          → All AllowedOperation os
          → (store.get_events (state_of Payload store os) run_id
              ≡ ok (by_time Payload (log_of Payload os run_id)))
            × (store.get_events_by_type (state_of Payload store os) run_id event_type
                ≡ ok (of_type Payload event_type (by_time Payload (log_of Payload os run_id))))
            × (store.count (state_of Payload store os) run_id ≡ length (log_of Payload os run_id))
      answers os run_id event_type a =
          let h = state_of-holds os a in
          (i.gets _ _ run_id h, i.gets_by_type _ _ run_id event_type h, i.counts _ _ run_id h)
