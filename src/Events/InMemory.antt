-- ===== src/Events/InMemory.antt =====
-- `InMemoryEventStore` implements the log.
use mathlib.Core.Path.{◌≡◌, refl}
use mathlib.Core.Logic.{inl, inr}
use text.Mathlib.Text.{◌==◌}
use text.Mathlib.TextEquality.{eq_iff}
use younggeul.Prelude.{String, get, get-set_item, get-without, Bool-cases}
use younggeul.Events.{Operation, append, clear, Log, log_step, step}
use younggeul.Events.Memory
use younggeul.Events.Memory.{
  InMemoryEventStore, memory_store, events_of, get_events, get_events_by_type, count,
}
use younggeul.Events.Refine.{Implements}

module _ (Payload : Type 0) where
  Holds : InMemoryEventStore Payload → Log Payload → Type 0
  Holds s log = (id : String) → events_of Payload (get s id) ≡ log id

  module _ (s : InMemoryEventStore Payload) (log : Log Payload) (h : Holds s log) where
    Holds-step :
        (o : Operation Payload)
        → Holds (step Payload (memory_store Payload) s o) (log_step Payload log o)
    unfolding Holds step log_step Memory.append Memory.clear
    Holds-step (append e) = λ id. elim (Bool-cases (e.run_id == id)) [
      | inl k ↦
          let same : e.run_id ≡ id = (eq_iff e.run_id id).0 k in rw (get-set_item, k, h, same) refl
      | inr k ↦ rw (get-set_item, k) (h id)
    ]
    Holds-step (clear j) = λ id. elim (Bool-cases (j == id)) [
      | inl k ↦ rw (get-without, k) refl
      | inr k ↦ rw (get-without, k) (h id)
    ]

  pub memory_implements : Implements Payload (λ _. Unit) (memory_store Payload)
  unfolding Holds get_events get_events_by_type count get
  memory_implements = record {
    holds = Holds;
    begins = λ id. refl;
    steps = λ s log o a h. Holds-step s log h o;
    gets = λ s log id h. rw h refl;
    gets_by_type = λ s log id event_type h. rw h refl;
    counts = λ s log id h. rw h refl;
  }
