-- ===== src/Events/Answers.antt =====
-- What the two event stores answer after any sequence of appends and clears.
use mathlib.Core.Path.{◌≡◌, sym, ◌∙◌, ap}
use mathlib.Core.Bool.{true, false}
use mathlib.Core.List.{List, [], ◌∷◌, Perm}
use native.Mathlib.Omega.{arith}
use younggeul.Prelude.{String, All, length, sorted-perm, sorted-IsSorted, IsSorted}
use younggeul.Errors.{ok, ok-eq}
use younggeul.Events.{
  Event, Operation, append, clear, log_of, state_of, by_time, of_type, not_later,
}
use younggeul.Events.Memory.{memory_store}
use younggeul.Events.Memory
use younggeul.Events.File.{Codec, file_store}
use younggeul.Events.File
use younggeul.Events.Refine.{answers, AllowedOperation}
use younggeul.Events.InMemory.{memory_implements}
use younggeul.Events.InFile.{IsEncoded, file_implements}

module _ (Payload : Type 0) where
  any_operation : (os : List (Operation Payload)) → All (AllowedOperation Payload (λ _. Unit)) os
  any_operation [] = tt
  any_operation (append e ∷ os) = (tt, any_operation os)
  any_operation (clear id ∷ os) = (tt, any_operation os)

  -- After any appends and clears (the last one first), the in-memory store has for a run the events
  -- that were appended for it since its last clear: all of them, ordered by their timestamps, those
  -- of a type by that selection, and their number.
  pub memory_answers :
      (os : List (Operation Payload)) (run_id event_type : String)
      → (Memory.get_events Payload (state_of Payload (memory_store Payload) os) run_id
          ≡ by_time Payload (log_of Payload os run_id))
        × (Memory.get_events_by_type Payload
              (state_of Payload (memory_store Payload) os)
              run_id
              event_type
            ≡ of_type Payload event_type (by_time Payload (log_of Payload os run_id)))
        × (Memory.count Payload (state_of Payload (memory_store Payload) os) run_id
            ≡ length (log_of Payload os run_id))
  memory_answers os run_id event_type =
      let (gets, by_type, counts) =
        answers Payload (λ _. Unit) (memory_store Payload) (memory_implements Payload) os run_id
          event_type (any_operation os) in
      (ok-eq gets, ok-eq by_type, counts)

  not_later_total :
      (a b : Event Payload) → not_later Payload a b ≡ false → not_later Payload b a ≡ true
  not_later_total a b h = ground arith

  -- `get_events` of the in-memory store is ordered by timestamp, and a permutation of what was
  -- appended for the run since its last clear.
  pub get_events-IsSorted :
      (os : List (Operation Payload)) (run_id : String)
      → IsSorted
          (not_later Payload)
          (Memory.get_events Payload (state_of Payload (memory_store Payload) os) run_id)
        × Perm
            (Memory.get_events Payload (state_of Payload (memory_store Payload) os) run_id)
            (log_of Payload os run_id)
  get_events-IsSorted os run_id = rw (memory_answers os run_id "").0 (
    sorted-IsSorted (not_later Payload) not_later_total (log_of Payload os run_id),
    sorted-perm (not_later Payload) (log_of Payload os run_id),
  )

  -- The file store answers like the in-memory store after the same appends and clears, if the JSON
  -- text of each appended event is an object on one line that reads back as the event.
  pub file_answers_as_memory :
      (codec : Codec Payload) (os : List (Operation Payload)) (run_id event_type : String)
      → All (AllowedOperation Payload (IsEncoded Payload codec)) os
      → (File.get_events Payload codec (state_of Payload (file_store Payload codec) os) run_id
          ≡ ok (Memory.get_events Payload (state_of Payload (memory_store Payload) os) run_id))
        × (File.get_events_by_type Payload codec
              (state_of Payload (file_store Payload codec) os)
              run_id
              event_type
            ≡ ok (
                Memory.get_events_by_type Payload
                  (state_of Payload (memory_store Payload) os)
                  run_id
                  event_type))
        × (File.count Payload codec (state_of Payload (file_store Payload codec) os) run_id
            ≡ Memory.count Payload (state_of Payload (memory_store Payload) os) run_id)
  file_answers_as_memory codec os run_id event_type a =
      let (gets, by_type, counts) =
        answers Payload (IsEncoded Payload codec) (file_store Payload codec)
          (file_implements Payload codec) os run_id event_type a in
      let (gets', by_type', counts') = memory_answers os run_id event_type in
      (gets ∙ ap ok (sym gets'), by_type ∙ ap ok (sym by_type'), counts ∙ sym counts')
