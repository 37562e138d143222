-- ===== src/Examples/Stores.antt =====
-- The theorems on the event stores, the runs and the policies, applied to small histories.
use mathlib.Core.Path.{◌≡◌, refl}
use mathlib.Core.Bool.{true}
use mathlib.Core.Option.{Option, none, some}
use mathlib.Core.List.{List, [], ◌∷◌, Perm}
use younggeul.Prelude.{
  ℕ, suc, ◌+◌, pos, ◌≤ℤ◌, ◌==◌, String, length, IsSorted, get, set_item, knows, sorted,
  insert_sorted, select, any, if◌then◌else◌,
}
use younggeul.Errors.{Result, ok, err, value_error}
use younggeul.Events.{
  Event, Operation, append, clear, log_of, state_of, by_time, of_type, not_later,
}
use younggeul.Events.Memory
use younggeul.Events.Memory.{memory_store}
use younggeul.Events.File
use younggeul.Events.File.{Codec, file_store}
use younggeul.Events.InFile.{IsEncoded}
use younggeul.Events.Answers.{memory_answers, get_events-IsSorted, file_answers_as_memory}
use younggeul.RunStore.{
  is_final, is_inflight, reconcile, list_runs, read_meta, write_meta, write_report, is_allowed,
  RunMeta, RunDir, RunStore, create_run, update_status, reconcile_stale_runs, get_run,
  inflight_run_count, interrupted, set_status,
}
use younggeul.RunStore.Status.{Moves, IsStore}
use younggeul.RunStore.History.{
  reconcile_reads, reconcile_writes, Service, IsService, History, begins, goes_on,
  update_status-Moves, History-IsService,
}
use younggeul.RunStore.Ended.{HasEnded, History-HasEnded}
use younggeul.RunStore.Calls.{idle, update_status-History, reconcile_stale_runs-History}
use younggeul.RunStore.Capacity.{create_run-limit, reconcile_stale_runs_complete}

-- Two events, with a number for the payload; the later one is appended first.
abbrev early : Event ℕ
early = record {
  event_id = "e1";
  run_id = "run";
  round_no = pos 1;
  event_type = "ROUND_RESOLVED";
  timestamp = 10;
  payload = 1;
}

abbrev late : Event ℕ
late = record early { event_id = "e2"; timestamp = 20; payload = 2 }

abbrev operations : List (Operation ℕ)
operations = append early ∷ append late ∷ clear "run" ∷ append early ∷ []

memory_answers_example :
    (Memory.get_events ℕ (state_of ℕ (memory_store ℕ) operations) "run"
      ≡ by_time ℕ (log_of ℕ operations "run"))
    × (Memory.get_events_by_type ℕ (state_of ℕ (memory_store ℕ) operations) "run" "ROUND_RESOLVED"
        ≡ of_type ℕ "ROUND_RESOLVED" (by_time ℕ (log_of ℕ operations "run")))
    × (Memory.count ℕ (state_of ℕ (memory_store ℕ) operations) "run"
        ≡ length (log_of ℕ operations "run"))
memory_answers_example = memory_answers ℕ operations "run" "ROUND_RESOLVED"

get_events-IsSorted_example :
    IsSorted (not_later ℕ) (Memory.get_events ℕ (state_of ℕ (memory_store ℕ) operations) "run")
    × Perm
        (Memory.get_events ℕ (state_of ℕ (memory_store ℕ) operations) "run")
        (log_of ℕ operations "run")
get_events-IsSorted_example = get_events-IsSorted ℕ operations "run"

-- `{A}` for the first event and `{B}` for the second.
abbrev text_of : ℕ → List ℕ
text_of n = b'{' ∷ (64 + n) ∷ b'}' ∷ []

abbrev read : List ℕ → Result (Event ℕ)
read [] = err (value_error "empty")
read (c ∷ []) = err (value_error "short")
read (c ∷ (d ∷ rest)) = if d == 65 then ok early else ok late

abbrev codec : Codec ℕ
codec = record { encode = λ e. text_of e.payload; decode = read }

early-IsEncoded : IsEncoded ℕ codec early
early-IsEncoded = record {
  body = 65 ∷ [];
  text = refl;
  one_line = (refl, (refl, (refl, tt)));
  round = refl;
}

late-IsEncoded : IsEncoded ℕ codec late
late-IsEncoded = record {
  body = 66 ∷ [];
  text = refl;
  one_line = (refl, (refl, (refl, tt)));
  round = refl;
}

file_answers_as_memory_example :
    (File.get_events ℕ codec (state_of ℕ (file_store ℕ codec) operations) "run"
      ≡ ok (Memory.get_events ℕ (state_of ℕ (memory_store ℕ) operations) "run"))
    × (File.get_events_by_type ℕ codec
          (state_of ℕ (file_store ℕ codec) operations)
          "run"
          "ROUND_RESOLVED"
        ≡ ok (
            Memory.get_events_by_type ℕ
              (state_of ℕ (memory_store ℕ) operations)
              "run"
              "ROUND_RESOLVED"))
    × (File.count ℕ codec (state_of ℕ (file_store ℕ codec) operations) "run"
        ≡ Memory.count ℕ (state_of ℕ (memory_store ℕ) operations) "run")
file_answers_as_memory_example =
    file_answers_as_memory ℕ codec operations "run" "ROUND_RESOLVED"
      (early-IsEncoded, (late-IsEncoded, (tt, (early-IsEncoded, tt))))

-- A run that starts, and ends.
abbrev run_dir : String → Option ℕ → RunDir
run_dir status completed_at = record {
  meta = some (record {
    run_id = "r";
    query = "q";
    status = status;
    created_at = 1;
    completed_at = completed_at;
    error = none;
  });
  report = none;
}

abbrev store : String → Option ℕ → RunStore
store status completed_at = ("r", run_dir status completed_at) ∷ []

abbrev done : RunMeta
done = record {
  run_id = "r";
  query = "q";
  status = "completed";
  created_at = 1;
  completed_at = some 3;
  error = none;
}

store-IsStore : (status : String) (completed_at : Option ℕ) → IsStore (store status completed_at)
unfolding knows
store-IsStore status completed_at = record { unique = (refl, tt); named = (refl, tt) }

finishes :
    update_status "r" "completed" none none 3 (store "running" none)
    ≡ ok (store "completed" (some 3))
unfolding update_status set_status read_meta write_meta write_report is_allowed get set_item knows
finishes = refl

update_status-Moves_example :
    (m : RunMeta) × (m' : RunMeta) × (get_run "r" (store "running" none) ≡ some m)
    × (get_run "r" (store "completed" (some 3)) ≡ some m')
    × Moves m.status m'.status
    × (m'.status ≡ "completed")
    × (m'.run_id ≡ m.run_id)
    × (m'.query ≡ m.query)
    × (m'.created_at ≡ m.created_at)
update_status-Moves_example =
    update_status-Moves "r" "completed" none none 3 (store "running" none)
      (store "completed" (some 3)) finishes

-- Nothing overlaps.
abbrev service : String → Option ℕ → Service
service status completed_at = idle (store status completed_at) []

service-IsService :
    (status : String) (completed_at : Option ℕ) → IsService (service status completed_at)
service-IsService status completed_at = record {
  store = store-IsStore status completed_at;
  held = tt;
}

history : History (service "running" none) (service "completed" (some 3))
history =
    update_status-History "r" "completed" none none 3 (store "running" none)
      (store "completed" (some 3)) [] finishes

History-IsService_example : IsService (service "completed" (some 3))
History-IsService_example =
    History-IsService (service "running" none) (service "completed" (some 3))
      (service-IsService "running" none) history

known : get_run "r" (store "completed" (some 3)) ≡ some done
unfolding get_run get
known = refl

final : is_final done.status ≡ true
unfolding knows
final = refl

ended : HasEnded "r" done (service "completed" (some 3))
unfolding any
ended = record { found = known; is_over = final; none_stale = refl; not_held = refl }

reconciled :
    reconcile_stale_runs 5 (store "completed" (some 3)) ≡ ok (store "completed" (some 3), 0)
unfolding reconcile_stale_runs reconcile list_runs is_inflight sorted insert_sorted
reconciled = refl

abbrev later_service : Service
later_service = idle (store "completed" (some 3)) []

later : History (service "completed" (some 3)) later_service
later =
    reconcile_stale_runs-History 5 (store "completed" (some 3)) (store "completed" (some 3)) 0
      (store-IsStore "completed" (some 3)) reconciled

History-HasEnded_example : HasEnded "r" done later_service
History-HasEnded_example =
    History-HasEnded "r" done (service "completed" (some 3)) later_service
      (service-IsService "completed" (some 3)) ended later

-- A reconciliation lists the run, the run is completed, and the reconciliation writes what it has
-- listed: the run has failed.
abbrev running : RunMeta
running = record done { status = "running"; completed_at = none }

listed : read_meta "r" (store "running" none) ≡ ok running
unfolding read_meta get
listed = refl

abbrev overwritten : RunStore
overwritten = ("r", record { meta = some (interrupted 5 running); report = none }) ∷ []

overwrites : write_meta "r" (interrupted 5 running) (store "completed" (some 3)) ≡ ok overwritten
unfolding write_meta get set_item
overwrites = refl

is_running : is_inflight running ≡ true
unfolding is_inflight
is_running = refl

completed_then_failed :
    History
      (idle (store "running" none) (running ∷ []))
      (idle (store "completed" (some 3)) (running ∷ []))
    × History (idle (store "completed" (some 3)) (running ∷ [])) (idle overwritten (running ∷ []))
completed_then_failed = (
  update_status-History "r" "completed" none none 3 (store "running" none)
      (store "completed" (some 3)) (running ∷ []) finishes,
  goes_on begins (reconcile_writes 5 [] running [] is_running overwrites),
)

lists : History (service "running" none) (idle (store "running" none) (running ∷ []))
lists = goes_on begins (reconcile_reads "r" listed)

reconcile_stale_runs_complete_example :
    (s' : RunStore) × (count : ℕ) × (reconcile_stale_runs 5 (store "running" none) ≡ ok (s', count))
    × (count ≡ inflight_run_count (store "running" none))
    × (inflight_run_count s' ≡ 0)
reconcile_stale_runs_complete_example =
    reconcile_stale_runs_complete 5 (store "running" none) (store-IsStore "running" none)

created : create_run "q" (some (pos 2)) "r" 1 [] ≡ ok (store "pending" none)
unfolding create_run write_meta inflight_run_count list_runs get set_item select sorted
created = refl

create_run-limit_example :
    (inflight_run_count (store "pending" none) ≡ suc (inflight_run_count []))
    × (pos (inflight_run_count (store "pending" none)) ≤ℤ pos 2)
create_run-limit_example = create_run-limit "q" "r" 1 (pos 2) [] (store "pending" none) created
