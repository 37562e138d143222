-- ===== src/RunStore.antt =====
-- web/run_store.py: the runs of the web service, a directory for each, by its name, with the
-- metadata and the report. The JSON text of the metadata is read back as it was written. The fresh
-- id and the current time are arguments. `create_run` and `update_status` hold the lock, and
-- `reconcile_stale_runs` does not: the functions are the calls that nothing overlaps, and History
-- has the calls in overlapping steps.
pub mod Status
pub mod Update
pub mod History
pub mod Ended
pub mod Calls
pub mod Capacity
pub mod Reconcile
use mathlib.Core.Bool.{Bool, true, false}
use mathlib.Core.Option.{Option, none, some}
use mathlib.Core.List.{List, [], ◌∷◌}
use text.Mathlib.Text.{◌==◌}
use younggeul.Prelude.{
  ℕ, suc, leb, ℤ, pos, ltb_ℤ, not, String, Dict, get, has, set_item, values, knows, length, select,
  sorted, if◌then◌else◌,
}
use younggeul.Errors.{
  Result, ok, err, ◌>>=◌, ◌>>◌, require, guard, value_error, file_exists_error,
  file_not_found_error, run_capacity_exceeded_error,
}

pub record RunMeta : Type 0 where
  pub run_id : String
  pub query : String
  pub status : String
  pub created_at : ℕ
  pub completed_at : Option ℕ
  pub error : Option String

-- A run's directory: `meta.json` and `report.md`.
pub record RunDir : Type 0 where
  pub meta : Option RunMeta
  pub report : Option String

abbrev pub RunStore : Type 0
RunStore = Dict RunDir

-- `_VALID_TRANSITIONS`
abbrev pub valid_transitions : Dict (List String)
valid_transitions =
    ("pending", "running" ∷ "failed" ∷ []) ∷ ("running", "completed" ∷ "failed" ∷ []) ∷ []

-- `status in _INFLIGHT_STATUSES`
unfoldable pub is_inflight : RunMeta → Bool
is_inflight m = if m.status == "pending" then true else m.status == "running"

-- `allowed is not None and target in allowed`
abbrev pub allows : Option (List String) → String → Bool
allows none target = false
allows (some allowed) target = knows allowed target

unfoldable pub is_allowed : String → String → Bool
is_allowed current target = allows (get valid_transitions current) target

-- `_write_meta`: the directory has to be there.
unfoldable pub write_meta : String → RunMeta → RunStore → Result RunStore
write_meta run_id m s = do
  d ← require (get s run_id) (file_not_found_error run_id)
  ok (set_item s run_id (record d { meta = some m }))

-- `_read_meta`
unfoldable pub read_meta : String → RunStore → Result RunMeta
read_meta run_id s = do
  d ← require (get s run_id) (file_not_found_error run_id)
  require d.meta (file_not_found_error run_id)

abbrev pub meta_of : Option RunDir → Option RunMeta
meta_of none = none
meta_of (some d) = d.meta

unfoldable pub get_run : String → RunStore → Option RunMeta
get_run run_id s = meta_of (get s run_id)

-- The directories that have a `meta.json`.
abbrev pub with_meta : Option RunMeta → List RunMeta → List RunMeta
with_meta none ms = ms
with_meta (some m) ms = m ∷ ms

abbrev pub metas : List RunDir → List RunMeta
metas [] = []
metas (d ∷ ds) = with_meta d.meta (metas ds)

-- The latest first.
abbrev pub later : RunMeta → RunMeta → Bool
later a b = leb b.created_at a.created_at

unfoldable pub list_runs : RunStore → List RunMeta
list_runs s = sorted later (metas (values s))

unfoldable pub inflight_run_count : RunStore → ℕ
unfolding list_runs
inflight_run_count s = length (select is_inflight (list_runs s))

-- `max_inflight_runs is not None and self._inflight_run_count() >= max_inflight_runs`
abbrev pub is_full : Option ℤ → ℕ → Bool
is_full none count = false
is_full (some limit) count = not (ltb_ℤ (pos count) limit)

unfoldable pub create_run : String → Option ℤ → String → ℕ → RunStore → Result RunStore
unfolding write_meta inflight_run_count
create_run query max_inflight_runs run_id now s =
    if is_full max_inflight_runs (inflight_run_count s)
    then err run_capacity_exceeded_error
    else if has s run_id
    then err (file_exists_error run_id)
    else write_meta run_id
        (record {
          run_id = run_id;
          query = query;
          status = "pending";
          created_at = now;
          completed_at = none;
          error = none;
        })
        (set_item s run_id (record { meta = none; report = none }))

-- `if report is not None: …`
unfoldable pub write_report : String → Option String → RunStore → Result RunStore
write_report run_id none s = ok s
write_report run_id (some report) s = do
  d ← require (get s run_id) (file_not_found_error run_id)
  ok (set_item s run_id (record d { report = some report }))

-- `if status in {"completed", "failed"}: …`
abbrev pub is_final : String → Bool
is_final status = knows ("completed" ∷ "failed" ∷ []) status

-- `update_status` after it has read the metadata.
unfoldable pub set_status :
    String → String → Option String → Option String → ℕ → RunMeta → RunStore → Result RunStore
unfolding write_meta is_allowed write_report
set_status run_id status error report now m s = do
  guard (is_allowed m.status status) (value_error "Invalid state transition")
  s' ←
      write_meta run_id
        (record m {
          status = status;
          error = error;
          completed_at = if is_final status then some now else m.completed_at;
        })
        s
  write_report run_id report s'

unfoldable pub update_status :
    String → String → Option String → Option String → ℕ → RunStore → Result RunStore
unfolding read_meta set_status
update_status run_id status error report now s = do
  m ← read_meta run_id s
  set_status run_id status error report now m s

abbrev pub interrupted : ℕ → RunMeta → RunMeta
interrupted now run = record run {
  status = "failed";
  error = some "interrupted by restart";
  completed_at = some now;
}

-- The loop over the listed runs, with the count.
unfoldable pub reconcile : ℕ → List RunMeta → RunStore × ℕ → Result (RunStore × ℕ)
unfolding write_meta
reconcile now [] acc = ok acc
reconcile now (run ∷ rest) (s, count) =
    if is_inflight run
    then write_meta run.run_id (interrupted now run) s
      >>= (λ s'. reconcile now rest (s', suc count))
    else reconcile now rest (s, count)

unfoldable pub reconcile_stale_runs : ℕ → RunStore → Result (RunStore × ℕ)
unfolding reconcile list_runs
reconcile_stale_runs now s = reconcile now (list_runs s) (s, 0)
