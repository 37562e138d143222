-- ===== src/Snapshot/Publish.antt =====
-- snapshot.py of the application: snapshots below a directory, published and resolved. What JSON makes
-- of a row and of a manifest is a parameter, with the hash. A directory that another process makes
-- between the test and `mkdir` is left out.
use mathlib.Core.Bool.{Bool}
use mathlib.Core.Option.{Option, none, some}
use mathlib.Core.List.{List, [], ◌∷◌, map}
use text.Mathlib.Text.{◌==◌}
use younggeul.Prelude.{
  ℕ, pos, ltb, String, Dict, get, set_item, str_leb, sorted, length, if◌then◌else◌,
}
use younggeul.Errors.{Result, ok, ◌>>=◌, ◌>>◌, require, guard, value_error, file_not_found_error}
use younggeul.Floats.{FloatOps}
use younggeul.State.{SnapshotRef, snapshot_ref}
use younggeul.Gold.{GoldDistrictMonthlyMetrics}
use younggeul.Snapshot.{
  jsonl, SnapshotTableEntry, snapshot_table_entry, SnapshotManifest, snapshot_manifest, get_table,
  compute_snapshot_id, validate_integrity,
}
use younggeul.Snapshot.Lines.{splitlines, jsonl_bytes}

abbrev pub table_name : String
table_name = "gold_district_monthly_metrics"

-- The two files of a snapshot's directory.
pub record SnapshotDir : Type 0 where
  pub table : Option String
  pub manifest : Option String

abbrev pub Base : Type 0
Base = Dict SnapshotDir

-- SHA-256, and the JSON of a row and of a manifest with what reads it back.
pub record Codec (F : FloatOps) : Type 0 where
  pub sha256 : String → String
  pub print_row : GoldDistrictMonthlyMetrics F → String
  pub parse_row : String → Result (GoldDistrictMonthlyMetrics F)
  pub print_manifest : SnapshotManifest → String
  pub parse_manifest : String → Option SnapshotManifest

module _ (F : FloatOps) (C : Codec F) where
  abbrev pub Row : Type 0
  Row = GoldDistrictMonthlyMetrics F

  -- `(row.gu_code, row.period)`
  abbrev pub row_leb : Row → Row → Bool
  row_leb a b =
      if a.gu_code == b.gu_code then str_leb a.period b.period else str_leb a.gu_code b.gu_code

  unfoldable pub sorted_gold_rows : List Row → List Row
  sorted_gold_rows rows = sorted row_leb rows

  abbrev pub content_of : List Row → String
  content_of rows = jsonl_bytes (map C.print_row (sorted_gold_rows rows))

  abbrev pub snapshot_id_of : String → String
  snapshot_id_of content = compute_snapshot_id C.sha256 ((table_name, C.sha256 content) ∷ [])

  unfoldable pub load_manifest : SnapshotDir → Result SnapshotManifest
  unfolding validate_integrity
  load_manifest dir = do
    payload ← require dir.manifest (file_not_found_error "manifest.json")
    manifest ← require (C.parse_manifest payload) (value_error "Invalid manifest")
    guard (validate_integrity C.sha256 manifest) (value_error "Manifest integrity check failed")
    ok manifest

  unfoldable pub resolve_existing_snapshot : SnapshotDir → String → Result SnapshotRef
  unfolding load_manifest get_table snapshot_ref
  resolve_existing_snapshot dir content = do
    manifest ← load_manifest dir
    entry ← require (get_table manifest table_name) (value_error "Manifest missing table entry")
    existing ← require dir.table (file_not_found_error "gold_district_monthly_metrics.jsonl")
    guard (existing == content) (value_error "Snapshot already exists with different content")
    guard (C.sha256 existing == entry.table_hash)
        (value_error "Existing snapshot content failed integrity check")
    snapshot_ref (record {
      dataset_snapshot_id = manifest.dataset_snapshot_id;
      created_at = manifest.created_at;
      table_count = pos (length manifest.table_entries);
    })

  abbrev pub new_entry : String → ℕ → SnapshotTableEntry
  new_entry content n = record {
    table_name = table_name;
    table_hash = C.sha256 content;
    record_count = n;
    schema_version = "1.0.0";
    source_uri = none;
    file_format = jsonl;
  }

  abbrev pub new_manifest : String → ℕ → SnapshotTableEntry → SnapshotManifest
  new_manifest id created_at entry = record {
    dataset_snapshot_id = id;
    created_at = created_at;
    description = none;
    table_entries = entry ∷ [];
    source_ids = [];
    ingestion_started_at = none;
    ingestion_completed_at = none;
  }

  abbrev pub publish_in :
      Option SnapshotDir → Base → String → String → ℕ → ℕ → Result (Base × SnapshotRef)
  publish_in (some dir) base id content n now = do
    ref ← resolve_existing_snapshot dir content
    ok (base, ref)
  publish_in none base id content n now = do
    entry ← snapshot_table_entry (new_entry content n)
    manifest ← snapshot_manifest (new_manifest id now entry)
    ref ← snapshot_ref (record { dataset_snapshot_id = id; created_at = now; table_count = pos 1 })
    ok (
      set_item base id
          (record { table = some content; manifest = some (C.print_manifest manifest) }),
      ref,
    )

  -- The directory after the call, and the reference.
  unfoldable pub publish_snapshot : Base → List Row → ℕ → Result (Base × SnapshotRef)
  unfolding sorted_gold_rows resolve_existing_snapshot snapshot_table_entry snapshot_manifest
      snapshot_ref compute_snapshot_id
  publish_snapshot base rows now =
      let content = content_of rows in
      let id = snapshot_id_of content in
      publish_in (get base id) base id content (length (sorted_gold_rows rows)) now

  unfoldable pub parse_each : List String → Result (List Row)
  parse_each [] = ok []
  parse_each (line ∷ lines) = do row ← C.parse_row line; rows ← parse_each lines; ok (row ∷ rows)

  abbrev pub Found : Type 0
  Found = SnapshotManifest × SnapshotDir

  abbrev pub newer : Option Found → SnapshotManifest → SnapshotDir → Option Found
  newer none manifest dir = some (manifest, dir)
  newer (some (best, best_dir)) manifest dir =
      if ltb best.created_at manifest.created_at
      then some (manifest, dir)
      else some (best, best_dir)

  abbrev pub or_next :
      Option String → Result SnapshotManifest → Option Found → SnapshotDir → Result (Option Found)
  or_next none loaded best dir = ok best
  or_next (some payload) loaded best dir = do manifest ← loaded; ok (newer best manifest dir)

  -- The loop over the directories, over the newest manifest so far.
  unfoldable pub latest_of : Base → Option Found → Result (Option Found)
  unfolding load_manifest
  latest_of [] best = ok best
  latest_of ((name, dir) ∷ rest) best = do
    best' ← or_next dir.manifest (load_manifest dir) best dir
    latest_of rest best'

  unfoldable pub find_snapshot : String → Base → Result Found
  unfolding latest_of load_manifest
  find_snapshot id base =
      if id == "latest"
      then (do best ← latest_of base none; require best (file_not_found_error "No snapshots found"))
      else (do
        dir ← require (get base id) (file_not_found_error "Snapshot directory not found")
        manifest ← load_manifest dir
        ok (manifest, dir))

  unfoldable pub resolve_snapshot : String → Base → Result (SnapshotManifest × List Row)
  unfolding find_snapshot get_table parse_each splitlines
  resolve_snapshot id base = do
    found ← find_snapshot id base
    entry ← require (get_table found.0 table_name) (value_error "Manifest missing table entry")
    content ← require found.1.table (file_not_found_error "gold_district_monthly_metrics.jsonl")
    guard (C.sha256 content == entry.table_hash) (value_error "Table hash mismatch")
    rows ← parse_each (splitlines content)
    ok (found.0, rows)
