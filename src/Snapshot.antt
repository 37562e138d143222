-- ===== src/Snapshot.antt =====
-- core/src/younggeul_core/storage/snapshot.py: the manifest of a snapshot and its integrity. SHA-256
-- is a parameter, on texts that stand for their UTF-8 bytes.
pub mod Lines
pub mod Publish
pub mod Immutable
pub mod Resolve
pub mod Latest
use Prim.Native.String.{◌++◌ as ◌+++◌}
use mathlib.Core.Bool.{Bool, true, false, ◌&&◌, ◌||◌}
use mathlib.Core.Option.{Option, none, some}
use mathlib.Core.List.{List, [], ◌∷◌}
use text.Mathlib.Text.{◌==◌ as ◌=s=◌}
use younggeul.Prelude.{
  ℕ, ◌+◌, leb, ◌==◌, String, codes, Dict, set_item, str_leb, sorted, length, all, if◌then◌else◌,
}
use younggeul.Errors.{Result, ok, validation_error, guard, ◌>>◌}

abbrev pub is_lower_hex_digit : ℕ → Bool
is_lower_hex_digit c = (leb b'0' c && leb c b'9') || (leb b'a' c && leb c b'f')

-- `_SHA256_HEX_RE.fullmatch`
unfoldable pub is_sha256_hex : String → Bool
is_sha256_hex s = (length (codes s) == 64) && all is_lower_hex_digit (codes s)

pub data FileFormat : Type 0 where
  parquet csv jsonl : FileFormat

pub record SnapshotTableEntry : Type 0 where
  pub table_name : String
  pub table_hash : String
  pub record_count : ℕ
  pub schema_version : String
  pub source_uri : Option String
  pub file_format : FileFormat

unfoldable pub snapshot_table_entry : SnapshotTableEntry → Result SnapshotTableEntry
unfolding is_sha256_hex
snapshot_table_entry e = do guard (is_sha256_hex e.table_hash) (validation_error "table_hash"); ok e

pub record SnapshotManifest : Type 0 where
  pub dataset_snapshot_id : String
  pub created_at : ℕ
  pub description : Option String
  pub table_entries : List SnapshotTableEntry
  pub source_ids : List String
  pub ingestion_started_at : Option ℕ
  pub ingestion_completed_at : Option ℕ

unfoldable pub snapshot_manifest : SnapshotManifest → Result SnapshotManifest
unfolding is_sha256_hex
snapshot_manifest m = do
  guard (is_sha256_hex m.dataset_snapshot_id) (validation_error "dataset_snapshot_id")
  ok m

-- `{entry.table_name: entry.table_hash for entry in …}`, over the items so far
unfoldable pub hashes_of : List SnapshotTableEntry → Dict String → Dict String
hashes_of [] d = d
hashes_of (e ∷ es) d = hashes_of es (set_item d e.table_name e.table_hash)

unfoldable pub table_hashes : SnapshotManifest → Dict String
unfolding hashes_of
table_hashes m = hashes_of m.table_entries []

unfoldable pub counts_of : List SnapshotTableEntry → Dict ℕ → Dict ℕ
counts_of [] d = d
counts_of (e ∷ es) d = counts_of es (set_item d e.table_name e.record_count)

unfoldable pub record_counts : SnapshotManifest → Dict ℕ
unfolding counts_of
record_counts m = counts_of m.table_entries []

abbrev pub sum_of_counts : List SnapshotTableEntry → ℕ
sum_of_counts [] = 0
sum_of_counts (e ∷ es) = e.record_count + sum_of_counts es

unfoldable pub total_records : SnapshotManifest → ℕ
total_records m = sum_of_counts m.table_entries

unfoldable pub find_table : List SnapshotTableEntry → String → Option SnapshotTableEntry
find_table [] name = none
find_table (e ∷ es) name = if e.table_name =s= name then some e else find_table es name

unfoldable pub get_table : SnapshotManifest → String → Option SnapshotTableEntry
unfolding find_table
get_table m name = find_table m.table_entries name

abbrev pub joined_hashes : Dict String → String
joined_hashes [] = ""
joined_hashes ((name, hash) ∷ rest) = (name +++ (":" +++ hash)) +++ joined_hashes rest

module _ (sha256 : String → String) where
  unfoldable pub compute_snapshot_id : Dict String → String
  compute_snapshot_id hashes = sha256 (joined_hashes (sorted (λ a b. str_leb a.0 b.0) hashes))

  unfoldable pub validate_integrity : SnapshotManifest → Bool
  unfolding compute_snapshot_id table_hashes
  validate_integrity m = compute_snapshot_id (table_hashes m) =s= m.dataset_snapshot_id
