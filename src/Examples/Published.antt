-- ===== src/Examples/Published.antt =====
-- The theorems on snapshots, applied to one row, a constant digest and a JSON of one field.
use mathlib.Core.Path.{◌≡◌, refl}
use mathlib.Core.Bool.{true}
use mathlib.Core.Option.{none, some}
use mathlib.Core.List.{List, [], ◌∷◌}
use younggeul.Prelude.{pos, String, get, sorted, insert_sorted, length, all, All}
use younggeul.Errors.{ok, OnOk, Returns}
use younggeul.Snapshot.{jsonl, SnapshotManifest, is_sha256_hex, compute_snapshot_id}
use younggeul.Snapshot.Publish.{
  SnapshotDir, Base, Codec, Row, content_of, sorted_gold_rows, publish_snapshot, resolve_snapshot,
  latest_of,
}
use younggeul.Snapshot.Resolve.{
  IsPrinted, IsReadBack, resolve_snapshot-publish_snapshot, publish_snapshot-again,
}
use younggeul.Snapshot.Immutable.{publish_snapshot-keeps}
use younggeul.Snapshot.Latest.{IsNotOlderDir, latest_of-IsNotOlder}
use younggeul.Gold.{GoldDistrictMonthlyMetrics}
use younggeul.Examples.Fixed.{fixed}

abbrev zeros : String
zeros = "0000000000000000000000000000000000000000000000000000000000000000"

abbrev pub row : GoldDistrictMonthlyMetrics fixed
row = record {
  gu_code = "11680";
  gu_name = "Gangnam";
  period = "2026-01";
  sale_count = pos 3;
  avg_price = pos 100;
  median_price = pos 90;
  min_price = pos 80;
  max_price = pos 120;
  price_per_pyeong_avg = pos 5;
  yoy_price_change = none;
  mom_price_change = none;
  yoy_volume_change = none;
  mom_volume_change = none;
  avg_area_m2 = none;
  base_interest_rate = none;
  net_migration = none;
  dataset_snapshot_id = none;
}

abbrev manifest : SnapshotManifest
manifest = record {
  dataset_snapshot_id = zeros;
  created_at = 5;
  description = none;
  table_entries =
      record {
        table_name = "gold_district_monthly_metrics";
        table_hash = zeros;
        record_count = 1;
        schema_version = "1.0.0";
        source_uri = none;
        file_format = jsonl;
      }
      ∷ [];
  source_ids = [];
  ingestion_started_at = none;
  ingestion_completed_at = none;
}

abbrev codec : Codec fixed
codec = record {
  sha256 = λ _. zeros;
  print_row = λ r. r.gu_code;
  parse_row = λ _. ok row;
  print_manifest = λ m. m.dataset_snapshot_id;
  parse_manifest = λ _. some manifest;
}

hex : (t : String) → is_sha256_hex (codec.sha256 t) ≡ true
unfolding is_sha256_hex all
hex t = refl

abbrev pub rows : List (Row fixed codec)
rows = row ∷ []

rows-IsPrinted : All (IsPrinted fixed codec hex) rows
unfolding all
rows-IsPrinted = ((refl, refl), tt)

read_back :
    IsReadBack fixed codec hex
      (content_of fixed codec rows)
      (length (sorted_gold_rows fixed codec rows))
      5
unfolding sorted_gold_rows sorted insert_sorted compute_snapshot_id
read_back = refl

resolve_snapshot-publish_snapshot_example :
    Returns
      (λ q.
        Returns
          (λ r.
            (r.1 ≡ sorted_gold_rows fixed codec rows)
            × (r.0.dataset_snapshot_id ≡ q.1.dataset_snapshot_id)
            × (r.0.created_at ≡ q.1.created_at))
          (resolve_snapshot fixed codec q.1.dataset_snapshot_id q.0))
      (publish_snapshot fixed codec [] rows 5)
unfolding get
resolve_snapshot-publish_snapshot_example =
    resolve_snapshot-publish_snapshot fixed codec hex [] rows 5 rows-IsPrinted read_back refl

publish_snapshot-again_example :
    OnOk
      (λ q. publish_snapshot fixed codec q.0 rows 9 ≡ ok q)
      (publish_snapshot fixed codec [] rows 5)
publish_snapshot-again_example = publish_snapshot-again fixed codec hex [] rows 5 9 read_back

abbrev old_dir : SnapshotDir
old_dir = record { table = some "old"; manifest = some "old" }

abbrev base : Base
base = ("old", old_dir) ∷ []

publish_snapshot-keeps_example :
    OnOk (λ q. get q.0 "old" ≡ some old_dir) (publish_snapshot fixed codec base rows 5)
unfolding get
publish_snapshot-keeps_example = publish_snapshot-keeps fixed codec base rows 5 "old" old_dir refl

latest_of-IsNotOlder_example :
    OnOk (λ q. All (IsNotOlderDir fixed codec q) base) (latest_of fixed codec base none)
latest_of-IsNotOlder_example = latest_of-IsNotOlder fixed codec base
