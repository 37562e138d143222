-- ===== src/Snapshot/Immutable.antt =====
-- snapshot.py of the application: a snapshot that is there is never changed.
use mathlib.Core.Path.{◌≡◌}
use mathlib.Core.Logic.{inl, inr}
use mathlib.Core.Option.{none, some}
use mathlib.Core.List.{List}
use native.Mathlib.Omega.{arith}
use text.Mathlib.TextEquality.{eq_iff}
use younggeul.Prelude.{ℕ, String, get, set_item, get-set_item, Option-cases}
use younggeul.Errors.{OnOk, OnOk_mono, bind-OnOk, OnOk-any}
use younggeul.Floats.{FloatOps}
use younggeul.State.{SnapshotRef, snapshot_ref}
use younggeul.Snapshot.{snapshot_table_entry, snapshot_manifest}
use younggeul.Snapshot.Publish.{
  SnapshotDir, Base, Codec, Row, content_of, snapshot_id_of, new_entry, new_manifest,
  publish_snapshot, resolve_existing_snapshot,
}

module _ (F : FloatOps) (C : Codec F) where
  abbrev Keeps : Base → Base × SnapshotRef → Type 0
  Keeps base q = (id : String) (dir : SnapshotDir) → get base id ≡ some dir → get q.0 id ≡ some dir

  new-Keeps :
      (base : Base) (id : String) (made : SnapshotDir) (ref : SnapshotRef)
      → get base id ≡ none
      → Keeps base (set_item base id made, ref)
  new-Keeps base id made ref absent k dir h =
      ground (arith, get-set_item base id k made, eq_iff id k, absent, h)

  published-Keeps :
      (base : Base) (rows : List (Row F C)) (now : ℕ)
      → OnOk (Keeps base) (publish_snapshot F C base rows now)
  unfolding publish_snapshot
  published-Keeps base rows now =
      let content = content_of F C rows in
      let id = snapshot_id_of F C content in
      let P = Keeps base in
      elim (Option-cases (get base id)) [
        | inl absent ↦ rw absent (
            bind-OnOk (λ _. Unit) P (snapshot_table_entry (new_entry F C content _)) _ (OnOk-any _)
              λ entry _.
                bind-OnOk (λ _. Unit) P (snapshot_manifest (new_manifest F C id now entry)) _
                  (OnOk-any _)
                  λ manifest _.
                    bind-OnOk (λ _. Unit) P (snapshot_ref _) _ (OnOk-any _)
                      λ ref _. new-Keeps base id _ ref absent)
        | inr (dir, there) ↦ rw there (
            bind-OnOk (λ _. Unit) P (resolve_existing_snapshot F C dir content) _ (OnOk-any _)
              (λ ref _ k d h. h))
      ]

  -- A snapshot that is there before anything is published is there afterwards, with the same files.
  pub publish_snapshot-keeps :
      (base : Base) (rows : List (Row F C)) (now : ℕ) (id : String) (dir : SnapshotDir)
      → get base id ≡ some dir
      → OnOk (λ q. get q.0 id ≡ some dir) (publish_snapshot F C base rows now)
  publish_snapshot-keeps base rows now id dir h =
      OnOk_mono (Keeps base) _ (publish_snapshot F C base rows now) (λ q k. k id dir h)
        (published-Keeps base rows now)
