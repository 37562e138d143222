-- ===== src/Snapshot/Resolve.antt =====
-- snapshot.py of the application: what is published is what is resolved, and publishing the same rows
-- again changes nothing.
use mathlib.Core.Path.{◌≡◌, refl, sym, ap, ◌∙◌}
use mathlib.Core.Bool.{Bool, true, false, ◌&&◌}
use mathlib.Core.Logic.{inl, inr}
use mathlib.Core.Option.{none, some}
use mathlib.Core.List.{List, [], ◌∷◌, map}
use native.Mathlib.Omega.{arith}
use text.Mathlib.Text.{◌==◌ as ◌=s=◌}
use text.Mathlib.TextEquality.{eq_iff}
use younggeul.Prelude.{
  ℕ, ◌==◌, pos, String, codes, get, set_item, get-set_item, length, all, All, All-sorted, All-map,
  All-mapped, Bool-cases, Option-cases,
}
use younggeul.Errors.{ok, OnOk, Returns, Result-cases}
use younggeul.Floats.{FloatOps}
use younggeul.State.{SnapshotRef, snapshot_ref, is_hex_digit}
use younggeul.Snapshot.{
  SnapshotManifest, is_lower_hex_digit, is_sha256_hex, snapshot_table_entry, snapshot_manifest,
  get_table, find_table, hashes_of, table_hashes, compute_snapshot_id, validate_integrity,
}
use younggeul.Snapshot.Lines.{splitlines, IsLine, splitlines-jsonl_bytes}
use younggeul.Snapshot.Publish.{
  SnapshotDir, Base, Codec, Row, row_leb, sorted_gold_rows, content_of, snapshot_id_of,
  load_manifest, resolve_existing_snapshot, new_entry, new_manifest, publish_in, publish_snapshot,
  parse_each, find_snapshot, resolve_snapshot,
}

same_text : (t : String) → (t =s= t) ≡ true
same_text t = (eq_iff t t).1 refl

refuted : false ≡ true → ⊥
refuted h = cc

lower-hex : (c : ℕ) → is_lower_hex_digit c ≡ true → is_hex_digit c ≡ true
unfolding is_hex_digit
lower-hex c h = ground arith

all-lower : (cs : List ℕ) → all is_lower_hex_digit cs ≡ true → all is_hex_digit cs ≡ true
unfolding all
all-lower [] h = refl
all-lower (c ∷ cs) h = elim (Bool-cases (is_lower_hex_digit c)) [
  | inl e ↦ rw (lower-hex c e) (all-lower cs (rw e at h))
  | inr e ↦ absurd (refuted (rw e at h))
]

and-left : (a b : Bool) → (a && b) ≡ true → a ≡ true
and-left true b h = refl
and-left false b h = h

and-right : (a b : Bool) → (a && b) ≡ true → b ≡ true
and-right true b h = h
and-right false b h = cc

snapshot_ref-ok :
    (r : SnapshotRef) → is_sha256_hex r.dataset_snapshot_id ≡ true → snapshot_ref r ≡ ok r
unfolding snapshot_ref is_sha256_hex
snapshot_ref-ok r h =
    let long = and-left _ (all is_lower_hex_digit (codes r.dataset_snapshot_id)) h in
    let digits = all-lower _ (and-right (length (codes r.dataset_snapshot_id) == 64) _ h) in
    rw (long, digits) refl

not_latest : (id : String) → is_sha256_hex id ≡ true → (id =s= "latest") ≡ false
unfolding is_sha256_hex all
not_latest id h = elim (Bool-cases (id =s= "latest")) [
  | inl e ↦ absurd (refuted (sym (ap is_sha256_hex ((eq_iff id "latest").0 e)) ∙ h))
  | inr e ↦ e
]

-- `hex` is what a SHA-256 digest looks like.
module _ (F : FloatOps) (C : Codec F) (hex : (t : String) → is_sha256_hex (C.sha256 t) ≡ true) where
  snapshot_id-hex : (content : String) → is_sha256_hex (snapshot_id_of F C content) ≡ true
  unfolding compute_snapshot_id
  snapshot_id-hex content = hex _

  -- What is written for a table of n rows.
  abbrev pub made_manifest : String → ℕ → ℕ → SnapshotManifest
  made_manifest content n now =
      new_manifest F C (snapshot_id_of F C content) now (new_entry F C content n)

  -- The manifest is read back as it was printed.
  abbrev pub IsReadBack : String → ℕ → ℕ → Type 0
  IsReadBack content n now =
      C.parse_manifest (C.print_manifest (made_manifest content n now))
      ≡ some (made_manifest content n now)

  abbrev made_dir : String → ℕ → ℕ → SnapshotDir
  made_dir content n now = record {
    table = some content;
    manifest = some (C.print_manifest (made_manifest content n now));
  }

  abbrev made_ref : String → ℕ → SnapshotRef
  made_ref content now = record {
    dataset_snapshot_id = snapshot_id_of F C content;
    created_at = now;
    table_count = pos 1;
  }

  published_new :
      (base : Base) (content : String) (n now : ℕ)
      → publish_in F C none base (snapshot_id_of F C content) content n now
        ≡ ok (
          set_item base (snapshot_id_of F C content) (made_dir content n now),
          made_ref content now,
        )
  unfolding snapshot_table_entry snapshot_manifest
  published_new base content n now =
      rw
        (
          hex content,
          snapshot_id-hex content,
          snapshot_ref-ok (made_ref content now) (snapshot_id-hex content),
        )
        refl

  made-loaded :
      (content : String) (n now : ℕ)
      → IsReadBack content n now
      → load_manifest F C (made_dir content n now) ≡ ok (made_manifest content n now)
  unfolding load_manifest validate_integrity table_hashes hashes_of set_item
  made-loaded content n now read = rw (read, same_text (snapshot_id_of F C content)) refl

  made-existing :
      (content : String) (n now : ℕ)
      → IsReadBack content n now
      → resolve_existing_snapshot F C (made_dir content n now) content ≡ ok (made_ref content now)
  unfolding resolve_existing_snapshot get_table find_table
  made-existing content n now read =
      rw (made-loaded content n now read, same_text content, same_text (C.sha256 content))
        (snapshot_ref-ok (made_ref content now) (snapshot_id-hex content))

  -- The JSON of the row is one line, and it is read back as the row.
  abbrev pub IsPrinted : Row F C → Type 0
  IsPrinted row = IsLine (C.print_row row) × (C.parse_row (C.print_row row) ≡ ok row)

  parse_each-rows :
      (rows : List (Row F C)) → All IsPrinted rows → parse_each F C (map C.print_row rows) ≡ ok rows
  unfolding parse_each
  parse_each-rows [] h = refl
  parse_each-rows (r ∷ rows) h = rw (h.0.1, parse_each-rows rows h.1) refl

  content-parsed :
      (rows : List (Row F C))
      → All IsPrinted rows
      → parse_each F C (splitlines (content_of F C rows)) ≡ ok (sorted_gold_rows F C rows)
  unfolding sorted_gold_rows
  content-parsed rows h =
      let ordered = sorted_gold_rows F C rows in
      let printed : All IsPrinted ordered = All-sorted (row_leb F C) IsPrinted rows h in
      let lines = splitlines-jsonl_bytes (map C.print_row ordered) (
        All-mapped C.print_row IsLine ordered (All-map IsPrinted _ ordered (λ r e. e.0) printed)) in
      ap (parse_each F C) lines ∙ parse_each-rows ordered printed

  resolved_new :
      (base : Base) (rows : List (Row F C)) (n now : ℕ)
      → All IsPrinted rows
      → IsReadBack (content_of F C rows) n now
      → resolve_snapshot F C (snapshot_id_of F C (content_of F C rows)) (
          set_item base
            (snapshot_id_of F C (content_of F C rows))
            (made_dir (content_of F C rows) n now))
        ≡ ok (made_manifest (content_of F C rows) n now, sorted_gold_rows F C rows)
  unfolding resolve_snapshot find_snapshot get_table find_table
  resolved_new base rows n now h read =
      let content = content_of F C rows in
      let id = snapshot_id_of F C content in
      let dir = made_dir content n now in
      let found : get (set_item base id dir) id ≡ some dir =
        get-set_item base id id dir ∙ rw (same_text id) refl in
      rw
        (
          not_latest id (snapshot_id-hex content),
          found,
          made-loaded content n now read,
          same_text (C.sha256 content),
          content-parsed rows h,
        )
        refl

  -- Where digests are lowercase hexadecimal, every row is printed on one line that is read back as the
  -- row, the new manifest is read back as it was printed, and the directory of the rows' snapshot is
  -- not there yet: the rows are published, and the snapshot of the reference that comes back is then
  -- resolved to the rows in order, with a manifest of the same id and time.
  pub resolve_snapshot-publish_snapshot :
      (base : Base) (rows : List (Row F C)) (now : ℕ)
      → All IsPrinted rows
      → IsReadBack (content_of F C rows) (length (sorted_gold_rows F C rows)) now
      → get base (snapshot_id_of F C (content_of F C rows)) ≡ none
      → Returns
          (λ q.
            Returns
              (λ r.
                (r.1 ≡ sorted_gold_rows F C rows)
                × (r.0.dataset_snapshot_id ≡ q.1.dataset_snapshot_id)
                × (r.0.created_at ≡ q.1.created_at))
              (resolve_snapshot F C q.1.dataset_snapshot_id q.0))
          (publish_snapshot F C base rows now)
  unfolding publish_snapshot
  resolve_snapshot-publish_snapshot base rows now h read absent =
      let content = content_of F C rows in
      let n = length (sorted_gold_rows F C rows) in
      rw (absent, published_new base content n now, resolved_new base rows n now h read)
        (refl, refl, refl)

  -- Where digests are lowercase hexadecimal and the manifest of the rows is read back as it is printed:
  -- publishing the same rows again, at whatever time, returns the same reference and leaves the
  -- directory as it is, whether the first call made the snapshot or found it.
  pub publish_snapshot-again :
      (base : Base) (rows : List (Row F C)) (now later : ℕ)
      → IsReadBack (content_of F C rows) (length (sorted_gold_rows F C rows)) now
      → OnOk (λ q. publish_snapshot F C q.0 rows later ≡ ok q) (publish_snapshot F C base rows now)
  unfolding publish_snapshot
  publish_snapshot-again base rows now later read =
      let content = content_of F C rows in
      let id = snapshot_id_of F C content in
      let n = length (sorted_gold_rows F C rows) in
      elim (Option-cases (get base id)) [
        | inl absent ↦
            let dir = made_dir content n now in
            let found : get (set_item base id dir) id ≡ some dir =
              get-set_item base id id dir ∙ rw (same_text id) refl in
            rw (absent, published_new base content n now, found, made-existing content n now read)
              refl
        | inr (dir, there) ↦ elim (Result-cases (resolve_existing_snapshot F C dir content)) [
          | inl (ref, e) ↦ rw (there, e) (rw (there, e) refl)
          | inr (raised, e) ↦ rw (there, e) tt
        ]
      ]
