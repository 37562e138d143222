-- ===== src/Snapshot/Latest.antt =====
-- snapshot.py of the application: the snapshot "latest" is the newest one.
use mathlib.Core.Path.{◌≡◌, refl, sym, subst}
use mathlib.Core.Logic.{inl, inr}
use mathlib.Core.Option.{Option, none, some}
use mathlib.Core.List.{[], ◌∷◌}
use native.Mathlib.Omega.{arith}
use younggeul.Prelude.{◌≤◌, ltb, String, All, some-eq, Bool-cases}
use younggeul.Errors.{Result, ok, err, OnOk, OnOk_mono, bind-OnOk}
use younggeul.Floats.{FloatOps}
use younggeul.Snapshot.{SnapshotManifest}
use younggeul.Snapshot.Publish.{
  SnapshotDir, Base, Codec, Found, newer, or_next, load_manifest, latest_of,
}

nothing : {A : Type 0} {a : A} → none ≡ some a → ⊥
nothing h = cc

module _ (F : FloatOps) (C : Codec F) where
  -- The best is there, and it is not older than the manifest.
  abbrev pub IsNotOlder : Option (Found F C) → SnapshotManifest → Type 0
  IsNotOlder best m = (f : Found F C) × (best ≡ some f) × (m.created_at ≤ f.0.created_at)

  -- It is not older than the manifest of the directory, if that has one.
  abbrev pub IsNotOlderDir : Option (Found F C) → String × SnapshotDir → Type 0
  IsNotOlderDir best e = OnOk (IsNotOlder best) (load_manifest F C e.1)

  newer-new :
      (best : Option (Found F C)) (m : SnapshotManifest) (dir : SnapshotDir)
      → IsNotOlder (newer F C best m dir) m
  newer-new none m dir = ((m, dir), refl, omega arith)
  newer-new (some (b, d)) m dir = elim (Bool-cases (ltb b.created_at m.created_at)) [
    | inl e ↦ rw e ((m, dir), refl, omega arith)
    | inr e ↦ let older : m.created_at ≤ b.created_at = ground arith in rw e ((b, d), refl, older)
  ]

  newer-old :
      (best : Option (Found F C)) (m : SnapshotManifest) (dir : SnapshotDir) (k : SnapshotManifest)
      → IsNotOlder best k
      → IsNotOlder (newer F C best m dir) k
  newer-old none m dir k h = absurd (nothing h.1)
  newer-old (some (b, d)) m dir k h =
      let same : k.created_at ≤ b.created_at =
        subst (λ (f : Found F C). k.created_at ≤ f.0.created_at) (sym (some-eq h.1)) h.2 in
      elim (Bool-cases (ltb b.created_at m.created_at)) [
        | inl e ↦
            let later : k.created_at ≤ m.created_at = ground (arith, same) in
            rw e ((m, dir), refl, later)
        | inr e ↦ rw e ((b, d), refl, same)
      ]

  abbrev IsStep : SnapshotDir → Option (Found F C) → Option (Found F C) → Type 0
  IsStep dir best b =
      IsNotOlderDir b ("", dir) × ((k : SnapshotManifest) → IsNotOlder best k → IsNotOlder b k)

  not_loaded :
      (dir : SnapshotDir) (best : Option (Found F C))
      → dir.manifest ≡ none
      → OnOk (IsNotOlder best) (load_manifest F C dir)
  unfolding load_manifest
  not_loaded dir best e = rw e tt

  step :
      (o : Option String) (loaded : Result SnapshotManifest) (dir : SnapshotDir)
      (best : Option (Found F C))
      → o ≡ dir.manifest
      → loaded ≡ load_manifest F C dir
      → OnOk (IsStep dir best) (or_next F C o loaded best dir)
  step none loaded dir best e l = (not_loaded dir best (sym e), λ k h. h)
  step (some payload) (err raised) dir best e l = tt
  step (some payload) (ok m) dir best e l = (
    subst (OnOk (IsNotOlder (newer F C best m dir))) l (newer-new best m dir),
    λ k h. newer-old best m dir k h,
  )

  newest_of :
      (base : Base) (best : Option (Found F C))
      → OnOk
          (λ q.
            All (IsNotOlderDir q) base
            × ((k : SnapshotManifest) → IsNotOlder best k → IsNotOlder q k))
          (latest_of F C base best)
  unfolding latest_of
  newest_of [] best = (tt, λ k h. h)
  newest_of ((name, dir) ∷ base) best =
      bind-OnOk (IsStep dir best)
        (λ q.
          All (IsNotOlderDir q) ((name, dir) ∷ base)
          × ((k : SnapshotManifest) → IsNotOlder best k → IsNotOlder q k))
        (or_next F C dir.manifest (load_manifest F C dir) best dir) _
        (step dir.manifest (load_manifest F C dir) dir best refl refl)
        (λ b h.
          OnOk_mono _ _ (latest_of F C base b)
            (λ q k. (
              (OnOk_mono _ _ (load_manifest F C dir) (λ m old. k.1 m old) h.0, k.0),
              λ m old. k.1 m (h.1 m old),
            ))
            (newest_of base b))

  -- Where the search for the latest snapshot returns, what it returns is not older than the manifest of
  -- any directory that has a manifest which can be loaded.
  pub latest_of-IsNotOlder :
      (base : Base) → OnOk (λ q. All (IsNotOlderDir q) base) (latest_of F C base none)
  latest_of-IsNotOlder base =
      OnOk_mono _ (λ q. All (IsNotOlderDir q) base) (latest_of F C base none) (λ q h. h.0)
        (newest_of base none)
