-- ===== src/Reporting/Facts.antt =====
-- What the evidence builder leaves in the store: the records that were there, and one per draft.
use mathlib.Core.Path.{◌≡◌, refl, ap, ◌∙◌}
use mathlib.Core.Bool.{false}
use mathlib.Core.Option.{some}
use mathlib.Core.List.{List, [], ◌∷◌}
use native.Mathlib.Omega.{arith}
use text.Mathlib.Text.{◌==◌}
use text.Mathlib.TextEquality.{eq_iff}
use younggeul.Prelude.{ℕ, suc, ◌+◌, ◌≤◌, String, get, has, length, length-append, All, is_some}
use younggeul.Errors.{OnOk, bind-OnOk, OnOk_mono, OnOk-both, IsOk, bind-IsOk}
use younggeul.Floats.{FloatOps}
use younggeul.Events.{EventStore}
use younggeul.Simulation.{Payload}
use younggeul.Evidence.{EvidenceRecord, EvidenceStore, add}
use younggeul.Evidence.Store.{IsWellFormed, IsAdded, add-IsAdded, add-IsWellFormed}
use younggeul.Reporting.{Fact}
use younggeul.Reporting.Build.{Draft, recorded, Building, build_each}

module _ {P : Type 0} where
  -- What is found in the first store is found in the second.
  abbrev pub Keeps : EvidenceStore P → EvidenceStore P → Type 0
  Keeps s s' = (id : String) (r : EvidenceRecord P) → get s id ≡ some r → get s' id ≡ some r

  pub added-Keeps :
      (s s' : EvidenceStore P) (r : EvidenceRecord P)
      → IsAdded s r s'
      → Keeps s s' × (get s' r.evidence_id ≡ some r)
  added-Keeps s s' r a = (
    λ id q h. ground (arith, a.is_new, a.found id, h, eq_iff r.evidence_id id),
    ground (arith, a.found r.evidence_id, eq_iff r.evidence_id r.evidence_id),
  )

  add-IsOk :
      (s : EvidenceStore P) (r : EvidenceRecord P) → has s r.evidence_id ≡ false → IsOk (add s r)
  unfolding add
  add-IsOk s r h = rw h tt

module _ (F : FloatOps) where
  -- The store has a record of the draft, under its id.
  abbrev pub IsPresent : EvidenceStore (Fact F) → Draft F → Type 0
  IsPresent s d = (id : String) × (now : ℕ) × (get s id ≡ some (recorded F d id now))

module _ (F : FloatOps) (store : EventStore (Payload F)) (env : ℕ → String × ℕ) where
  pub record IsBuilt (ds : List (Draft F)) (b b' : Building F store env) : Type 0 where
    pub well_formed : IsWellFormed b'.evidence
    pub keeps : Keeps b.evidence b'.evidence
    pub present : All (IsPresent F b'.evidence) ds
    pub ids : length b'.evidence_ids ≡ length b.evidence_ids + length ds

  -- Over a well-formed store, where the builder's loop returns, the store is well-formed, every record
  -- is found as before, every draft has a record under its id, and one id is noted per draft.
  pub build_each-IsBuilt :
      (now : ℕ) (ds : List (Draft F)) (b : Building F store env)
      → IsWellFormed b.evidence
      → OnOk (IsBuilt ds b) (build_each F store env now ds b)
  unfolding build_each
  build_each-IsBuilt now [] b w = record {
    well_formed = w;
    keeps = λ id r h. h;
    present = tt;
    ids = omega arith;
  }
  build_each-IsBuilt now (d ∷ ds) b w =
      let r = recorded F d (env b.ticks).0 now in
      bind-OnOk (λ e. IsAdded b.evidence r e × IsWellFormed e) (IsBuilt (d ∷ ds) b) _ _
        (OnOk-both (IsAdded b.evidence r) IsWellFormed _ (add-IsAdded b.evidence r)
          (add-IsWellFormed b.evidence r w))
        (λ e a.
          let grown = added-Keeps b.evidence e r a.0 in
          OnOk_mono _ (IsBuilt (d ∷ ds) b) _
            (λ b' i. record {
              well_formed = i.well_formed;
              keeps = λ id q h. i.keeps id q (grown.0 id q h);
              present = (((env b.ticks).0, now, i.keeps _ r grown.1), i.present);
              ids = omega (arith, i.ids, length-append b.evidence_ids ((env b.ticks).0 ∷ []));
            })
            (build_each-IsBuilt now ds _ a.1))

  -- Fresh ids: no two are the same, and the store has none of those from the n-th on.
  pub record IsFresh (s : EvidenceStore (Fact F)) (n : ℕ) : Type 0 where
    pub distinct : (i j : ℕ) → (env i).0 ≡ (env j).0 → i ≡ j
    pub unused : (i : ℕ) → n ≤ i → has s (env i).0 ≡ false

  added-IsFresh :
      (s s' : EvidenceStore (Fact F)) (n : ℕ) (r : EvidenceRecord (Fact F))
      → r.evidence_id ≡ (env n).0
      → IsFresh s n
      → IsAdded s r s'
      → IsFresh s' (suc n)
  added-IsFresh s s' n r e f a = record {
    distinct = f.distinct;
    unused = λ i h.
        let apart : (r.evidence_id == (env i).0) ≡ false =
          ground (arith, eq_iff r.evidence_id (env i).0, f.distinct n i, e, h) in
        ap is_some (a.found (env i).0) ∙ rw apart (f.unused i (omega (arith, h)));
  }

  pub build_each-IsOk :
      (now : ℕ) (ds : List (Draft F)) (b : Building F store env)
      → IsFresh b.evidence b.ticks
      → IsOk (build_each F store env now ds b)
  unfolding build_each
  build_each-IsOk now [] b f = tt
  build_each-IsOk now (d ∷ ds) b f =
      let r = recorded F d (env b.ticks).0 now in
      bind-IsOk (IsAdded b.evidence r) _ _ (add-IsOk b.evidence r (f.unused b.ticks (omega arith)))
        (add-IsAdded b.evidence r)
        (λ e a. build_each-IsOk now ds _ (added-IsFresh b.evidence e b.ticks r refl f a))
