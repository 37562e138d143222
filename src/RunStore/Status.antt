-- ===== src/RunStore/Status.antt =====
-- The directories are named after their runs, and a run's status moves along the valid transitions.
use mathlib.Core.Path.{◌≡◌, refl, ◌∙◌, ap}
use mathlib.Core.Bool.{Bool, true, false}
use mathlib.Core.Logic.{◌⊎◌, inl, inr}
use mathlib.Core.Option.{Option, none, some}
use mathlib.Core.List.{[], ◌∷◌}
use native.Mathlib.Omega.{arith}
use text.Mathlib.Text.{◌==◌}
use text.Mathlib.TextEquality.{eq_iff}
use younggeul.Prelude.{
  String, get, set_item, get-set_item, keys, knows, AllItems, AllItems-set_item, IsUnique,
  set_item-IsUnique, Bool-cases, if◌then◌else◌,
}
use younggeul.Errors.{OnOk, bind-OnOk, require, require-OnOk, file_not_found_error}
use younggeul.RunStore.{RunMeta, RunDir, RunStore, is_allowed, write_meta, meta_of, get_run}

-- The state machine of a run.
pub data Moves : String → String → Type 0 where
  starts : Moves "pending" "running"
  is_dropped : Moves "pending" "failed"
  completes : Moves "running" "completed"
  fails : Moves "running" "failed"

-- A directory has the metadata of the run that it is named after.
abbrev pub IsNamed : String → RunDir → Type 0
IsNamed run_id d = elim d.meta [ none ↦ Unit | some m ↦ m.run_id ≡ run_id ]

pub record IsStore (s : RunStore) : Type 0 where
  pub unique : IsUnique (keys s)
  pub named : AllItems IsNamed s

-- What a write of metadata does.
pub record Wrote (run_id : String) (m : RunMeta) (s s' : RunStore) : Type 0 where
  pub dir : RunDir
  pub found : get s run_id ≡ some dir
  pub written : s' ≡ set_item s run_id (record dir { meta = some m })

pub write_meta-Wrote :
    (run_id : String) (m : RunMeta) (s : RunStore) → OnOk (Wrote run_id m s) (write_meta run_id m s)
unfolding write_meta
write_meta-Wrote run_id m s =
    bind-OnOk _ _ (require (get s run_id) (file_not_found_error run_id)) _ (require-OnOk _ _)
      (λ d found. record { dir = d; found = found; written = refl })

pub meta_of-if :
    (b : Bool) (o p : Option RunDir)
    → meta_of (if b then o else p) ≡ (if b then meta_of o else meta_of p)
meta_of-if true o p = refl
meta_of-if false o p = refl

module _ {run_id : String} {m : RunMeta} {s s' : RunStore} (w : Wrote run_id m s s') where
  pub write-IsStore : m.run_id ≡ run_id → IsStore s → IsStore s'
  write-IsStore e v = record {
    unique = rw w.written (set_item-IsUnique s run_id _ v.unique);
    named = rw w.written (AllItems-set_item IsNamed s run_id _ v.named e);
  }

  pub write-get : (j : String) → get_run j s' ≡ (if run_id == j then some m else get_run j s)
  unfolding get_run
  write-get j = rw w.written (
      ap meta_of (get-set_item s run_id j (record w.dir { meta = some m }))
      ∙ meta_of-if (run_id == j) (some (record w.dir { meta = some m })) (get s j))

-- `target in _VALID_TRANSITIONS[current]` is the state machine.
pub knows_two : (p q b : String) → knows (p ∷ q ∷ []) b ≡ true → (p ≡ b) ⊎ (q ≡ b)
unfolding knows
knows_two p q b h = elim (Bool-cases (p == b)) [
  | inl k ↦ inl ((eq_iff p b).0 k)
  | inr k ↦ elim (Bool-cases (q == b)) [
    | inl j ↦ inr ((eq_iff q b).0 j)
    | inr j ↦ absurd (ground arith)
  ]
]

pub is_allowed-Moves : (a b : String) → is_allowed a b ≡ true → Moves a b
unfolding is_allowed get
is_allowed-Moves a b h = elim (Bool-cases ("pending" == a)) [
  | inl k ↦ rw (← (eq_iff "pending" a).0 k) (elim (knows_two "running" "failed" b (rw k at h)) [
    | inl e ↦ rw (← e) starts
    | inr e ↦ rw (← e) is_dropped
  ])
  | inr k ↦ elim (Bool-cases ("running" == a)) [
    | inl j ↦
        rw (← (eq_iff "running" a).0 j) (elim (knows_two "completed" "failed" b (rw (k, j) at h)) [
          | inl e ↦ rw (← e) completes
          | inr e ↦ rw (← e) fails
        ])
    | inr j ↦ absurd (ground arith)
  ]
]
