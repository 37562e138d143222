-- ===== src/RunStore/History.antt =====
-- The store over its history: the calls of the web service, in overlapping steps. The lock keeps
-- `create_run` and `update_status` apart; an update reads, and writes later. A reconciliation takes
-- no lock: it reads one run after the other, and writes what it has read at any later time. A write
-- is the rename that ends it; two writers on the temporary file of one run are left out.
use mathlib.Core.Path.{◌≡◌, refl, ◌∙◌}
use mathlib.Core.Bool.{true}
use mathlib.Core.Option.{Option, none, some}
use mathlib.Core.List.{List, ◌∷◌, ◌++◌}
use text.Mathlib.TextEquality.{eq_iff}
use younggeul.Prelude.{ℕ, ℤ, String}
use younggeul.Errors.{ok, OnOk-ok}
use younggeul.RunStore.{
  RunMeta, RunStore, is_inflight, get_run, read_meta, write_meta, create_run, set_status,
  update_status, interrupted,
}
use younggeul.RunStore.Status.{Moves, is_allowed-Moves, IsStore, write_meta-Wrote, write-IsStore}
use younggeul.RunStore.Update.{
  updated, update_status-Updated, set_status-Set, read_meta-OnOk, named_as, create_run-Changed,
}

-- The store, what the reconciliations that run have read, and what the update that has the lock has
-- read, with the run's id.
pub record Service : Type 0 where
  pub store : RunStore
  pub listed : List RunMeta
  pub held : Option (String × RunMeta)

-- `reconcile_stale_runs` may write every run that it has read, more than once and in any order:
-- this allows for each order of `list_runs` and for any number of such calls. It leaves the runs
-- that it passes over, and those that it has written, at the latest when it ends.
-- A directory is seen once it has its metadata, so `create_run` is one step; without a limit it also
-- stands for a call whose count of the runs was taken while a reconciliation wrote.
pub data Step : Service → Service → Type 0 where
  creates :
      (query run_id : String) (limit : Option ℤ) (now : ℕ) {s s' : RunStore} {l : List RunMeta}
      → create_run query limit run_id now s ≡ ok s'
      → Step
          (record { store = s; listed = l; held = none })
          (record { store = s'; listed = l; held = none })
  update_reads :
      (run_id : String) {m : RunMeta} {s : RunStore} {l : List RunMeta}
      → read_meta run_id s ≡ ok m
      → Step
          (record { store = s; listed = l; held = none })
          (record { store = s; listed = l; held = some (run_id, m) })
  update_writes :
      (run_id status : String) (error report : Option String) (now : ℕ) {m : RunMeta}
      {s s' : RunStore} {l : List RunMeta}
      → set_status run_id status error report now m s ≡ ok s'
      → Step
          (record { store = s; listed = l; held = some (run_id, m) })
          (record { store = s'; listed = l; held = none })
  update_is_refused :
      {s : RunStore} {l : List RunMeta} {h : Option (String × RunMeta)}
      → Step
          (record { store = s; listed = l; held = h })
          (record { store = s; listed = l; held = none })
  reconcile_reads :
      (run_id : String) {m : RunMeta} {s : RunStore} {l : List RunMeta}
      {h : Option (String × RunMeta)}
      → read_meta run_id s ≡ ok m
      → Step
          (record { store = s; listed = l; held = h })
          (record { store = s; listed = m ∷ l; held = h })
  reconcile_writes :
      (now : ℕ) (before : List RunMeta) (m : RunMeta) (after : List RunMeta) {s s' : RunStore}
      {h : Option (String × RunMeta)}
      → is_inflight m ≡ true
      → write_meta m.run_id (interrupted now m) s ≡ ok s'
      → Step
          (record { store = s; listed = before ++ m ∷ after; held = h })
          (record { store = s'; listed = before ++ m ∷ after; held = h })
  reconcile_leaves :
      (before : List RunMeta) (m : RunMeta) (after : List RunMeta) {s : RunStore}
      {h : Option (String × RunMeta)}
      → Step
          (record { store = s; listed = before ++ m ∷ after; held = h })
          (record { store = s; listed = before ++ after; held = h })

-- `History v v'`: steps lead from `v` to `v'`.
pub data History (v : Service) : Service → Type 0 where
  begins : History v v
  goes_on : {v' v'' : Service} → History v v' → Step v' v'' → History v v''

-- With no call that overlaps, a status that `update_status` sets is one that the state machine moves
-- to, the run has that status then, and its id, its query and its time of creation are as before.
pub update_status-Moves :
    (run_id status : String) (error report : Option String) (now : ℕ) (s s' : RunStore)
    → update_status run_id status error report now s ≡ ok s'
    → (m : RunMeta) × (m' : RunMeta) × (get_run run_id s ≡ some m)
      × (get_run run_id s' ≡ some m')
      × Moves m.status m'.status
      × (m'.status ≡ status)
      × (m'.run_id ≡ m.run_id)
      × (m'.query ≡ m.query)
      × (m'.created_at ≡ m.created_at)
update_status-Moves run_id status error report now s s' e =
    let u = OnOk-ok _ _ (update_status-Updated run_id status error report now s) e in
    (
      u.old,
      updated u.old status error now,
      u.was,
      u.changed.gets run_id ∙ (rw ((eq_iff run_id run_id).1 refl) refl),
      is_allowed-Moves u.old.status status u.allowed,
      refl,
      refl,
      refl,
      refl,
    )

-- The store is named after its runs, and what an update holds belongs to the run that it is for.
abbrev IsHeld : Option (String × RunMeta) → Type 0
IsHeld none = Unit
IsHeld (some (run_id, m)) = m.run_id ≡ run_id

pub record IsService (v : Service) : Type 0 where
  pub store : IsStore v.store
  pub held : IsHeld v.held

pub read_meta-named :
    (run_id : String) (m : RunMeta) (s : RunStore)
    → IsStore s
    → read_meta run_id s ≡ ok m
    → (get_run run_id s ≡ some m) × (m.run_id ≡ run_id)
read_meta-named run_id m s v e =
    let found : get_run run_id s ≡ some m =
      OnOk-ok (λ m. get_run run_id s ≡ some m) (read_meta run_id s) (read_meta-OnOk run_id s) e in
    (found, named_as run_id s m v found)

Step-IsService : (v v' : Service) → Step v v' → IsService v → IsService v'
Step-IsService _ _ (creates query run_id limit now {s} e) w = record {
  store = (OnOk-ok _ _ (create_run-Changed query limit run_id now s) e).0.keeps refl w.store;
  held = tt;
}
Step-IsService _ _ (update_reads run_id {m} {s} e) w = record {
  store = w.store;
  held = (read_meta-named run_id m s w.store e).1;
}
Step-IsService _ _ (update_writes run_id status error report now {m} {s} e) w = record {
  store =
      (OnOk-ok _ _ (set_status-Set run_id status error report now m s) e).changed.keeps w.held
        w.store;
  held = tt;
}
Step-IsService _ _ update_is_refused w = record { store = w.store; held = tt }
Step-IsService _ _ (reconcile_reads run_id e) w = record { store = w.store; held = w.held }
Step-IsService _ _ (reconcile_leaves before m after) w = record { store = w.store; held = w.held }
Step-IsService _ _ (reconcile_writes now before m after {s} h e) w = record {
  store =
      write-IsStore (OnOk-ok _ _ (write_meta-Wrote m.run_id (interrupted now m) s) e) refl w.store;
  held = w.held;
}

-- If every directory is named after its run, the names are distinct, and the update that has the
-- lock has read the metadata of the run that it is for, this is so after any history of steps,
-- however the calls overlap.
pub History-IsService : (v v' : Service) → IsService v → History v v' → IsService v'
History-IsService v v' w begins = w
History-IsService v v'' w (goes_on {v'} h t) = Step-IsService v' v'' t (History-IsService v v' w h)
