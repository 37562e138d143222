-- ===== src/RunStore/Update.antt =====
-- What `update_status` and `create_run` do, and that they keep the directories named.
use mathlib.Core.Path.{◌≡◌, refl, sym, ◌∙◌, ap}
use mathlib.Core.Bool.{true, false}
use mathlib.Core.Logic.{inl, inr}
use mathlib.Core.Option.{Option, none, some}
use native.Mathlib.Omega.{arith}
use text.Mathlib.Text.{◌==◌}
use text.Mathlib.TextEquality.{eq_iff}
use younggeul.Prelude.{
  ℕ, ℤ, String, get, has, set_item, get-set_item, AllItems-get, AllItems-set_item,
  set_item-IsUnique, Bool-cases, Option-cases, if◌then◌else◌,
}
use younggeul.Errors.{
  OnOk, OnOk_mono, bind-OnOk, require, require-OnOk, guard, guard-OnOk, file_not_found_error,
  if-OnOk,
}
use younggeul.RunStore.{
  RunMeta, RunDir, RunStore, is_allowed, is_full, inflight_run_count, is_final, write_meta,
  read_meta, meta_of, get_run, write_report, set_status, update_status, create_run,
}
use younggeul.RunStore.Status.{IsNamed, IsStore, Wrote, write_meta-Wrote, write-IsStore, write-get}

-- The store knows the run by this metadata now, and the other runs as before.
pub record Changed (run_id : String) (m : RunMeta) (s s' : RunStore) : Type 0 where
  pub gets : (j : String) → get_run j s' ≡ (if run_id == j then some m else get_run j s)
  pub keeps : m.run_id ≡ run_id → IsStore s → IsStore s'

-- A report does not change what the runs are known by.
write_report-Changed :
    (run_id : String) (report : Option String) (m : RunMeta) (s₀ s : RunStore)
    → Changed run_id m s₀ s
    → OnOk (Changed run_id m s₀) (write_report run_id report s)
unfolding write_report get_run
write_report-Changed run_id none m s₀ s c = c
write_report-Changed run_id (some report) m s₀ s c =
    bind-OnOk _ _ (require (get s run_id) (file_not_found_error run_id)) _ (require-OnOk _ _)
      λ d found. record {
        gets = λ j. elim (Bool-cases (run_id == j)) [
          | inl k ↦
              let same : get s run_id ≡ get s j = ap (get s) ((eq_iff run_id j).0 k) in
              ap meta_of (get-set_item s run_id j (record d { report = some report }))
              ∙ (rw k (ap meta_of (sym found ∙ same) ∙ c.gets j ∙ (rw k refl)))
          | inr k ↦
              ap meta_of (get-set_item s run_id j (record d { report = some report }))
              ∙ (rw k (c.gets j ∙ (rw k refl)))
        ];
        keeps = λ e v.
            let w = c.keeps e v in
            record {
              unique = set_item-IsUnique s run_id _ w.unique;
              named =
                  AllItems-set_item IsNamed s run_id _ w.named
                    (AllItems-get IsNamed s run_id w.named found);
            };
      }

abbrev pub updated : RunMeta → String → Option String → ℕ → RunMeta
updated m status error now = record m {
  status = status;
  error = error;
  completed_at = if is_final status then some now else m.completed_at;
}

pub record Updated (run_id status : String) (error : Option String) (now : ℕ) (s s' : RunStore)
    : Type 0 where
  pub old : RunMeta
  pub was : get_run run_id s ≡ some old
  pub allowed : is_allowed old.status status ≡ true
  pub changed : Changed run_id (updated old status error now) s s'

pub read_meta-OnOk :
    (run_id : String) (s : RunStore) → OnOk (λ m. get_run run_id s ≡ some m) (read_meta run_id s)
unfolding read_meta get_run
read_meta-OnOk run_id s =
    bind-OnOk _ _ (require (get s run_id) (file_not_found_error run_id)) _ (require-OnOk _ _)
      λ d found.
        OnOk_mono (λ m. d.meta ≡ some m) _ (require d.meta (file_not_found_error run_id))
          (λ m e. ap meta_of found ∙ e) (require-OnOk _ _)

-- The second half of `update_status`, whatever the store has become since the first.
pub record Set (run_id status : String) (error : Option String) (now : ℕ) (m : RunMeta)
    (s s' : RunStore) : Type 0 where
  pub allowed : is_allowed m.status status ≡ true
  pub changed : Changed run_id (updated m status error now) s s'

pub set_status-Set :
    (run_id status : String) (error report : Option String) (now : ℕ) (m : RunMeta) (s : RunStore)
    → OnOk (Set run_id status error now m s) (set_status run_id status error report now m s)
unfolding set_status
set_status-Set run_id status error report now m s =
    bind-OnOk (λ _. is_allowed m.status status ≡ true) _ (guard (is_allowed m.status status) _) _
      (guard-OnOk _ _)
      λ _ allowed.
        bind-OnOk (Wrote run_id (updated m status error now) s) _
          (write_meta run_id (updated m status error now) s) _
          (write_meta-Wrote run_id (updated m status error now) s)
          λ s' w.
            OnOk_mono (Changed run_id (updated m status error now) s)
              (Set run_id status error now m s) (write_report run_id report s')
              (λ s'' c. record { allowed = allowed; changed = c })
              (write_report-Changed run_id report (updated m status error now) s s'
                (record { gets = write-get w; keeps = λ e v. write-IsStore w e v }))

pub update_status-Updated :
    (run_id status : String) (error report : Option String) (now : ℕ) (s : RunStore)
    → OnOk (Updated run_id status error now s) (update_status run_id status error report now s)
unfolding update_status
update_status-Updated run_id status error report now s =
    bind-OnOk (λ m. get_run run_id s ≡ some m) _ (read_meta run_id s) _ (read_meta-OnOk run_id s)
      λ m was.
        OnOk_mono (Set run_id status error now m s) (Updated run_id status error now s)
          (set_status run_id status error report now m s)
          (λ s' c. record { old = m; was = was; allowed = c.allowed; changed = c.changed })
          (set_status-Set run_id status error report now m s)

abbrev pub fresh : String → String → ℕ → RunMeta
fresh query run_id now = record {
  run_id = run_id;
  query = query;
  status = "pending";
  created_at = now;
  completed_at = none;
  error = none;
}

pub not_there : (s : RunStore) (run_id : String) → has s run_id ≡ false → get s run_id ≡ none
not_there s run_id h = elim (Option-cases (get s run_id)) [
  | inl e ↦ e
  | inr (d, e) ↦ absurd (ground arith)
]

-- A run that is created was not there.
pub create_run-Changed :
    (query : String) (limit : Option ℤ) (run_id : String) (now : ℕ) (s : RunStore)
    → OnOk
        (λ s'. Changed run_id (fresh query run_id now) s s' × (get s run_id ≡ none))
        (create_run query limit run_id now s)
unfolding create_run get_run
create_run-Changed query limit run_id now s =
    if-OnOk _ (is_full limit (inflight_run_count s)) _ _ (λ _. tt)
      λ _.
        if-OnOk _ (has s run_id) _ _ (λ _. tt)
          λ new.
            let dir : RunDir = record { meta = none; report = none } in
            let m = fresh query run_id now in
            OnOk_mono (Wrote run_id m (set_item s run_id dir)) _
              (write_meta run_id m (set_item s run_id dir))
              (λ s' w. (
                record {
                  gets = λ j. elim (Bool-cases (run_id == j)) [
                    | inl k ↦ write-get w j ∙ (rw k refl)
                    | inr k ↦
                        let other : get (set_item s run_id dir) j ≡ get s j =
                          get-set_item s run_id j dir ∙ (rw k refl) in
                        write-get w j ∙ (rw k (ap meta_of other))
                  ];
                  keeps = λ e v. write-IsStore w e (record {
                    unique = set_item-IsUnique s run_id dir v.unique;
                    named = AllItems-set_item IsNamed s run_id dir v.named tt;
                  });
                },
                not_there s run_id new,
              ))
              (write_meta-Wrote run_id m (set_item s run_id dir))

-- The metadata has the name of its directory.
pub named_as :
    (run_id : String) (s : RunStore) (m : RunMeta)
    → IsStore s
    → get_run run_id s ≡ some m
    → m.run_id ≡ run_id
unfolding get_run
named_as run_id s m v found = elim (Option-cases (get s run_id)) [
  | inl gone ↦ absurd (ground arith)
  | inr (d, there) ↦
      let here : d.meta ≡ some m = rw there at found in
      rw here at (AllItems-get IsNamed s run_id v.named there)
]
