-- ===== src/RunStore/Capacity.antt =====
-- The limit on the runs in flight.
use mathlib.Core.Path.{◌≡◌, refl, sym, ◌∙◌, ap}
use mathlib.Core.Bool.{true, false}
use mathlib.Core.Logic.{inl, inr}
use mathlib.Core.Option.{Option, none, some}
use mathlib.Core.List.{List, [], ◌∷◌}
use native.Mathlib.Omega.{arith}
use text.Mathlib.TextEquality.{eq_iff}
use younggeul.Prelude.{
  ℕ, suc, ◌+◌, ℤ, pos, ◌+ℤ◌, ◌≤ℤ◌, int_laws, parts_of_eq, total, total-set_item, total-new_item,
  String, get, has, set_item, get-set_item, values, All, All-map, length, select, any, any-sorted,
  length-select-sorted, Bool-cases, Option-cases, some-eq, if◌then◌else◌,
}
use younggeul.Errors.{ok, OnOk-ok, OnOk_mono, Returns-OnOk, Returns-IsOk, IsOk-ok, if-OnOk}
use younggeul.RunStore.{
  RunMeta, RunDir, RunStore, is_inflight, is_full, inflight_run_count, write_meta, meta_of, get_run,
  create_run, reconcile, reconcile_stale_runs, list_runs, metas, later,
}
use younggeul.RunStore.Status.{IsStore, Wrote, write_meta-Wrote}
use younggeul.RunStore.Update.{fresh, not_there, named_as}
use younggeul.RunStore.Reconcile.{
  list_runs-get, reconcile-IsStore, reconcile-Covered, reconcile-Returns, metas-any, Covered,
}

abbrev weigh : Option RunMeta → ℤ
weigh none = pos 0
weigh (some m) = if is_inflight m then pos 1 else pos 0

abbrev weight : RunDir → ℤ
weight d = weigh d.meta

metas-total : (s : RunStore) → pos (length (select is_inflight (metas (values s)))) ≡ total weight s
unfolding select
metas-total [] = refl
metas-total ((k, d) ∷ s) = elim (Option-cases d.meta) [
  | inl e ↦ rw e (omega (int_laws, parts_of_eq (metas-total s)))
  | inr (m, e) ↦ elim (Bool-cases (is_inflight m)) [
    | inl h ↦ rw (e, h) (omega (int_laws, parts_of_eq (metas-total s)))
    | inr h ↦ rw (e, h) (omega (int_laws, parts_of_eq (metas-total s)))
  ]
]

count-total : (s : RunStore) → pos (inflight_run_count s) ≡ total weight s
unfolding inflight_run_count list_runs
count-total s = ap pos (length-select-sorted later is_inflight (metas (values s))) ∙ metas-total s

module _ (query run_id : String) (now : ℕ) where
  created-total :
      (s s' : RunStore)
      → get s run_id ≡ none
      → Wrote run_id
          (fresh query run_id now)
          (set_item s run_id (record { meta = none; report = none }))
          s'
      → total weight s' ≡ total weight s +ℤ pos 1
  unfolding is_inflight
  created-total s s' gone w =
      let empty : RunDir = record { meta = none; report = none } in
      let new : RunDir = record w.dir { meta = some (fresh query run_id now) } in
      let first : total weight (set_item s run_id empty) ≡ total weight s +ℤ pos 0 =
        total-new_item weight s run_id empty gone in
      let dir : w.dir ≡ empty = some-eq (
        sym w.found
        ∙ get-set_item s run_id run_id empty
        ∙ (rw ((eq_iff run_id run_id).1 refl) refl)) in
      let none_yet : weight w.dir ≡ pos 0 = ap weight dir in
      let second : total weight (set_item (set_item s run_id empty) run_id new) +ℤ weight w.dir
          ≡ total weight (set_item s run_id empty) +ℤ pos 1 =
        total-set_item weight (set_item s run_id empty) run_id new w.dir w.found in
      rw w.written (omega (int_laws, parts_of_eq first, parts_of_eq second, parts_of_eq none_yet))

  -- With a limit, and with no call that overlaps, a run is created only below the limit: there is
  -- one more run in flight then, and there are no more of them than the limit.
  pub create_run-limit :
      (limit : ℤ) (s s' : RunStore)
      → create_run query (some limit) run_id now s ≡ ok s'
      → (inflight_run_count s' ≡ suc (inflight_run_count s))
        × (pos (inflight_run_count s') ≤ℤ limit)
  unfolding create_run
  create_run-limit limit s s' e =
      OnOk-ok _ _
        (if-OnOk
          (λ s'.
            (inflight_run_count s' ≡ suc (inflight_run_count s))
            × (pos (inflight_run_count s') ≤ℤ limit))
          (is_full (some limit) (inflight_run_count s)) _ _ (λ _. tt)
          λ room.
            if-OnOk _ (has s run_id) _ _ (λ _. tt)
              λ new.
                let dir : RunDir = record { meta = none; report = none } in
                let m = fresh query run_id now in
                OnOk_mono (Wrote run_id m (set_item s run_id dir)) _
                  (write_meta run_id m (set_item s run_id dir))
                  (λ s' w.
                    let more : inflight_run_count s' ≡ suc (inflight_run_count s) = omega (
                      int_laws,
                      parts_of_eq (created-total s s' (not_there s run_id new) w),
                      parts_of_eq (count-total s),
                      parts_of_eq (count-total s'),
                    ) in
                    (more, ground (arith, more, room)))
                  (write_meta-Wrote run_id m (set_item s run_id dir)))
        e

select-none :
    (rs : List RunMeta) → All (λ r. is_inflight r ≡ false) rs → length (select is_inflight rs) ≡ 0
unfolding select
select-none [] a = refl
select-none (r ∷ rs) a = rw a.0 (select-none rs a.1)

Covered-zero : (s : RunStore) → IsStore s → Covered [] s → inflight_run_count s ≡ 0
unfolding Covered any inflight_run_count
Covered-zero s v c = select-none (list_runs s) (
    All-map _ _ (list_runs s)
      (λ r found. elim (Bool-cases (is_inflight r)) [
        | inr h ↦ h
        | inl h ↦ let never : false ≡ true = c r.run_id r found h in absurd (cc)
      ])
      (list_runs-get s v))

is_run :
    (s : RunStore) (id : String) (m : RunMeta) → meta_of (get s id) ≡ some m → get_run id s ≡ some m
unfolding get_run
is_run s id m h = h

list_runs-Covered : (s : RunStore) → IsStore s → Covered (list_runs s) s
unfolding Covered list_runs get_run
list_runs-Covered s v = λ id m found h. elim (Option-cases (get s id)) [
  | inl gone ↦ absurd (ground arith)
  | inr (d, there) ↦
      let here : d.meta ≡ some m = rw there at found in
      any-sorted later _ (metas (values s))
      ∙ metas-any _ s id d m there here
          (rw h ((eq_iff m.run_id id).1 (named_as id s m v (is_run s id m found))))
]

-- In a store whose directories are named after their runs, a call of `reconcile_stale_runs` that no
-- other call overlaps always ends well;
-- its count is the number of runs that were in flight, and then none is.
pub reconcile_stale_runs_complete :
    (now : ℕ) (s : RunStore)
    → IsStore s
    → (s' : RunStore) × (count : ℕ) × (reconcile_stale_runs now s ≡ ok (s', count))
      × (count ≡ inflight_run_count s)
      × (inflight_run_count s' ≡ 0)
unfolding reconcile_stale_runs inflight_run_count get_run
reconcile_stale_runs_complete now s v =
    let there =
      All-map _ (λ r. has s r.run_id ≡ true) (list_runs s) (λ r h. ground (arith, h))
        (list_runs-get s v) in
    let counted = reconcile-Returns now (list_runs s) s 0 there in
    let m = reconcile now (list_runs s) (s, 0) in
    let ((s', count), e) = IsOk-ok m (Returns-IsOk _ m counted) in
    (
      s',
      count,
      e,
      OnOk-ok (λ acc. acc.1 ≡ 0 + length (select is_inflight (list_runs s))) m
            (Returns-OnOk _ m counted) e
          ∙ (omega arith),
      Covered-zero s'
          (OnOk-ok (λ acc. IsStore acc.0) m (reconcile-IsStore now (list_runs s) s 0 v) e)
          (OnOk-ok (λ acc. Covered [] acc.0) m
            (reconcile-Covered now (list_runs s) s 0 (list_runs-Covered s v)) e),
    )
