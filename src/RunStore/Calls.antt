-- ===== src/RunStore/Calls.antt =====
-- A call that nothing overlaps, in the steps of the history.
use mathlib.Core.Path.{◌≡◌, refl, ◌∙◌, ap, subst}
use mathlib.Core.Logic.{inl, inr}
use mathlib.Core.Option.{Option, none, some}
use mathlib.Core.List.{List, [], ◌∷◌, ◌++◌}
use younggeul.Prelude.{ℕ, suc, String, get, All, append-append_one, Bool-cases, Option-cases}
use younggeul.Errors.{ok, Result-cases, ok-eq}
use younggeul.RunStore.{
  RunMeta, RunStore, is_inflight, get_run, read_meta, write_meta, interrupted, reconcile,
  update_status, list_runs, reconcile_stale_runs,
}
use younggeul.RunStore.Status.{IsStore}
use younggeul.RunStore.Reconcile.{list_runs-get}
use younggeul.RunStore.History.{
  Service, Step, update_reads, update_writes, reconcile_reads, reconcile_leaves, reconcile_writes,
  History, begins, goes_on,
}

-- Nobody has the lock.
abbrev pub idle : RunStore → List RunMeta → Service
idle s listed = record { store = s; listed = listed; held = none }

-- A whole `update_status`.
pub update_status-History :
    (run_id status : String) (error report : Option String) (now : ℕ) (s s' : RunStore)
    (listed : List RunMeta)
    → update_status run_id status error report now s ≡ ok s'
    → History (idle s listed) (idle s' listed)
unfolding update_status
update_status-History run_id status error report now s s' listed e =
    elim (Result-cases (read_meta run_id s)) [
      | inr (raised, h) ↦ let never = rw h at e in absurd (cc)
      | inl (m, h) ↦
          goes_on (goes_on begins (update_reads run_id h))
            (update_writes run_id status error report now (rw h at e))
    ]

pub History-History : (u v w : Service) → History u v → History v w → History u w
History-History u v w h begins = h
History-History u v w h (goes_on {v' = w'} k t) = goes_on (History-History u v w' h k) t

read_there :
    (s : RunStore) (run_id : String) (m : RunMeta)
    → get_run run_id s ≡ some m
    → read_meta run_id s ≡ ok m
unfolding get_run read_meta
read_there s run_id m h = elim (Option-cases (get s run_id)) [
  | inl gone ↦ let never = rw gone at h in absurd (cc)
  | inr (d, there) ↦ let here : d.meta ≡ some m = rw there at h in rw (there, here) refl
]

-- The reads of the runs of a list.
reads :
    (s : RunStore) (rs : List RunMeta)
    → All (λ r. get_run r.run_id s ≡ some r) rs
    → History (idle s []) (idle s rs)
reads s [] a = begins
reads s (r ∷ rs) a =
    goes_on (reads s rs a.1) (reconcile_reads r.run_id (read_there s r.run_id r a.0))

-- The loop over the runs that are read.
writes :
    (now : ℕ) (rs before : List RunMeta) (s : RunStore) (count : ℕ) (s' : RunStore) (count' : ℕ)
    (listed : List RunMeta)
    → before ++ rs ≡ listed
    → reconcile now rs (s, count) ≡ ok (s', count')
    → History (idle s listed) (idle s' listed)
unfolding reconcile
writes now [] before s count s' count' listed h e =
    let same : (s, count) ≡ (s', count') = ok-eq e in
    subst (λ x. History (idle s listed) (idle x listed)) (ap (λ p. p.0) same) begins
writes now (r ∷ rs) before s count s' count' listed h e =
    let rest = λ (s₁ : RunStore) (n : ℕ) (k : reconcile now rs (s₁, n) ≡ ok (s', count')).
      writes now rs (before ++ r ∷ []) s₁ n s' count' listed (append-append_one before r rs ∙ h)
        k in
    elim (Bool-cases (is_inflight r)) [
      | inr k ↦ rest s count (rw k at e)
      | inl k ↦ elim (Result-cases (write_meta r.run_id (interrupted now r) s)) [
        | inr (raised, w) ↦ let never = rw (k, w) at e in absurd (cc)
        | inl (s₁, w) ↦
            let here : Step (idle s (before ++ r ∷ rs)) (idle s₁ (before ++ r ∷ rs)) =
              reconcile_writes now before r rs k w in
            let step = subst (λ l. Step (idle s l) (idle s₁ l)) h here in
            History-History _ (idle s₁ listed) _ (goes_on begins step)
              (rest s₁ (suc count) (rw (k, w) at e))
      ]
    ]

-- The end of the call.
leaves : (s : RunStore) (rs : List RunMeta) → History (idle s rs) (idle s [])
leaves s [] = begins
leaves s (r ∷ rs) =
    History-History (idle s (r ∷ rs)) (idle s rs) (idle s [])
      (goes_on begins (reconcile_leaves [] r rs)) (leaves s rs)

-- A whole `reconcile_stale_runs` on a store whose directories are named after their runs.
pub reconcile_stale_runs-History :
    (now : ℕ) (s s' : RunStore) (count : ℕ)
    → IsStore s
    → reconcile_stale_runs now s ≡ ok (s', count)
    → History (idle s []) (idle s' [])
unfolding reconcile_stale_runs
reconcile_stale_runs-History now s s' count v e =
    History-History (idle s []) (idle s (list_runs s)) (idle s' [])
      (reads s (list_runs s) (list_runs-get s v))
      (History-History (idle s (list_runs s)) (idle s' (list_runs s)) (idle s' [])
        (writes now (list_runs s) [] s 0 s' count (list_runs s) refl e) (leaves s' (list_runs s)))
