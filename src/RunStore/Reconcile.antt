-- ===== src/RunStore/Reconcile.antt =====
-- `reconcile_stale_runs`: it always ends well, and leaves no run in flight.
use mathlib.Core.Path.{◌≡◌, refl, sym, ◌∙◌, ap}
use mathlib.Core.Bool.{Bool, true, false}
use mathlib.Core.Logic.{inl, inr}
use mathlib.Core.Option.{some}
use mathlib.Core.List.{List, [], ◌∷◌}
use native.Mathlib.Omega.{arith}
use text.Mathlib.Text.{◌==◌}
use younggeul.Prelude.{
  ℕ, suc, ◌+◌, String, Dict, get, has, set_item, get-set_item, values, All, All-map, All-sorted,
  AllItems, items-get, length, select, any, Bool-cases, Option-cases, if◌then◌else◌, some-eq,
}
use younggeul.Errors.{OnOk, bind-OnOk, Returns, Returns_mono}
use younggeul.RunStore.{
  RunMeta, RunDir, RunStore, is_inflight, write_meta, meta_of, get_run, reconcile, list_runs, metas,
  interrupted, later,
}
use younggeul.RunStore.Status.{IsNamed, IsStore, Wrote, write_meta-Wrote, write-IsStore, write-get}

metas-All :
    (P : RunMeta → Type 0) (d : Dict RunDir)
    → All (λ e. (m : RunMeta) → e.1.meta ≡ some m → P m) d
    → All P (metas (values d))
metas-All P [] a = tt
metas-All P ((k, v) ∷ d) a = elim (Option-cases v.meta) [
  | inl e ↦ rw e (metas-All P d a.1)
  | inr (m, e) ↦ rw e (a.0 m e, metas-All P d a.1)
]

-- Every listed run is found under its id.
pub list_runs-get :
    (s : RunStore) → IsStore s → All (λ r. get_run r.run_id s ≡ some r) (list_runs s)
unfolding list_runs get_run
list_runs-get s v = All-sorted later _ _ (metas-All _ s (found s v.named (items-get s v.unique)))
  where
    found :
        (d : RunStore)
        → AllItems IsNamed d
        → AllItems (λ k e. get s k ≡ some e) d
        → All (λ e. (m : RunMeta) → e.1.meta ≡ some m → meta_of (get s m.run_id) ≡ some m) d
    found [] n a = tt
    found ((k, e) ∷ d) n a = (
      (λ m h.
          let same : m.run_id ≡ k = rw h at n.0 in
          ap (λ i. meta_of (get s i)) same ∙ ap meta_of a.0 ∙ h),
      found d n.1 a.1,
    )

-- No run that is found is in flight, unless the rest of the list has it.
unfoldable pub Covered : List RunMeta → RunStore → Type 0
Covered rs s =
    (id : String) (m : RunMeta)
    → get_run id s ≡ some m
    → is_inflight m ≡ true
    → any (λ r. if is_inflight r then r.run_id == id else false) rs ≡ true

interrupted-inflight : (now : ℕ) (r : RunMeta) → is_inflight (interrupted now r) ≡ false
unfolding is_inflight
interrupted-inflight now r = refl

module _ (now : ℕ) where
  pub reconcile-IsStore :
      (rs : List RunMeta) (s : RunStore) (n : ℕ)
      → IsStore s
      → OnOk (λ acc. IsStore acc.0) (reconcile now rs (s, n))
  unfolding reconcile
  reconcile-IsStore [] s n v = v
  reconcile-IsStore (r ∷ rs) s n v = elim (Bool-cases (is_inflight r)) [
    | inr e ↦ rw e (reconcile-IsStore rs s n v)
    | inl e ↦ rw e (
        bind-OnOk (Wrote r.run_id (interrupted now r) s) _
          (write_meta r.run_id (interrupted now r) s) _
          (write_meta-Wrote r.run_id (interrupted now r) s)
          (λ s' w. reconcile-IsStore rs s' (suc n) (write-IsStore w refl v)))
  ]

  Covered-next :
      (r : RunMeta) (rs : List RunMeta) (s s' : RunStore)
      → is_inflight r ≡ true
      → Wrote r.run_id (interrupted now r) s s'
      → Covered (r ∷ rs) s
      → Covered rs s'
  unfolding Covered any
  Covered-next r rs s s' e w c = λ id m found h. elim (Bool-cases (r.run_id == id)) [
    | inl k ↦
        let last : some (interrupted now r) ≡ some m = (sym (rw k at (write-get w id))) ∙ found in
        let apart : false ≡ true =
          sym (interrupted-inflight now r) ∙ ap is_inflight (some-eq last) ∙ h in
        absurd (cc)
    | inr k ↦ rw (e, k) at (c id m (sym (rw k at (write-get w id)) ∙ found) h)
  ]

  Covered-skip :
      (r : RunMeta) (rs : List RunMeta) (s : RunStore)
      → is_inflight r ≡ false
      → Covered (r ∷ rs) s
      → Covered rs s
  unfolding Covered any
  Covered-skip r rs s e c = λ id m found h. rw e at (c id m found h)

  pub reconcile-Covered :
      (rs : List RunMeta) (s : RunStore) (n : ℕ)
      → Covered rs s
      → OnOk (λ acc. Covered [] acc.0) (reconcile now rs (s, n))
  unfolding reconcile
  reconcile-Covered [] s n c = c
  reconcile-Covered (r ∷ rs) s n c = elim (Bool-cases (is_inflight r)) [
    | inr e ↦ rw e (reconcile-Covered rs s n (Covered-skip r rs s e c))
    | inl e ↦ rw e (
        bind-OnOk (Wrote r.run_id (interrupted now r) s) _
          (write_meta r.run_id (interrupted now r) s) _
          (write_meta-Wrote r.run_id (interrupted now r) s)
          (λ s' w. reconcile-Covered rs s' (suc n) (Covered-next r rs s s' e w c)))
  ]

  has-set_item :
      (s : RunStore) (k j : String) (d : RunDir) → has s j ≡ true → has (set_item s k d) j ≡ true
  has-set_item s k j d h =
      rw get-set_item (elim (Bool-cases (k == j)) [ inl e ↦ rw e refl | inr e ↦ rw e h ])

  -- Each write finds its directory, and the count goes up with each.
  pub reconcile-Returns :
      (rs : List RunMeta) (s : RunStore) (n : ℕ)
      → All (λ r. has s r.run_id ≡ true) rs
      → Returns (λ acc. acc.1 ≡ n + length (select is_inflight rs)) (reconcile now rs (s, n))
  unfolding reconcile select write_meta
  reconcile-Returns [] s n a = omega arith
  reconcile-Returns (r ∷ rs) s n a = elim (Bool-cases (is_inflight r)) [
    | inr e ↦ rw e (reconcile-Returns rs s n a.1)
    | inl e ↦ elim (Option-cases (get s r.run_id)) [
      | inl gone ↦ absurd (ground (arith, a.0))
      | inr (d, there) ↦
          rw (e, there)
            (Returns_mono _ _ (reconcile now rs (_, suc n)) (λ acc h. omega (arith, h))
              (reconcile-Returns rs _ (suc n)
                (All-map _ _ rs (λ q h. has-set_item s r.run_id q.run_id _ h) a.1)))
    ]
  ]

pub metas-any :
    (p : RunMeta → Bool) (d : Dict RunDir) (id : String) (v : RunDir) (m : RunMeta)
    → get d id ≡ some v
    → v.meta ≡ some m
    → p m ≡ true
    → any p (metas (values d)) ≡ true
unfolding get any
metas-any p [] id v m found e h = cc
metas-any p ((k, w) ∷ d) id v m found e h = elim (Bool-cases (k == id)) [
  | inl same ↦
      let here : w.meta ≡ some m = ap (λ (q : RunDir). q.meta) (some-eq (rw same at found)) ∙ e in
      rw (here, h) refl
  | inr other ↦
      let rest = metas-any p d id v m (rw other at found) e h in
      elim (Option-cases w.meta) [
        | inl none_yet ↦ rw (none_yet, rest) refl
        | inr (q, there) ↦ rw (there, rest) (ground arith)
      ]
]
