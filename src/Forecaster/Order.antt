-- ===== src/Forecaster/Order.antt =====
-- forecaster.py: the forecasts are one for each district of the metrics, in order.
use mathlib.Core.Path.{◌≡◌, refl, sym, ap, ◌∙◌, subst}
use mathlib.Core.Bool.{true}
use mathlib.Core.Logic.{inl, inr}
use mathlib.Core.Option.{none, some}
use mathlib.Core.List.{List, [], ◌∷◌, ◌++◌}
use native.Mathlib.Omega.{arith}
use text.Mathlib.Text.{◌==◌}
use younggeul.Prelude.{
  ℤ, pos, ◌≤ℤ◌, ≤ℤ-max_ℤ, String, Dict, get, get-set_item, has, has-knows, set_item,
  set_item-IsUnique, keys, knows, knows-sorted, sorted-IsUnique, IsUnique, IsSorted,
  sorted-IsSorted, str_leb, str_leb_total, is_some, some-eq, sorted, any, All, All-append,
  All-sorted, AllItems, AllItems-get, AllItems-set_item, Bool-cases, Option-cases, if◌then◌else◌,
}
use younggeul.Errors.{
  ok, ◌>>=◌, OnOk, OnOk_mono, bind-OnOk, require-OnOk, guarded_twice-OnOk, value_error,
  validation_error,
}
use younggeul.Floats.{FloatOps, between}
use younggeul.Gold.{BaselineForecast, baseline_forecast, is_period}
use younggeul.Forecaster.{
  Metrics, last_one, or_none, grouped, forecast_of, forecast_rows, forecast_each, forecast_baseline,
}

missing : {A : Type 0} {a : A} → none ≡ some a → ⊥
missing h = cc

last_one-All {κ} :
    {A : Type 0} (P : A → Type κ) (xs : List A) {x : A} → last_one xs ≡ some x → All P xs → P x
last_one-All P [] h a = absurd (missing h)
last_one-All P (y ∷ []) h a = subst P (some-eq h) a.0
last_one-All P (y ∷ (z ∷ zs)) h a = last_one-All P (z ∷ zs) h a.1

module _ (F : FloatOps) where
  -- The rows are of the district.
  abbrev IsOf : String → List (Metrics F) → Type 0
  IsOf gu_code rows = All (λ m. m.gu_code ≡ gu_code) rows

  group-IsOf :
      (d : Dict (List (Metrics F))) (k : String) → AllItems IsOf d → IsOf k (or_none (get d k))
  group-IsOf d k a = elim (Option-cases (get d k)) [
    | inl e ↦ rw e tt
    | inr (rows, e) ↦ rw e (AllItems-get IsOf d k a e)
  ]

  grouped-IsOf :
      (ms : List (Metrics F)) (d : Dict (List (Metrics F)))
      → AllItems IsOf d
      → AllItems IsOf (grouped F ms d)
  unfolding grouped
  grouped-IsOf [] d a = a
  grouped-IsOf (m ∷ ms) d a = grouped-IsOf ms _ (
      AllItems-set_item IsOf d m.gu_code _ a (
        All-append (λ n. n.gu_code ≡ m.gu_code) (or_none (get d m.gu_code)) (m ∷ [])
          (group-IsOf d m.gu_code a) (refl, tt)))

  grouped-IsUnique :
      (ms : List (Metrics F)) (d : Dict (List (Metrics F)))
      → IsUnique (keys d)
      → IsUnique (keys (grouped F ms d))
  unfolding grouped
  grouped-IsUnique [] d u = u
  grouped-IsUnique (m ∷ ms) d u = grouped-IsUnique ms _ (set_item-IsUnique d m.gu_code _ u)

  has-grouped :
      (ms : List (Metrics F)) (d : Dict (List (Metrics F))) (k : String)
      → has (grouped F ms d) k ≡ (if has d k then true else any (λ m. m.gu_code == k) ms)
  unfolding grouped any
  has-grouped [] d k = ground arith
  has-grouped (m ∷ ms) d k =
      let rows = or_none (get d m.gu_code) ++ m ∷ [] in
      let rest = has-grouped ms (set_item d m.gu_code rows) k in
      let now = get-set_item d m.gu_code k rows in
      elim (Bool-cases (m.gu_code == k)) [
        | inl e ↦
            let found : has (set_item d m.gu_code rows) k ≡ true = ap is_some now ∙ rw e refl in
            rest ∙ rw (found, e) (ground arith)
        | inr e ↦
            let found : has (set_item d m.gu_code rows) k ≡ has d k = ap is_some now ∙ rw e refl in
            rest ∙ rw (found, e) refl
      ]

  -- A forecast of the district, with a volume that is not negative.
  abbrev pub IsForecastOf : String → BaselineForecast F → Type 0
  IsForecastOf gu_code f =
      (f.gu_code ≡ gu_code) × ((v : ℤ) × (f.predicted_volume ≡ some v) × (pos 0 ≤ℤ v))

  validated : (f : BaselineForecast F) → OnOk (λ q. q ≡ f) (baseline_forecast F f)
  unfolding baseline_forecast
  validated f =
      let Checked = λ (q : BaselineForecast F).
        (q ≡ f)
        × (is_period f.target_period ≡ true)
        × (between F (F.decimal (pos 0) 1) f.direction_confidence (F.decimal (pos 10) 1) ≡ true) in
      OnOk_mono Checked (λ q. q ≡ f) (baseline_forecast F f) (λ q e. e.0)
        (guarded_twice-OnOk _ _ (validation_error "target_period")
          (validation_error "direction_confidence") f)

  forecast_rows-IsForecastOf :
      (rows : List (Metrics F)) (k : String)
      → IsOf k rows
      → OnOk (IsForecastOf k) (forecast_rows F rows)
  unfolding forecast_rows
  forecast_rows-IsForecastOf rows k h =
      bind-OnOk (λ m. last_one rows ≡ some m) (IsForecastOf k) _ _
        (require-OnOk (last_one rows) (value_error "no rows"))
        λ latest last.
          let f = forecast_of F latest rows in
          let made : IsForecastOf k f =
            (last_one-All (λ m. m.gu_code ≡ k) rows last h, (_, refl, ≤ℤ-max_ℤ (pos 0) _)) in
          OnOk_mono (λ q. q ≡ f) (IsForecastOf k) (baseline_forecast F f)
            (λ q e. subst (IsForecastOf k) (sym e) made) (validated f)

  -- One forecast per district of the list, in the list's order.
  abbrev pub AreForecastsOf : List String → List (BaselineForecast F) → Type 0
  AreForecastsOf [] [] = Unit
  AreForecastsOf (k ∷ ks) (f ∷ fs) = IsForecastOf k f × AreForecastsOf ks fs
  AreForecastsOf _ _ = ⊥

  forecast_each-AreForecastsOf :
      (groups : Dict (List (Metrics F))) (ks : List String)
      → AllItems IsOf groups
      → OnOk (AreForecastsOf ks) (forecast_each F groups ks)
  unfolding forecast_each
  forecast_each-AreForecastsOf groups [] a = tt
  forecast_each-AreForecastsOf groups (k ∷ ks) a =
      let earlier = λ (m n : Metrics F). str_leb m.period n.period in
      let rows = sorted earlier (or_none (get groups k)) in
      bind-OnOk (IsForecastOf k) (AreForecastsOf (k ∷ ks)) (forecast_rows F rows)
        (λ f. forecast_each F groups ks >>= (λ fs. ok (f ∷ fs)))
        (forecast_rows-IsForecastOf rows k (
          All-sorted earlier (λ m. m.gu_code ≡ k) (or_none (get groups k)) (group-IsOf groups k a)))
        λ f h.
          bind-OnOk (AreForecastsOf ks) (AreForecastsOf (k ∷ ks)) (forecast_each F groups ks)
            (λ fs. ok (f ∷ fs)) (forecast_each-AreForecastsOf groups ks a) λ fs hs. (h, hs)

  -- The districts of the metrics, in order and each once.
  pub record AreDistrictsOf (metrics : List (Metrics F)) (ks : List String) : Type 0 where
    pub in_order : IsSorted str_leb ks
    pub once : IsUnique ks
    pub named : (k : String) → knows ks k ≡ any (λ m. m.gu_code == k) metrics

  -- Where the forecasts are made, they are one for each district that has metrics and for no other, in
  -- the order of the districts' codes, and none of them predicts a negative volume.
  pub forecast_baseline-AreForecastsOf :
      (metrics : List (Metrics F))
      → (ks : List String) × AreDistrictsOf metrics ks
        × OnOk (AreForecastsOf ks) (forecast_baseline F metrics)
  unfolding forecast_baseline get
  forecast_baseline-AreForecastsOf metrics =
      let groups = grouped F metrics [] in
      let ks = sorted str_leb (keys groups) in
      (
        ks,
        record {
          in_order = sorted-IsSorted str_leb str_leb_total (keys groups);
          once = sorted-IsUnique (keys groups) (grouped-IsUnique metrics [] tt);
          named = λ k.
              knows-sorted (keys groups) k ∙ sym (has-knows groups k) ∙ has-grouped metrics [] k;
        },
        forecast_each-AreForecastsOf groups ks (grouped-IsOf metrics [] tt),
      )
