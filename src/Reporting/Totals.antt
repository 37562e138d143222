-- ===== src/Reporting/Totals.antt =====
-- simulation/nodes/round_summarizer.py, evidence_builder.py and report_writer.py: the totals per role
-- add up to those of all participants.
use mathlib.Core.Path.{◌≡◌, refl, ap, ◌∙◌}
use mathlib.Core.Logic.{inl, inr}
use mathlib.Core.Option.{none}
use mathlib.Core.List.{[], ◌∷◌}
use younggeul.Prelude.{
  ℤ, pos, ◌+ℤ◌, int_laws, parts_of_eq, Dict, get, set_item, length, total, total-set_item,
  total-new_item, Option-cases,
}
use younggeul.Floats.{FloatOps}
use younggeul.State.{ParticipantState}
use younggeul.Report.{RoleData}
use younggeul.Reporting.{role_key, counted_so_far, counted, role_data}

module _ (F : FloatOps) (f : RoleData → ℤ) (g : ParticipantState F → ℤ)
    (nothing : f (counted_so_far F none) ≡ pos 0)
    (one_more : (d : RoleData) (p : ParticipantState F) → f (counted F d p) ≡ f d +ℤ g p) where
  count_one :
      (roles : Dict RoleData) (p : ParticipantState F)
      → total f (
          set_item roles
            (role_key p.role)
            (counted F (counted_so_far F (get roles (role_key p.role))) p))
        ≡ total f roles +ℤ g p
  count_one roles p =
      let key = role_key p.role in
      let d = counted F (counted_so_far F (get roles key)) p in
      elim (Option-cases (get roles key)) [
        | inl e ↦
            let new = total-new_item f roles key d e in
            let more = one_more (counted_so_far F (get roles key)) p in
            let zero = ap (λ o. f (counted_so_far F o)) e ∙ nothing in
            omega (int_laws, parts_of_eq new, parts_of_eq more, parts_of_eq zero)
        | inr (old, e) ↦
            let moved = total-set_item f roles key d old e in
            let more = one_more (counted_so_far F (get roles key)) p in
            let same = ap (λ o. f (counted_so_far F o)) e in
            omega (int_laws, parts_of_eq moved, parts_of_eq more, parts_of_eq same)
      ]

  pub role_data-total :
      (ps : Dict (ParticipantState F)) (roles : Dict RoleData)
      → total f (role_data F ps roles) ≡ total f roles +ℤ total g ps
  unfolding role_data
  role_data-total [] roles = omega int_laws
  role_data-total ((id, p) ∷ ps) roles =
      let first = count_one roles p in
      let key = role_key p.role in
      let rest =
        role_data-total ps (set_item roles key (counted F (counted_so_far F (get roles key)) p)) in
      omega (int_laws, parts_of_eq first, parts_of_eq rest)

total-ones : {V : Type 0} (d : Dict V) → total (λ _. pos 1) d ≡ pos (length d)
total-ones [] = refl
total-ones ((k, v) ∷ d) = omega (int_laws, parts_of_eq (total-ones d))

module _ (F : FloatOps) where
  -- The counts of the roles add up to the number of participants, and their capitals and holdings to
  -- those of all participants.
  pub role_data_totals :
      (ps : Dict (ParticipantState F))
      → (total (λ d. pos d.count) (role_data F ps []) ≡ pos (length ps))
        × (total (λ d. d.total_capital) (role_data F ps []) ≡ total (λ p. p.capital) ps)
        × (total (λ d. d.total_holdings) (role_data F ps []) ≡ total (λ p. p.holdings) ps)
  role_data_totals ps =
      let counts =
        role_data-total F (λ d. pos d.count) (λ _. pos 1) refl (λ d p. omega int_laws) ps [] in
      let capital =
        role_data-total F (λ d. d.total_capital) (λ p. p.capital) refl (λ d p. refl) ps [] in
      let holdings =
        role_data-total F (λ d. d.total_holdings) (λ p. p.holdings) refl (λ d p. refl) ps [] in
      let ones = total-ones ps in
      (
        omega (int_laws, parts_of_eq counts, parts_of_eq ones),
        omega (int_laws, parts_of_eq capital),
        omega (int_laws, parts_of_eq holdings),
      )
