-- ===== src/Resolver/Matching/Books.antt =====
-- The running changes of capital and holdings account for what the participants have.
use mathlib.Core.Path.{◌≡◌, sym, ◌∙◌}
use mathlib.Core.Option.{some}
use mathlib.Core.Logic.{inl, inr}
use native.Mathlib.Omega.{arith}
use text.Mathlib.Text.{◌==◌}
use text.Mathlib.TextEquality.{eq_iff}
use younggeul.Prelude.{
  ℤ, ◌+ℤ◌, String, Dict, get, set_item, get-set_item, int_laws, parts_of_eq, some-eq, Bool-cases,
  if◌then◌else◌,
}
use younggeul.Floats.{FloatOps}
use younggeul.State.{ParticipantState}
use younggeul.Resolver.Matching.{Ledger, change_of}
use younggeul.Resolver.Matching.Settle.{Settled}

change_of-set_item :
    (d : Dict ℤ) (id j : String) (n : ℤ)
    → change_of (set_item d id n) j ≡ (if id == j then n else change_of d j)
change_of-set_item d id j n = ground (arith, get-set_item d id j n)

module _ (F : FloatOps) (init : Dict (ParticipantState F)) where
  -- What a participant has is what it began with and the changes that are booked for it.
  pub record Booked (l : Ledger F) : Type 0 where
    pub capital :
        (id : String) (before now : ParticipantState F)
        → get init id ≡ some before
        → get l.participants id ≡ some now
        → now.capital ≡ before.capital +ℤ change_of l.capital_changes id
    pub holdings :
        (id : String) (before now : ParticipantState F)
        → get init id ≡ some before
        → get l.participants id ≡ some now
        → now.holdings ≡ before.holdings +ℤ change_of l.holdings_changes id

  module _ {id : String} {capital_change holdings_change : ℤ} {l l' : Ledger F}
      (s : Settled F id capital_change holdings_change l l') where
    -- A lookup after the write: the participant itself, or one that is as it was.
    lookup_cases :
        (j : String) (now : ParticipantState F)
        → get l'.participants j ≡ some now
        → (if id == j then some s.new else get l.participants j) ≡ some now
    lookup_cases j now e = sym (get-set_item l.participants id j s.new) ∙ (rw s.written at e)

    module _ (j : String) {before now : ParticipantState F} (e : get init j ≡ some before)
        (f : get l'.participants j ≡ some now) where
      settle_capital : Booked l → now.capital ≡ before.capital +ℤ change_of l'.capital_changes j
      settle_capital b = elim (Bool-cases (id == j)) [
        | inl k ↦
            let at_id : get init id ≡ some before = rw (sym ((eq_iff id j).0 k)) at e in
            rw
              (s.capital_changes, change_of-set_item, k, ← some-eq (rw k at (lookup_cases j now f)))
              (omega (
                int_laws,
                parts_of_eq s.capital,
                parts_of_eq (b.capital id before s.old at_id s.found),
              ))
        | inr k ↦
            rw (s.capital_changes, change_of-set_item, k)
              (b.capital j before now e (rw k at (lookup_cases j now f)))
      ]

      settle_holdings : Booked l → now.holdings ≡ before.holdings +ℤ change_of l'.holdings_changes j
      settle_holdings b = elim (Bool-cases (id == j)) [
        | inl k ↦
            let at_id : get init id ≡ some before = rw (sym ((eq_iff id j).0 k)) at e in
            rw
              (
                s.holdings_changes,
                change_of-set_item,
                k,
                ← some-eq (rw k at (lookup_cases j now f)),
              )
              (omega (
                int_laws,
                parts_of_eq s.holdings,
                parts_of_eq (b.holdings id before s.old at_id s.found),
              ))
        | inr k ↦
            rw (s.holdings_changes, change_of-set_item, k)
              (b.holdings j before now e (rw k at (lookup_cases j now f)))
      ]

    pub settle-Booked : Booked l → Booked l'
    settle-Booked b = record {
      capital = λ j before now e f. settle_capital j e f b;
      holdings = λ j before now e f. settle_holdings j e f b;
    }
