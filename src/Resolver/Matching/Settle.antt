-- ===== src/Resolver/Matching/Settle.antt =====
-- What one side of a trade does to the ledger.
use mathlib.Core.Path.{◌≡◌, refl, ap}
use mathlib.Core.Option.{some}
use native.Mathlib.Omega.{arith}
use younggeul.Prelude.{ℤ, ◌+ℤ◌, String, get, set_item, total, total-set_item, int_laws, parts_of_eq}
use younggeul.Errors.{OnOk, bind-OnOk, require-OnOk, require}
use younggeul.Floats.{FloatOps}
use younggeul.State.{ParticipantState}
use younggeul.Resolver.Matching.{Ledger, change_of, settle, copy_participant}

module _ (F : FloatOps) where
  -- The participant was there, and it alone has changed.
  pub record Settled (id : String) (capital_change holdings_change : ℤ) (l l' : Ledger F)
      : Type 0 where
    pub old : ParticipantState F
    pub new : ParticipantState F
    pub found : get l.participants id ≡ some old
    pub written : l'.participants ≡ set_item l.participants id new
    pub capital : new.capital ≡ old.capital +ℤ capital_change
    pub holdings : new.holdings ≡ old.holdings +ℤ holdings_change
    pub risk : new.risk_tolerance ≡ old.risk_tolerance
    pub count : l'.total_matched ≡ l.total_matched
    pub capital_changes :
        l'.capital_changes
        ≡ set_item l.capital_changes id (change_of l.capital_changes id +ℤ capital_change)
    pub holdings_changes :
        l'.holdings_changes
        ≡ set_item l.holdings_changes id (change_of l.holdings_changes id +ℤ holdings_change)

  module _ (id : String) (capital_change holdings_change : ℤ) (l : Ledger F) where
    abbrev updated : ParticipantState F → ParticipantState F
    updated p = record p {
      capital = p.capital +ℤ capital_change;
      holdings = p.holdings +ℤ holdings_change;
    }

    copied :
        (p : ParticipantState F)
        → OnOk
            (λ q. q ≡ updated p)
            (copy_participant F p (p.capital +ℤ capital_change) (p.holdings +ℤ holdings_change))
    unfolding copy_participant
    copied p = ground arith

    pub settle-Settled :
        OnOk
          (Settled id capital_change holdings_change l)
          (settle F id capital_change holdings_change l)
    unfolding settle
    settle-Settled =
        bind-OnOk (λ p. get l.participants id ≡ some p) _ (require (get l.participants id) _) _
          (require-OnOk _ _)
          λ p found.
            bind-OnOk (λ q. q ≡ updated p) _ (copy_participant F p _ _) _ (copied p)
              λ q e. record {
                old = p;
                new = q;
                found = found;
                written = refl;
                capital = ap (λ (r : ParticipantState F). r.capital) e;
                holdings = ap (λ (r : ParticipantState F). r.holdings) e;
                risk = ap (λ (r : ParticipantState F). r.risk_tolerance) e;
                count = refl;
                capital_changes = refl;
                holdings_changes = refl;
              }

  -- The sums over all participants.
  abbrev pub capital_total : Ledger F → ℤ
  capital_total l = total (λ p. p.capital) l.participants

  abbrev pub holdings_total : Ledger F → ℤ
  holdings_total l = total (λ p. p.holdings) l.participants

  module _ {id : String} {capital_change holdings_change : ℤ} {l l' : Ledger F}
      (s : Settled id capital_change holdings_change l l') where
    pub capital_total-settle : capital_total l' ≡ capital_total l +ℤ capital_change
    capital_total-settle = rw s.written (
        omega (
          int_laws,
          parts_of_eq (total-set_item (λ p. p.capital) l.participants id s.new s.old s.found),
          parts_of_eq s.capital,
        ))

    pub holdings_total-settle : holdings_total l' ≡ holdings_total l +ℤ holdings_change
    holdings_total-settle = rw s.written (
        omega (
          int_laws,
          parts_of_eq (total-set_item (λ p. p.holdings) l.participants id s.new s.old s.found),
          parts_of_eq s.holdings,
        ))
