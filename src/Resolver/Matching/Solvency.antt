-- ===== src/Resolver/Matching/Solvency.antt =====
-- No trade takes more than a participant has.
use mathlib.Core.Path.{◌≡◌, sym, ◌∙◌, subst}
use mathlib.Core.Bool.{Bool}
use mathlib.Core.Option.{some}
use mathlib.Core.List.{List}
use mathlib.Core.Logic.{inl, inr}
use text.Mathlib.Text.{◌==◌}
use younggeul.Prelude.{
  ℤ, pos, negsuc, ◌+ℤ◌, ◌-ℤ◌, ◌≤ℤ◌, String, get, get-set_item, keys, keys-set_item, AllValues,
  AllValues-get, AllValues-set_item, int_laws, some-eq, Bool-cases, if◌then◌else◌,
}
use younggeul.Errors.{OnOk, OnOk_mono}
use younggeul.Floats.{FloatOps}
use younggeul.State.{ParticipantState, IsValidParticipant}
use younggeul.Resolver.Matching.{Ledger, Matching, Turn}
use younggeul.Resolver.Matching.Settle.{Settled}
use younggeul.Resolver.Matching.Rule.{AtTurn, match_one, match_all, match_buyers-OnOk, offer}
use younggeul.Resolver.Matching.Outcome.{
  Outcome, full, poor, sold_out, bought, traded, match_buyer-Outcome, CanBuy, HasStock,
}

module _ (F : FloatOps) where
  pub record IsSolvent (p : ParticipantState F) : Type 0 where
    pub risk : IsValidParticipant F p
    pub capital : pos 0 ≤ℤ p.capital
    pub holdings : pos 0 ≤ℤ p.holdings

  -- The participants are those of `ids`, in that order, and all are solvent.
  pub record AllSolvent (ids : List String) (l : Ledger F) : Type 0 where
    pub same_keys : keys l.participants ≡ ids
    pub solvent : AllValues IsSolvent l.participants

  module _ {ids : List String} {id : String} {capital_change holdings_change : ℤ}
      {l l' : Ledger F} where
    pub settle-AllSolvent :
        (s : Settled F id capital_change holdings_change l l')
        → pos 0 ≤ℤ s.old.capital +ℤ capital_change
        → pos 0 ≤ℤ s.old.holdings +ℤ holdings_change
        → AllSolvent ids l
        → AllSolvent ids l'
    settle-AllSolvent s c h v =
        let old : IsSolvent s.old = AllValues-get IsSolvent l.participants id v.solvent s.found in
        record {
          same_keys =
              rw s.written (keys-set_item l.participants id s.new s.old s.found ∙ v.same_keys);
          solvent = rw s.written (
              AllValues-set_item IsSolvent l.participants id s.new v.solvent (record {
                risk = rw s.risk old.risk;
                capital = rw s.capital c;
                holdings = rw s.holdings h;
              }));
        }

  module _ (price matched : ℤ) (natural : Bool) (worth : pos 0 ≤ℤ price) (ids : List String) where
    abbrev offered : String → Matching F → List String → Matching F
    offered id m = offer F price matched natural id m.ledger m.actual_matches

    abbrev Solvent : Matching F → Type 0
    Solvent m = AllSolvent ids m.ledger

    buyer-AllSolvent :
        {id : String} (m : Matching F) (paid : Ledger F)
        → CanBuy F price matched natural id m
        → Settled F id (pos 0 -ℤ price) (pos 1) m.ledger paid
        → AllSolvent ids m.ledger
        → AllSolvent ids paid
    buyer-AllSolvent {id} m paid c s v =
        let same : c.buyer ≡ s.old = some-eq (sym c.found ∙ s.found) in
        let funds : price ≤ℤ s.old.capital =
          subst (λ (p : ParticipantState F). price ≤ℤ p.capital) same c.funds in
        let old : IsSolvent s.old =
          AllValues-get IsSolvent m.ledger.participants id v.solvent s.found in
        settle-AllSolvent s (omega (int_laws, old.holdings)) (omega (int_laws, old.holdings)) v

    -- What the seller has is still there once the buyer has paid.
    stock_left :
        {id seller_id : String} (m : Matching F) (paid : Ledger F)
        → (b : Settled F id (pos 0 -ℤ price) (pos 1) m.ledger paid)
        → HasStock F m.ledger.participants seller_id
        → pos 0 ≤ℤ b.old.holdings
        → (p : ParticipantState F) → get paid.participants seller_id ≡ some p
        → pos 1 ≤ℤ p.holdings
    stock_left {id} {seller_id} m paid b h solvent p e =
        let now : (if id == seller_id then some b.new else get m.ledger.participants seller_id)
            ≡ some p =
          sym (get-set_item m.ledger.participants id seller_id b.new) ∙ (rw b.written at e) in
        elim (Bool-cases (id == seller_id)) [
          | inl k ↦
              subst (λ (q : ParticipantState F). pos 1 ≤ℤ q.holdings) (some-eq (rw k at now))
                (rw b.holdings (omega int_laws))
          | inr k ↦
              subst (λ (q : ParticipantState F). pos 1 ≤ℤ q.holdings)
                (some-eq (sym h.found ∙ (rw k at now))) h.stock
        ]

    seller-AllSolvent :
        {id seller_id : String} (m : Matching F) (paid received : Ledger F)
        → (b : Settled F id (pos 0 -ℤ price) (pos 1) m.ledger paid)
        → HasStock F m.ledger.participants seller_id
        → pos 0 ≤ℤ b.old.holdings
        → Settled F seller_id price (negsuc 0) paid received
        → AllSolvent ids paid
        → AllSolvent ids received
    seller-AllSolvent {id} {seller_id} m paid received b h solvent s v =
        let stock : pos 1 ≤ℤ s.old.holdings = stock_left m paid b h solvent s.old s.found in
        let old : IsSolvent s.old =
          AllValues-get IsSolvent paid.participants seller_id v.solvent s.found in
        settle-AllSolvent s (omega (int_laws, old.capital)) (omega int_laws) v

    turn-AllSolvent :
        {id : String} {m : Matching F} {t : Turn F}
        → Outcome F price matched natural id m t
        → Solvent m
        → AtTurn F price matched natural Solvent t
    turn-AllSolvent (full h) v = v
    turn-AllSolvent poor v = v
    turn-AllSolvent (sold_out n k) v = v
    turn-AllSolvent {id} {m} (bought n c k b) v =
        let p = buyer-AllSolvent m b.paid c b.buyer_settled v in
        rw b.ledger (record { same_keys = p.same_keys; solvent = p.solvent })
    turn-AllSolvent {id} {m} (traded seller_id rest c k h t) v =
        let b = t.buyer_settled in
        let old : IsSolvent b.old =
          AllValues-get IsSolvent m.ledger.participants id v.solvent b.found in
        let p =
          seller-AllSolvent m t.paid t.received b h old.holdings t.seller_settled
            (buyer-AllSolvent m t.paid c b v) in
        rw t.ledger (record { same_keys = p.same_keys; solvent = p.solvent })

    -- A loop over the buyers leaves every participant solvent, and drops or adds none.
    pub match_buyers-AllSolvent :
        (buyers : List String) (m : Matching F)
        → Solvent m
        → OnOk Solvent (match_all F price matched natural buyers m)
    match_buyers-AllSolvent buyers m v =
        match_buyers-OnOk F price matched natural Solvent
          (λ id m' v'.
            OnOk_mono _ _ (match_one F price matched natural id m') (λ t o. turn-AllSolvent o v')
              (match_buyer-Outcome F price matched natural id m'))
          buyers m v
