-- ===== src/Resolver/Matching/Conservation.antt =====
-- What the trades of a segment do to the sums of capital and of holdings, and how many there are.
use mathlib.Core.Path.{◌≡◌, refl, sym, ◌∙◌, ap}
use mathlib.Core.Bool.{Bool, true, false}
use mathlib.Core.List.{List, [], ◌∷◌, ◌++◌}
use mathlib.Core.Logic.{inl, inr}
use native.Mathlib.Omega.{arith}
use younggeul.Prelude.{
  ℕ, suc, ◌+◌, ℤ, pos, ◌+ℤ◌, ◌-ℤ◌, ◌≤ℤ◌, ◌≤◌, times, times_nonneg, String, Bool-cases, int_laws,
  parts_of_eq, if◌then◌else◌,
}
use younggeul.Errors.{OnOk, OnOk_mono}
use younggeul.Floats.{FloatOps}
use younggeul.Resolver.Matching.{Ledger, Matching, Turn}
use younggeul.Resolver.Matching.Settle.{
  capital_total, holdings_total, capital_total-settle, holdings_total-settle,
}
use younggeul.Resolver.Matching.Rule.{
  AtTurn, match_one, match_all, match_buyers-OnOk, Bought, Traded, offer,
}
use younggeul.Resolver.Matching.Outcome.{
  Outcome, full, poor, sold_out, bought, traded, match_buyer-Outcome, CanBuy,
}

not_nil : {A : Type 0} (xs : List A) (y : A) (ys : List A) → [] ≡ xs ++ y ∷ ys → ⊥
not_nil [] y ys e = cc
not_nil (x ∷ xs) y ys e = cc

rest_nil : {A : Type 0} (xs ys : List A) → [] ≡ xs ++ ys → ys ≡ []
rest_nil [] ys e = sym e
rest_nil (x ∷ xs) ys e = cc

-- The units that come from no seller.
abbrev pub supplied : Bool → ℕ → ℕ
supplied natural n = if natural then n else 0

module _ (F : FloatOps) (price matched : ℤ) (natural : Bool) where
  abbrev offered : String → Matching F → List String → Matching F
  offered id m = offer F price matched natural id m.ledger m.actual_matches

  module _ {id : String} (m : Matching F) {m' : Matching F}
      (b : Bought F price matched natural id (offered id m []) m') where
    bought-capital : capital_total F m'.ledger ≡ capital_total F m.ledger -ℤ price
    bought-capital =
        rw b.ledger (omega (int_laws, parts_of_eq (capital_total-settle F b.buyer_settled)))

    bought-holdings : holdings_total F m'.ledger ≡ holdings_total F m.ledger +ℤ pos 1
    bought-holdings = rw b.ledger (holdings_total-settle F b.buyer_settled)

    bought-count : m'.ledger.total_matched ≡ suc m.ledger.total_matched
    bought-count = rw b.ledger (ap suc b.buyer_settled.count)

  module _ {id seller_id : String} {rest : List String} (m : Matching F) {m' : Matching F}
      (t : Traded F price matched natural id seller_id rest
        (offered id m (seller_id ∷ rest))
        m') where
    traded-capital : capital_total F m'.ledger ≡ capital_total F m.ledger
    traded-capital = rw t.ledger (
        omega (
          int_laws,
          parts_of_eq (capital_total-settle F t.buyer_settled),
          parts_of_eq (capital_total-settle F t.seller_settled),
        ))

    traded-holdings : holdings_total F m'.ledger ≡ holdings_total F m.ledger
    traded-holdings = rw t.ledger (
        omega (
          int_laws,
          parts_of_eq (holdings_total-settle F t.buyer_settled),
          parts_of_eq (holdings_total-settle F t.seller_settled),
        ))

    traded-count : m'.ledger.total_matched ≡ suc m.ledger.total_matched
    traded-count = rw t.ledger (ap suc (t.seller_settled.count ∙ t.buyer_settled.count))

  module _ (start : Ledger F) where
    -- The books of the segment so far, against the ledger that it started with.
    pub record Balanced (m : Matching F) : Type 0 where
      pub capital :
          capital_total F m.ledger +ℤ times (supplied natural m.actual_matches) price
          ≡ capital_total F start
      pub holdings :
          holdings_total F m.ledger
          ≡ holdings_total F start +ℤ pos (supplied natural m.actual_matches)
      pub count : m.ledger.total_matched ≡ start.total_matched + m.actual_matches
      pub bound : pos m.actual_matches ≤ℤ matched
      pub no_sellers : natural ≡ true → m.sellers ≡ []

    Bought-Balanced :
        {id : String} {m m' : Matching F}
        → natural ≡ true
        → CanBuy F price matched natural id m
        → Bought F price matched natural id (offered id m []) m'
        → Balanced m
        → Balanced m'
    Bought-Balanced {m = m} n c b v = record {
      capital =
          rw (b.matches, n)
            (omega (int_laws, parts_of_eq (bought-capital m b), parts_of_eq (rw n at v.capital)));
      holdings =
          rw (b.matches, n)
            (omega (int_laws, parts_of_eq (bought-holdings m b), parts_of_eq (rw n at v.holdings)));
      count = rw b.matches (omega (arith, bought-count m b, v.count));
      bound = rw b.matches (ground (arith, c.room));
      no_sellers = λ _. b.sellers;
    }

    Traded-Balanced :
        {id seller_id : String} {rest : List String} {m m' : Matching F}
        → natural ≡ false
        → CanBuy F price matched natural id m
        → Traded F price matched natural id seller_id rest (offered id m (seller_id ∷ rest)) m'
        → Balanced m
        → Balanced m'
    Traded-Balanced {m = m} n c t v = record {
      capital =
          rw n
            (omega (int_laws, parts_of_eq (traded-capital m t), parts_of_eq (rw n at v.capital)));
      holdings =
          rw n
            (omega (int_laws, parts_of_eq (traded-holdings m t), parts_of_eq (rw n at v.holdings)));
      count = rw t.matches (omega (arith, traded-count m t, v.count));
      bound = rw t.matches (ground (arith, c.room));
      no_sellers = λ e. absurd (cc);
    }

    turn-Balanced :
        {id : String} {m : Matching F} {t : Turn F}
        → Outcome F price matched natural id m t
        → Balanced m
        → AtTurn F price matched natural Balanced t
    turn-Balanced (full h) v = v
    turn-Balanced poor v = v
    turn-Balanced (sold_out n k) v = record {
      capital = v.capital;
      holdings = v.holdings;
      count = v.count;
      bound = v.bound;
      no_sellers = λ e. refl;
    }
    turn-Balanced (bought n c k b) v = Bought-Balanced n c b v
    turn-Balanced (traded seller_id rest c k h t) v = elim (Bool-cases natural) [
      | inl n ↦ absurd (not_nil k.passed seller_id rest (sym (v.no_sellers n) ∙ k.split))
      | inr n ↦ Traded-Balanced n c t v
    ]

    -- The loop keeps the books, whoever buys.
    pub match_buyers-Balanced :
        (ids : List String) (m : Matching F)
        → Balanced m
        → OnOk Balanced (match_all F price matched natural ids m)
    match_buyers-Balanced ids m v =
        match_buyers-OnOk F price matched natural Balanced
          (λ id m' v'.
            OnOk_mono _ _ (match_one F price matched natural id m') (λ t o. turn-Balanced o v')
              (match_buyer-Outcome F price matched natural id m'))
          ids m v

    module _ {m : Matching F} (v : Balanced m) where
      -- Trading creates no capital, and at most one unit for each match.
      pub Balanced_bounds :
          pos 0 ≤ℤ price
          → (capital_total F m.ledger ≤ℤ capital_total F start)
            × (holdings_total F start ≤ℤ holdings_total F m.ledger)
            × (holdings_total F m.ledger ≤ℤ holdings_total F start +ℤ pos m.actual_matches)
      Balanced_bounds worth =
          let n = supplied natural m.actual_matches in
          let few : n ≤ m.actual_matches = ground arith in
          (
            omega (int_laws, parts_of_eq v.capital, times_nonneg n price worth),
            omega (int_laws, parts_of_eq v.holdings),
            omega (int_laws, parts_of_eq v.holdings),
          )

      -- Where every unit comes from a seller, the sums do not move.
      pub Balanced_exact :
          natural ≡ false
          → (capital_total F m.ledger ≡ capital_total F start)
            × (holdings_total F m.ledger ≡ holdings_total F start)
      Balanced_exact n = (
        omega (int_laws, parts_of_eq (rw n at v.capital)),
        omega (int_laws, parts_of_eq (rw n at v.holdings)),
      )
