-- ===== src/Resolver/Matching.antt =====
-- `pure_resolve_round`, the trades of one segment: the loop over its buyers. The children prove.
pub mod Settle
pub mod Rule
pub mod Outcome
pub mod Conservation
pub mod Solvency
pub mod Books
pub mod Total
pub mod Traders
use mathlib.Core.Bool.{Bool}
use mathlib.Core.Option.{none, some}
use mathlib.Core.List.{List, [], ◌∷◌}
use younggeul.Prelude.{
  ℕ, suc, ℤ, pos, negsuc, ◌+ℤ◌, ◌-ℤ◌, ltb_ℤ, not, String, Dict, get, set_item, if◌then◌else◌,
}
use younggeul.Errors.{key_error, Result, ok, ◌>>=◌, require}
use younggeul.Floats.{FloatOps}
use younggeul.State.{ParticipantState, participant_state}

-- What the loops over the segments and over the buyers share and change.
pub record Ledger (F : FloatOps) : Type 0 where
  pub participants : Dict (ParticipantState F)
  pub capital_changes : Dict ℤ
  pub holdings_changes : Dict ℤ
  pub total_matched : ℕ

-- `sellers` is the list of sellers from `seller_index` on.
pub record Matching (F : FloatOps) : Type 0 where
  pub ledger : Ledger F
  pub sellers : List String
  pub actual_matches : ℕ

-- `break`, or on to the next buyer.
pub data Turn (F : FloatOps) : Type 0 where
  stop next : Matching F → Turn F

-- `changes.get(id, 0)`
abbrev pub change_of : Dict ℤ → String → ℤ
change_of changes id = elim (get changes id) [ none ↦ pos 0 | some n ↦ n ]

module _ (F : FloatOps) where
  -- `_copy_participant`, which runs the validator of `ParticipantState`.
  unfoldable pub copy_participant : ParticipantState F → ℤ → ℤ → Result (ParticipantState F)
  unfolding participant_state
  copy_participant p capital holdings =
      participant_state F (record p { capital = capital; holdings = holdings })

  -- One side of a trade: the participant's new state, and the two running changes.
  unfoldable pub settle : String → ℤ → ℤ → Ledger F → Result (Ledger F)
  unfolding copy_participant
  settle id capital_change holdings_change l = do
    p ← require (get l.participants id) (key_error id)
    q ← copy_participant p (p.capital +ℤ capital_change) (p.holdings +ℤ holdings_change)
    ok (record l {
      participants = set_item l.participants id q;
      capital_changes =
          set_item l.capital_changes id (change_of l.capital_changes id +ℤ capital_change);
      holdings_changes =
          set_item l.holdings_changes id (change_of l.holdings_changes id +ℤ holdings_change);
    })

  -- The `while` loop over the sellers: it passes over those with nothing to sell.
  unfoldable pub skip_sellers : Dict (ParticipantState F) → List String → Result (List String)
  skip_sellers participants [] = ok []
  skip_sellers participants (id ∷ rest) = do
    p ← require (get participants id) (key_error id)
    let further = skip_sellers participants rest
    if not (ltb_ℤ (pos 0) p.holdings) then further else ok (id ∷ rest)

  module _ (price matched : ℤ) (allow_natural_supply : Bool) where
    -- The seller's side, if there is a seller, and the counts.
    unfoldable pub sell_side : List String → ℕ → Ledger F → Result (Matching F)
    sell_side [] actual l = ok (record {
      ledger = record l { total_matched = suc l.total_matched };
      sellers = [];
      actual_matches = suc actual;
    })
    sell_side (id ∷ rest) actual l = do
      l' ← settle id price (negsuc 0) l
      ok (record {
        ledger = record l' { total_matched = suc l'.total_matched };
        sellers = rest;
        actual_matches = suc actual;
      })

    unfoldable pub trade : String → Matching F → Result (Turn F)
    unfolding sell_side
    trade buyer_id m = do
      l ← settle buyer_id (pos 0 -ℤ price) (pos 1) m.ledger
      m' ← sell_side m.sellers m.actual_matches l
      ok (next m')

    -- `if seller_index >= len(sellers) and not allow_natural_supply: break`
    unfoldable pub try_trade : String → Ledger F → ℕ → List String → Result (Turn F)
    unfolding trade
    try_trade buyer_id l actual [] =
        let m : Matching F = record { ledger = l; sellers = []; actual_matches = actual } in
        if allow_natural_supply then trade buyer_id m else ok (stop m)
    try_trade buyer_id l actual (id ∷ rest) =
        trade buyer_id (record { ledger = l; sellers = id ∷ rest; actual_matches = actual })

    -- The body of the `for` loop.
    unfoldable pub match_buyer : String → Matching F → Result (Turn F)
    unfolding skip_sellers
    match_buyer buyer_id m = if not (ltb_ℤ (pos m.actual_matches) matched) then ok (stop m) else do
      buyer ← require (get m.ledger.participants buyer_id) (key_error buyer_id)
      if ltb_ℤ buyer.capital price then ok (next m) else do
        sellers ← skip_sellers m.ledger.participants m.sellers
        try_trade buyer_id m.ledger m.actual_matches sellers

    unfoldable pub match_buyers : List String → Matching F → Result (Matching F)
    match_buyers [] m = ok m
    match_buyers (id ∷ rest) m =
        match_buyer id m >>= λ turn. elim turn [ stop m' ↦ ok m' | next m' ↦ match_buyers rest m' ]
