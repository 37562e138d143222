-- ===== src/Resolver/Matching/Rule.antt =====
-- Proof rules for the loop over the buyers and for one trade.
use mathlib.Core.Path.{◌≡◌, refl}
use mathlib.Core.Bool.{Bool}
use mathlib.Core.List.{List, [], ◌∷◌}
use younggeul.Prelude.{ℕ, suc, ℤ, pos, negsuc, ◌-ℤ◌, String, All}
use younggeul.Errors.{Result, OnOk, bind-OnOk, Returns, bind-Returns}
use younggeul.Floats.{FloatOps}
use younggeul.Resolver.Matching.{
  Ledger, Matching, Turn, stop, next, settle, sell_side, trade, match_buyer, match_buyers,
}
use younggeul.Resolver.Matching.Settle.{Settled, settle-Settled}

module _ (F : FloatOps) (price matched : ℤ) (natural : Bool) where
  abbrev pub AtTurn : (Matching F → Type 0) → Turn F → Type 0
  AtTurn P (stop m) = P m
  AtTurn P (next m) = P m

  abbrev pub match_one : String → Matching F → Result (Turn F)
  match_one = match_buyer F price matched natural

  abbrev pub match_all : List String → Matching F → Result (Matching F)
  match_all = match_buyers F price matched natural

  abbrev pub AtNext : (Matching F → Type 0) → Turn F → Type 0
  AtNext P (stop m) = ⊥
  AtNext P (next m) = P m

  module _ (P : Matching F → Type 0) where
    -- What every turn keeps, the loop keeps.
    pub match_buyers-OnOk :
        ((id : String) (m : Matching F) → P m → OnOk (AtTurn P) (match_one id m))
        → (ids : List String) (m : Matching F) → P m
        → OnOk P (match_all ids m)
    unfolding match_buyers
    match_buyers-OnOk keep [] m p = p
    match_buyers-OnOk keep (id ∷ rest) m p =
        bind-OnOk (AtTurn P) P (match_one id m) _ (keep id m p)
          (elim [ stop m' ↦ λ p'. p' | next m' ↦ match_buyers-OnOk keep rest m' ])

    -- The same, where every turn is known to give a result.
    pub match_buyers-Returns :
        (Q : String → Type 0)
        → ((id : String) (m : Matching F) → Q id → P m → Returns (AtTurn P) (match_one id m))
        → (ids : List String) (m : Matching F) → All Q ids
        → P m
        → Returns P (match_all ids m)
    unfolding match_buyers
    match_buyers-Returns Q keep [] m q p = p
    match_buyers-Returns Q keep (id ∷ rest) m q p =
        bind-Returns (AtTurn P) P (match_one id m) _ (keep id m q.0 p)
          (elim [ stop m' ↦ λ p'. p' | next m' ↦ match_buyers-Returns Q keep rest m' q.1 ])

  -- A trade without a seller: the buyer's side, and one more match.
  pub record Bought (buyer_id : String) (m m' : Matching F) : Type 0 where
    pub paid : Ledger F
    pub buyer_settled : Settled F buyer_id (pos 0 -ℤ price) (pos 1) m.ledger paid
    pub ledger : m'.ledger ≡ record paid { total_matched = suc paid.total_matched }
    pub sellers : m'.sellers ≡ []
    pub matches : m'.actual_matches ≡ suc m.actual_matches

  -- A trade with the seller at the head of the list.
  pub record Traded (buyer_id seller_id : String) (rest : List String) (m m' : Matching F)
      : Type 0 where
    pub paid : Ledger F
    pub received : Ledger F
    pub buyer_settled : Settled F buyer_id (pos 0 -ℤ price) (pos 1) m.ledger paid
    pub seller_settled : Settled F seller_id price (negsuc 0) paid received
    pub ledger : m'.ledger ≡ record received { total_matched = suc received.total_matched }
    pub sellers : m'.sellers ≡ rest
    pub matches : m'.actual_matches ≡ suc m.actual_matches

  module _ (id : String) (l : Ledger F) (actual : ℕ) where
    abbrev pub offer : List String → Matching F
    offer sellers = record { ledger = l; sellers = sellers; actual_matches = actual }

    pub trade-Bought :
        OnOk (AtNext (Bought id (offer []))) (trade F price matched natural id (offer []))
    unfolding trade
    trade-Bought =
        bind-OnOk _ _ (settle F id (pos 0 -ℤ price) (pos 1) l) _ (settle-Settled F id _ _ l)
          λ paid s. record {
            paid = paid;
            buyer_settled = s;
            ledger = refl;
            sellers = refl;
            matches = refl;
          }

    sold :
        (seller_id : String) (rest : List String) (paid : Ledger F)
        → Settled F id (pos 0 -ℤ price) (pos 1) l paid
        → OnOk
            (Traded id seller_id rest (offer (seller_id ∷ rest)))
            (sell_side F price matched natural (seller_id ∷ rest) actual paid)
    unfolding sell_side
    sold seller_id rest paid s =
        bind-OnOk _ _ (settle F seller_id price (negsuc 0) paid) _
          (settle-Settled F seller_id _ _ paid)
          λ received r. record {
            paid = paid;
            received = received;
            buyer_settled = s;
            seller_settled = r;
            ledger = refl;
            sellers = refl;
            matches = refl;
          }

    pub trade-Traded :
        (seller_id : String) (rest : List String)
        → OnOk
            (AtNext (Traded id seller_id rest (offer (seller_id ∷ rest))))
            (trade F price matched natural id (offer (seller_id ∷ rest)))
    unfolding trade
    trade-Traded seller_id rest =
        bind-OnOk _ _ (settle F id (pos 0 -ℤ price) (pos 1) l) _ (settle-Settled F id _ _ l)
          λ paid s.
            bind-OnOk (Traded id seller_id rest (offer (seller_id ∷ rest))) _
              (sell_side F price matched natural (seller_id ∷ rest) actual paid) _
              (sold seller_id rest paid s) (λ m' t. t)
