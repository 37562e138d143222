-- ===== src/Resolver/Matching/Outcome.antt =====
-- What one buyer's turn can come to: the cases of the loop's body, with the tests that led there.
use mathlib.Core.Path.{◌≡◌, refl, ap}
use mathlib.Core.Bool.{Bool, true, false}
use mathlib.Core.Option.{some}
use mathlib.Core.List.{List, [], ◌∷◌, ◌++◌}
use mathlib.Core.Logic.{inl, inr}
use native.Mathlib.Omega.{arith}
use younggeul.Prelude.{ℕ, ℤ, pos, ◌≤ℤ◌, ltb_ℤ, not_ltb_ℤ→≤ℤ, String, Dict, get, Bool-cases}
use younggeul.Errors.{OnOk, bind-OnOk, OnOk_mono, if-OnOk, require, require-OnOk, key_error}
use younggeul.Floats.{FloatOps}
use younggeul.State.{ParticipantState}
use younggeul.Resolver.Matching.{
  Ledger, Matching, Turn, stop, next, try_trade, skip_sellers, match_buyer, trade,
}
use younggeul.Resolver.Matching.Settle.{Settled}
use younggeul.Resolver.Matching.Rule.{
  AtNext, AtTurn, match_one, match_all, match_buyers-OnOk, Bought, Traded, offer, trade-Bought,
  trade-Traded,
}

module _ (F : FloatOps) where
  -- The first seller, if there is one, has something to sell.
  pub record HasStock (participants : Dict (ParticipantState F)) (id : String) : Type 0 where
    pub seller : ParticipantState F
    pub found : get participants id ≡ some seller
    pub stock : pos 1 ≤ℤ seller.holdings

  -- The sellers that the `while` loop leaves are a rest of those that it was given.
  pub record Skipped (participants : Dict (ParticipantState F)) (sellers rest : List String)
      : Type 0 where
    pub passed : List String
    pub split : sellers ≡ passed ++ rest

  abbrev pub HeadHasStock : Dict (ParticipantState F) → List String → Type 0
  HeadHasStock participants [] = Unit
  HeadHasStock participants (id ∷ rest) = HasStock participants id

  abbrev Left : Dict (ParticipantState F) → List String → List String → Type 0
  Left participants sellers rest =
      Skipped participants sellers rest × HeadHasStock participants rest

  passed_over :
      (participants : Dict (ParticipantState F)) (id : String) (sellers rest : List String)
      → Left participants sellers rest
      → Left participants (id ∷ sellers) rest
  passed_over participants id sellers rest (s, h) =
      (record { passed = id ∷ s.passed; split = ap (λ (l : List String). id ∷ l) s.split }, h)

  pub skip_sellers-Left :
      (participants : Dict (ParticipantState F)) (sellers : List String)
      → OnOk (Left participants sellers) (skip_sellers F participants sellers)
  unfolding skip_sellers
  skip_sellers-Left participants [] = (record { passed = []; split = refl }, tt)
  skip_sellers-Left participants (id ∷ sellers) =
      bind-OnOk _ _ (require (get participants id) (key_error id)) _ (require-OnOk _ _) λ p found.
        elim (Bool-cases (ltb_ℤ (pos 0) p.holdings)) [
          | inl sells ↦ rw sells (
            record { passed = []; split = refl },
            record { seller = p; found = found; stock = ground arith },
          )
          | inr none_left ↦ rw none_left (
              OnOk_mono (Left participants sellers) _ (skip_sellers F participants sellers)
                (passed_over participants id sellers) (skip_sellers-Left participants sellers))
        ]

  module _ (price matched : ℤ) (natural : Bool) (id : String) (m : Matching F) where
    abbrev offered : List String → Matching F
    offered = offer F price matched natural id m.ledger m.actual_matches

    pub record CanBuy : Type 0 where
      pub room : ltb_ℤ (pos m.actual_matches) matched ≡ true
      pub buyer : ParticipantState F
      pub found : get m.ledger.participants id ≡ some buyer
      pub funds : price ≤ℤ buyer.capital

    pub data Outcome : Turn F → Type 0 where
      full : ltb_ℤ (pos m.actual_matches) matched ≡ false → Outcome (stop m)
      poor : Outcome (next m)
      sold_out :
          natural ≡ false → Skipped m.ledger.participants m.sellers [] → Outcome (stop (offered []))
      bought :
          {m' : Matching F}
          → natural ≡ true
          → CanBuy
          → Skipped m.ledger.participants m.sellers []
          → Bought F price matched natural id (offered []) m'
          → Outcome (next m')
      traded :
          {m' : Matching F} (seller_id : String) (rest : List String)
          → CanBuy
          → Skipped m.ledger.participants m.sellers (seller_id ∷ rest)
          → HasStock m.ledger.participants seller_id
          → Traded F price matched natural id seller_id rest (offered (seller_id ∷ rest)) m'
          → Outcome (next m')

    next-Bought :
        natural ≡ true
        → CanBuy
        → Skipped m.ledger.participants m.sellers []
        → (t : Turn F)
        → AtNext F price matched natural (Bought F price matched natural id (offered [])) t
        → Outcome t
    next-Bought n c k (stop m') b = elim b [ ]
    next-Bought n c k (next m') b = bought n c k b

    next-Traded :
        (seller_id : String) (rest : List String)
        → CanBuy
        → Skipped m.ledger.participants m.sellers (seller_id ∷ rest)
        → HasStock m.ledger.participants seller_id
        → (t : Turn F)
        → AtNext F price matched natural
            (Traded F price matched natural id seller_id rest (offered (seller_id ∷ rest)))
            t
        → Outcome t
    next-Traded seller_id rest c k h (stop m') b = elim b [ ]
    next-Traded seller_id rest c k h (next m') b = traded seller_id rest c k h b

    try_trade-Outcome :
        (rest : List String)
        → CanBuy
        → Left m.ledger.participants m.sellers rest
        → OnOk Outcome (try_trade F price matched natural id m.ledger m.actual_matches rest)
    unfolding try_trade
    try_trade-Outcome [] c (k, h) =
        if-OnOk Outcome natural _ _
          (λ n.
            OnOk_mono _ _ (trade F price matched natural id (offered [])) (next-Bought n c k)
              (trade-Bought F price matched natural id m.ledger m.actual_matches))
          (λ n. sold_out n k)
    try_trade-Outcome (seller_id ∷ rest) c (k, h) =
        OnOk_mono _ _ _ (next-Traded seller_id rest c k h)
          (trade-Traded F price matched natural id m.ledger m.actual_matches seller_id rest)

    -- Every turn that gives a result is one of these.
    pub match_buyer-Outcome : OnOk Outcome (match_one F price matched natural id m)
    unfolding match_buyer
    match_buyer-Outcome = elim (Bool-cases (ltb_ℤ (pos m.actual_matches) matched)) [
      | inl room ↦ rw room (
          bind-OnOk _ _ (require (get m.ledger.participants id) (key_error id)) _ (require-OnOk _ _)
            λ p found. elim (Bool-cases (ltb_ℤ p.capital price)) [
              | inl short ↦ rw short poor
              | inr funds ↦ rw funds (
                  bind-OnOk _ _ (skip_sellers F m.ledger.participants m.sellers) _
                    (skip_sellers-Left m.ledger.participants m.sellers)
                    λ rest left.
                      try_trade-Outcome rest
                        (record {
                          room = room;
                          buyer = p;
                          found = found;
                          funds = not_ltb_ℤ→≤ℤ p.capital price funds;
                        })
                        left)
            ])
      | inr no_room ↦ rw no_room (full no_room)
    ]

-- What every side of a trade keeps, and the counting of a match, the loop over the buyers keeps.
module _ (F : FloatOps) (P : Ledger F → Type 0)
    (count : (l : Ledger F) (n : ℕ) → P l → P (record l { total_matched = n }))
    (settled : (id : String) (c h : ℤ) (l l' : Ledger F) → Settled F id c h l l' → P l → P l') where
  module _ (price matched : ℤ) (natural : Bool) where
    abbrev Keeps : Matching F → Type 0
    Keeps m = P m.ledger

    turn-Keeps :
        {id : String} {m : Matching F} {t : Turn F}
        → Outcome F price matched natural id m t
        → P m.ledger
        → AtTurn F price matched natural Keeps t
    turn-Keeps (full h) p = p
    turn-Keeps poor p = p
    turn-Keeps (sold_out n k) p = p
    turn-Keeps {m = m} (bought n c k b) p =
        rw b.ledger (count b.paid _ (settled _ _ _ m.ledger b.paid b.buyer_settled p))
    turn-Keeps {m = m} (traded seller_id rest c k h t) p = rw t.ledger (
        count t.received _ (
          settled _ _ _ t.paid t.received t.seller_settled
            (settled _ _ _ m.ledger t.paid t.buyer_settled p)))

    pub match_buyers-Keeps :
        (buyers : List String) (m : Matching F)
        → P m.ledger
        → OnOk Keeps (match_all F price matched natural buyers m)
    match_buyers-Keeps buyers m p =
        match_buyers-OnOk F price matched natural Keeps
          (λ id m' p'.
            OnOk_mono _ _ (match_one F price matched natural id m') (λ t o. turn-Keeps o p')
              (match_buyer-Outcome F price matched natural id m'))
          buyers m p
