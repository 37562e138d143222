-- ===== src/Resolver/Matching/Total.antt =====
-- The trades of a segment raise nothing when the buyers and the sellers are participants.
use mathlib.Core.Path.{◌≡◌, ◌∙◌}
use mathlib.Core.Bool.{Bool, true}
use mathlib.Core.List.{List, [], ◌∷◌}
use native.Mathlib.Omega.{arith}
use younggeul.Prelude.{
  ℕ, ℤ, pos, negsuc, ◌-ℤ◌, ltb_ℤ, not, String, Dict, keys, keys-set_item, AllValues-set_item, knows,
  knows-get, All, All-suffix, AllValues, AllValues-get,
}
use younggeul.Errors.{OnOk_mono, IsOk, bind-IsOk, if-IsOk, Returns, Returns_of, OnOk-any}
use younggeul.Floats.{FloatOps}
use younggeul.State.{ParticipantState, IsValidParticipant}
use younggeul.Resolver.Matching.{
  Ledger, Matching, Turn, settle, skip_sellers, sell_side, trade, try_trade, match_buyer,
}
use younggeul.Resolver.Matching.Settle.{Settled, settle-Settled}
use younggeul.Resolver.Matching.Rule.{AtTurn, match_one, match_all, match_buyers-Returns}
use younggeul.Resolver.Matching.Outcome.{
  Outcome, full, poor, sold_out, bought, traded, match_buyer-Outcome, Skipped, skip_sellers-Left,
}

module _ (F : FloatOps) (ids : List String) where
  abbrev Known : String → Type 0
  Known id = knows ids id ≡ true

  -- The participants are those of `ids`, in that order, and their validators have passed.
  pub record Ready (l : Ledger F) : Type 0 where
    pub same_keys : keys l.participants ≡ ids
    pub valid : AllValues (IsValidParticipant F) l.participants

  pub settle-Ready :
      {id : String} {c h : ℤ} {l l' : Ledger F} → Settled F id c h l l' → Ready l → Ready l'
  settle-Ready {id} {l = l} s v =
      let old = AllValues-get (IsValidParticipant F) l.participants id v.valid s.found in
      record {
        same_keys =
            rw s.written (keys-set_item l.participants id s.new s.old s.found ∙ v.same_keys);
        valid = rw s.written (
            AllValues-set_item (IsValidParticipant F) l.participants id s.new v.valid
              (rw s.risk old));
      }

  settle-IsOk :
      (id : String) (c h : ℤ) (l : Ledger F) → Ready l → Known id → IsOk (settle F id c h l)
  unfolding settle
  settle-IsOk id c h l v k =
      let (p, e) = knows-get l.participants id (rw v.same_keys k) in
      let risk : IsValidParticipant F p =
        AllValues-get (IsValidParticipant F) l.participants id v.valid e in
      rw e (ground (arith, risk))

  skip_sellers-IsOk :
      (l : Ledger F) (sellers : List String)
      → Ready l
      → All Known sellers
      → IsOk (skip_sellers F l.participants sellers)
  unfolding skip_sellers
  skip_sellers-IsOk l [] v k = tt
  skip_sellers-IsOk l (id ∷ sellers) v k =
      let (p, e) = knows-get l.participants id (rw v.same_keys k.0) in
      rw e (
        if-IsOk (not (ltb_ℤ (pos 0) p.holdings)) _ _ (λ _. skip_sellers-IsOk l sellers v k.1)
          (λ _. tt))

  module _ (price matched : ℤ) (natural : Bool) where
    abbrev AllReady : Matching F → Type 0
    AllReady m = Ready m.ledger × All Known m.sellers

    sell_side-IsOk :
        (sellers : List String) (actual : ℕ) (l : Ledger F)
        → Ready l
        → All Known sellers
        → IsOk (sell_side F price matched natural sellers actual l)
    unfolding sell_side
    sell_side-IsOk [] actual l v k = tt
    sell_side-IsOk (id ∷ rest) actual l v k =
        bind-IsOk _ (settle F id price (negsuc 0) l) _ (settle-IsOk id price (negsuc 0) l v k.0)
          (settle-Settled F id _ _ l) (λ l' s. tt)

    trade-IsOk :
        (id : String) (m : Matching F)
        → Known id
        → AllReady m
        → IsOk (trade F price matched natural id m)
    unfolding trade
    trade-IsOk id m k (v, w) =
        bind-IsOk _ (settle F id (pos 0 -ℤ price) (pos 1) m.ledger) _
          (settle-IsOk id _ _ m.ledger v k) (settle-Settled F id _ _ m.ledger)
          λ l s.
            bind-IsOk (λ _. Unit) (sell_side F price matched natural m.sellers m.actual_matches l) _
              (sell_side-IsOk m.sellers m.actual_matches l (settle-Ready s v) w)
              (OnOk-any (sell_side F price matched natural m.sellers m.actual_matches l))
              (λ _ _. tt)

    try_trade-IsOk :
        (id : String) (m : Matching F) (rest : List String)
        → Known id
        → Ready m.ledger
        → All Known rest
        → IsOk (try_trade F price matched natural id m.ledger m.actual_matches rest)
    unfolding try_trade
    try_trade-IsOk id m [] k v w =
        if-IsOk natural _ _ (λ _. trade-IsOk id (record m { sellers = [] }) k (v, tt)) (λ _. tt)
    try_trade-IsOk id m (seller_id ∷ rest) k v w =
        trade-IsOk id (record m { sellers = seller_id ∷ rest }) k (v, w)

    -- The sellers that are left are among those that there were.
    rest-Known :
        (participants : Dict (ParticipantState F)) (sellers rest : List String)
        → Skipped F participants sellers rest
        → All Known sellers
        → All Known rest
    rest-Known participants sellers rest s w = All-suffix Known s.passed rest (rw s.split at w)

    match_buyer-IsOk :
        (id : String) (m : Matching F)
        → Known id
        → AllReady m
        → IsOk (match_one F price matched natural id m)
    unfolding match_buyer
    match_buyer-IsOk id m k (v, w) =
        if-IsOk (not (ltb_ℤ (pos m.actual_matches) matched)) _ _ (λ _. tt)
          λ _.
            let (p, e) = knows-get m.ledger.participants id (rw v.same_keys k) in
            rw e (
              if-IsOk (ltb_ℤ p.capital price) _ _ (λ _. tt)
                λ _.
                  bind-IsOk _ (skip_sellers F m.ledger.participants m.sellers) _
                    (skip_sellers-IsOk m.ledger m.sellers v w)
                    (skip_sellers-Left F m.ledger.participants m.sellers)
                    λ rest left.
                      try_trade-IsOk id m rest k v
                        (rest-Known m.ledger.participants m.sellers rest left.0 w))

    turn-AllReady :
        {id : String} {m : Matching F} {t : Turn F}
        → Outcome F price matched natural id m t
        → AllReady m
        → AtTurn F price matched natural AllReady t
    turn-AllReady (full h) v = v
    turn-AllReady poor v = v
    turn-AllReady (sold_out n k) (v, w) = (v, tt)
    turn-AllReady (bought n c k b) (v, w) =
        let p = settle-Ready b.buyer_settled v in
        (rw b.ledger (record { same_keys = p.same_keys; valid = p.valid }), rw b.sellers tt)
    turn-AllReady {m = m} (traded seller_id rest c k h t) (v, w) =
        let p = settle-Ready t.seller_settled (settle-Ready t.buyer_settled v) in
        let left = rest-Known m.ledger.participants m.sellers (seller_id ∷ rest) k w in
        (rw t.ledger (record { same_keys = p.same_keys; valid = p.valid }), rw t.sellers left.1)

    -- The loop over known buyers raises nothing.
    pub match_buyers-AllReady :
        (buyers : List String) (m : Matching F)
        → All Known buyers
        → AllReady m
        → Returns AllReady (match_all F price matched natural buyers m)
    match_buyers-AllReady buyers m k v =
        match_buyers-Returns F price matched natural AllReady Known
          (λ id m' k' v'.
            Returns_of _ (match_one F price matched natural id m') (match_buyer-IsOk id m' k' v') (
              OnOk_mono _ _ (match_one F price matched natural id m') (λ t o. turn-AllReady o v')
                (match_buyer-Outcome F price matched natural id m')))
          buyers m k v
