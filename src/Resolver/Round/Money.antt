-- ===== src/Resolver/Round/Money.antt =====
-- What a round does to the sums of capital and of holdings.
use mathlib.Core.Path.{◌≡◌, ◌∙◌}
use mathlib.Core.Bool.{Bool, true, false}
use mathlib.Core.List.{List, []}
use native.Mathlib.Omega.{arith}
use younggeul.Prelude.{
  ◌≤◌, pos, ◌+ℤ◌, ◌≤ℤ◌, max_ℤ, ≤ℤ-min_ℤ, min_ℤ-≤ℤ, ≤ℤ-max_ℤ, int_laws, ◌==◌, String, Dict, AllItems,
  AllItems-get, length, length-sorted, length-eq-zero, ==_iff, sorted, str_leb,
}
use younggeul.Errors.{ok, OnOk, OnOk-ok}
use younggeul.Floats.{FloatOps}
use younggeul.State.{SegmentState, ParticipantState}
use younggeul.Resolver.Buckets.{Bucket}
use younggeul.Resolver.Buckets.Counted.{IsCounted, Placed}
use younggeul.Resolver.Clearing.{clear}
use younggeul.Resolver.Matching.{Ledger, Matching}
use younggeul.Resolver.Matching.Settle.{capital_total, holdings_total}
use younggeul.Resolver.Matching.Conservation.{
  Balanced, match_buyers-Balanced, supplied, Balanced_bounds, Balanced_exact,
}
use younggeul.Resolver.Round.{Progress, match_segment, resolve_segments}
use younggeul.Resolver.Round.Segments.{Resolved, resolve_segments-OnOk}

module _ (F : FloatOps) where
  -- There are no more matches than buy actions, and the demand is not negative.
  pub matched_bounds :
      (b : Bucket F) (segment : SegmentState F)
      → (pos 0 ≤ℤ (clear F b segment).matched_transactions)
        × ((clear F b segment).matched_transactions ≤ℤ pos b.buy_count)
  unfolding clear
  matched_bounds b segment =
      let supply = F.trunc (F.mul (F.of_int segment.current_volume) (F.decimal (pos 1) 1)) in
      (
        ≤ℤ-min_ℤ (pos b.buy_count) (pos b.sell_count +ℤ max_ℤ (pos 0) supply) (pos 0) (omega arith)
            (omega (int_laws, ≤ℤ-max_ℤ (pos 0) supply)),
        min_ℤ-≤ℤ (pos b.buy_count) _,
      )

  -- A price is at least 1.
  pub price_pos :
      (b : Bucket F) (segment : SegmentState F) → pos 1 ≤ℤ (clear F b segment).new_median_price
  unfolding clear
  price_pos b segment = ≤ℤ-max_ℤ (pos 1) _

  price_nonneg :
      (b : Bucket F) (segment : SegmentState F) → pos 0 ≤ℤ (clear F b segment).new_median_price
  price_nonneg b segment = omega (arith, price_pos b segment)

  -- `sell_count == 0` says that there is no seller.
  no_sellers :
      (b : Bucket F)
      → b.sell_count ≡ length b.sellers
      → (b.sell_count == 0) ≡ true
      → sorted str_leb b.sellers ≡ []
  no_sellers b counted h =
      length-eq-zero (sorted str_leb b.sellers)
        (omega (arith, length-sorted str_leb b.sellers, (==_iff b.sell_count 0).0 h))

  supplied-zero : (natural : Bool) → supplied natural 0 ≡ 0
  supplied-zero natural = ground arith

  module _ (world : Dict (SegmentState F)) (participants : Dict (ParticipantState F)) where
    -- The trades of one segment: without a seller in the bucket, every match takes the price from a
    -- buyer and gives it a unit from outside; else both sums stay as they were. The matches are
    -- counted, and there are no more than the demand allows.
    pub match_segment-Balanced :
        (b : Bucket F) (segment : SegmentState F) (l : Ledger F) (m : Matching F)
        → IsCounted F world participants b
        → match_segment F b (clear F b segment) l ≡ ok m
        → Balanced F
            (clear F b segment).new_median_price
            (clear F b segment).matched_transactions
            (b.sell_count == 0)
            l
            m
    unfolding match_segment
    match_segment-Balanced b segment l m v e =
        let natural = b.sell_count == 0 in
        OnOk-ok _ _
          (match_buyers-Balanced F _ _ natural l (sorted str_leb b.buyers) _ (record {
            capital = rw supplied-zero (omega int_laws);
            holdings = rw supplied-zero (omega int_laws);
            count = omega arith;
            bound = (matched_bounds b segment).0;
            no_sellers = no_sellers b v.sell_count;
          }))
          e

    -- The ledger against the one that the round began with.
    pub record Conserved (buckets : Dict (Bucket F)) (start : Ledger F) (s : Progress F)
        : Type 0 where
      pub capital : capital_total F s.ledger ≤ℤ capital_total F start
      pub holdings : holdings_total F start ≤ℤ holdings_total F s.ledger
      pub holdings_bound :
          holdings_total F s.ledger +ℤ pos start.total_matched
          ≤ℤ holdings_total F start +ℤ pos s.ledger.total_matched
      pub exact :
          AllItems (λ code b. 1 ≤ b.sell_count) buckets
          → (capital_total F s.ledger ≡ capital_total F start)
            × (holdings_total F s.ledger ≡ holdings_total F start)

    module _ (buckets : Dict (Bucket F)) (start : Ledger F)
        (placed : AllItems (Placed F world participants) buckets) where
      segment-Conserved :
          (gu_code : String) (s s' : Progress F)
          → Resolved F buckets gu_code s s'
          → Conserved buckets start s
          → Conserved buckets start s'
      segment-Conserved gu_code s s' r v =
          let c = clear F r.bucket r.segment in
          let counted =
            (AllItems-get (Placed F world participants) buckets gu_code placed r.has_bucket).1 in
          let b = match_segment-Balanced r.bucket r.segment s.ledger r.matching counted r.matched in
          let (down, up, few) =
            Balanced_bounds F _ _ _ s.ledger b (price_nonneg r.bucket r.segment) in
          record {
            capital = rw r.ledger (omega (int_laws, v.capital));
            holdings = rw r.ledger (omega (int_laws, v.holdings));
            holdings_bound = rw r.ledger (omega (int_laws, b.count, v.holdings_bound));
            exact = λ all.
                let n : (r.bucket.sell_count == 0) ≡ false = ground (
                  arith,
                  AllItems-get (λ code k. 1 ≤ k.sell_count) buckets gu_code all r.has_bucket,
                ) in
                let (same, still) = Balanced_exact F _ _ _ s.ledger b n in
                rw r.ledger (same ∙ (v.exact all).0, still ∙ (v.exact all).1);
          }

      -- From the buckets of the first loop: no round creates capital or destroys units, the units
      -- that it adds are at most its matches, and if every bucket has a seller both sums stay.
      pub resolve_segments-Conserved :
          (codes : List String) (s : Progress F)
          → Conserved buckets start s
          → OnOk (Conserved buckets start) (resolve_segments F buckets codes s)
      resolve_segments-Conserved =
          resolve_segments-OnOk F buckets (Conserved buckets start) segment-Conserved
