-- ===== src/Resolver/Clearing.antt =====
-- `pure_resolve_round`, the numbers of one segment: pressure, price, volume, sentiment and trend.
use younggeul.Prelude.{ℤ, pos, negsuc, ◌+ℤ◌, ◌-ℤ◌, max_ℤ, min_ℤ, ltb, length, if◌then◌else◌}
use younggeul.Errors.{Result}
use younggeul.Floats.{FloatOps, clamp}
use younggeul.State.{SegmentState, Trend, up, down, flat, segment_state}
use younggeul.Resolver.Buckets.{Bucket}

pub record Clearing (F : FloatOps) : Type 0 where
  pub price_change_pct : F.Float
  pub new_median_price : ℤ
  pub matched_transactions : ℤ
  pub volume_change : ℤ
  pub new_volume : ℤ
  pub new_sentiment : F.Float
  pub price_trend : Trend

module _ (F : FloatOps) where
  open F use {Float, add, sub, mul, div, lt, of_int, trunc, decimal}

  unfoldable pub net_pressure : Bucket F → Float
  net_pressure b =
      let actions = length b.actions in
      div (sub b.buy_intensity_sum b.sell_intensity_sum)
        (of_int (pos (if ltb actions 1 then 1 else actions)))

  -- `if pct > 0.001 … elif pct < -0.001 … else …`
  unfoldable pub price_trend_of : Float → Trend
  price_trend_of pct =
      if lt (decimal (pos 1) 3) pct
      then up
      else if lt pct (decimal (negsuc 0) 3)
      then down
      else flat

  unfoldable pub clear : Bucket F → SegmentState F → Clearing F
  unfolding net_pressure price_trend_of
  clear b segment =
      let pressure = net_pressure b in
      let pct =
        clamp F (mul pressure (decimal (pos 5) 2)) (decimal (negsuc 4) 2) (decimal (pos 5) 2) in
      let volume = segment.current_volume in
      let matched =
        min_ℤ (pos b.buy_count)
          (pos b.sell_count +ℤ max_ℤ (pos 0) (trunc (mul (of_int volume) (decimal (pos 1) 1)))) in
      let change = matched -ℤ volume in
      record {
        price_change_pct = pct;
        new_median_price =
            max_ℤ (pos 1)
              (trunc (mul (of_int segment.current_median_price) (add (of_int (pos 1)) pct)));
        matched_transactions = matched;
        volume_change = change;
        new_volume = max_ℤ (pos 0) (volume +ℤ trunc (mul (of_int change) (decimal (pos 1) 1)));
        new_sentiment =
            clamp F (add segment.sentiment_index (mul pressure (decimal (pos 1) 1)))
              (decimal (pos 0) 1) (decimal (pos 10) 1);
        price_trend = price_trend_of pct;
      }

  -- `_copy_segment`, which runs the validators of `SegmentState`.
  unfoldable pub copy_segment : SegmentState F → Clearing F → Result (SegmentState F)
  unfolding segment_state
  copy_segment segment c = segment_state F (record segment {
    current_median_price = c.new_median_price;
    current_volume = c.new_volume;
    price_trend = c.price_trend;
    sentiment_index = c.new_sentiment;
  })
