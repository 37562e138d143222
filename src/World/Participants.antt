-- ===== src/World/Participants.antt =====
-- simulation/nodes/world_initializer.py, `_build_participants`, and the roster that it follows.
use Prim.Native.String.{◌++◌}
use mathlib.Core.Bool.{Bool, ◌&&◌}
use mathlib.Core.Option.{Option, none, some}
use mathlib.Core.List.{List, [], ◌∷◌, map}
use younggeul.Prelude.{
  ℕ, zero, suc, ◌+◌, ◌-◌, ◌/◌, ◌%◌, ℤ, pos, ◌+ℤ◌, ◌-ℤ◌, ltb_ℤ, min_ℤ, max_ℤ, not, ltb, leb, ◌==◌,
  String, Dict, get, set_item, values, str, length, sorted, if◌then◌else◌,
}
use younggeul.Errors.{Result, ok, err, ◌>>=◌, ◌>>◌, guard, validation_error, value_error}
use younggeul.Floats.{FloatOps, between}
use younggeul.State.{Role, Sentiment, SegmentState, ParticipantState, participant_state}
use younggeul.Reporting.{role_key}

pub record RoleBucketSpec (F : FloatOps) : Type 0 where
  pub role : Role
  pub count : ℕ
  pub capital_min_multiplier : F.Float
  pub capital_max_multiplier : F.Float
  pub holdings_min : ℕ
  pub holdings_max : ℕ
  pub risk_min : F.Float
  pub risk_max : F.Float
  pub sentiment_bias : Sentiment

pub record ParticipantRosterSpec (F : FloatOps) : Type 0 where
  pub seed : String
  pub buckets : List (RoleBucketSpec F)

-- `f"{n:04d}"`
abbrev pub four_digits : ℕ → String
four_digits n =
    if ltb n 10
    then "000" ++ str (pos n)
    else if ltb n 100
    then "00" ++ str (pos n)
    else if ltb n 1000
    then "0" ++ str (pos n)
    else str (pos n)

-- `a <= b` on `int`
abbrev pub leb_ℤ : ℤ → ℤ → Bool
leb_ℤ a b = not (ltb_ℤ b a)

abbrev pub at : List ℤ → ℕ → ℤ
at [] n = pos 0
at (x ∷ xs) zero = x
at (x ∷ xs) (suc n) = at xs n

-- `role_counters.get(role, 0)`
abbrev pub count_or_zero : Option ℕ → ℕ
count_or_zero none = 0
count_or_zero (some n) = n

module _ (F : FloatOps) (draw_32 : String → ℕ → ℕ) where
  open F use {Float, add, sub, mul, div, le, of_int, trunc, decimal}

  unfoldable pub role_bucket_spec : RoleBucketSpec F → Result (RoleBucketSpec F)
  role_bucket_spec b = do
    guard (leb 1 b.count && leb b.count 50) (validation_error "count")
    guard (between F (decimal (pos 0) 1) b.capital_min_multiplier (decimal (pos 100) 1))
        (validation_error "capital_min_multiplier")
    guard (between F (decimal (pos 0) 1) b.capital_max_multiplier (decimal (pos 100) 1))
        (validation_error "capital_max_multiplier")
    guard (leb b.holdings_min 20) (validation_error "holdings_min")
    guard (leb b.holdings_max 20) (validation_error "holdings_max")
    guard (between F (decimal (pos 0) 1) b.risk_min (decimal (pos 10) 1))
        (validation_error "risk_min")
    guard (between F (decimal (pos 0) 1) b.risk_max (decimal (pos 10) 1))
        (validation_error "risk_max")
    ok b

  -- `_deterministic_float`
  abbrev pub deterministic_float : String → ℕ → Float
  deterministic_float seed index = div (of_int (pos (draw_32 seed index))) (of_int (pos 4294967296))

  -- `_deterministic_int`
  unfoldable pub deterministic_int : String → ℕ → ℕ → ℕ → ℤ
  deterministic_int seed index low high =
      if low == high
      then pos low
      else pos low
        +ℤ trunc (mul (deterministic_float seed index) (of_int (pos high -ℤ pos low +ℤ pos 1)))

  -- `a == b` on floats
  abbrev pub eq_float : Float → Float → Bool
  eq_float a b = le a b && le b a

  -- `_deterministic_interpolate`
  unfoldable pub deterministic_interpolate : String → ℕ → Float → Float → Float
  deterministic_interpolate seed index low high =
      if eq_float low high
      then low
      else add low (mul (sub high low) (deterministic_float seed index))

  -- `int(median(prices))`, of prices in order
  abbrev pub median_of : List ℤ → Result ℤ
  median_of [] = err (value_error "no median for empty data")
  median_of (p ∷ ps) =
      let n = length (p ∷ ps) in
      ok (
        if n % 2 == 1
        then at (p ∷ ps) (n / 2)
        else trunc (div (of_int (at (p ∷ ps) (n / 2 - 1) +ℤ at (p ∷ ps) (n / 2))) (of_int (pos 2))))

  unfoldable pub reference_price : Dict (SegmentState F) → Result ℤ
  reference_price world =
      median_of (sorted leb_ℤ (map (λ s. s.current_median_price) (values world)))

  -- What the loops keep.
  pub record Populating : Type 0 where
    pub participants : Dict (ParticipantState F)
    pub role_counters : Dict ℕ
    pub rng_index : ℕ

  abbrev pub capital_of : ℤ → RoleBucketSpec F → String → ℕ → ℤ
  capital_of price b seed index =
      let low = trunc (mul (of_int price) b.capital_min_multiplier) in
      let high = trunc (mul (of_int price) b.capital_max_multiplier) in
      trunc
        (deterministic_interpolate seed index (of_int (min_ℤ low high)) (of_int (max_ℤ low high)))

  abbrev pub participant_id_of : RoleBucketSpec F → ℕ → String
  participant_id_of b n = role_key b.role ++ ("-" ++ four_digits n)

  -- `for _ in range(bucket.count): …`, with the participants of the role so far
  unfoldable pub populate_bucket :
      ℕ → ℕ → ℤ → RoleBucketSpec F → String → Populating → Result (ℕ × Populating)
  unfolding deterministic_int deterministic_interpolate participant_state
  populate_bucket zero role_count price b seed p = ok (role_count, p)
  populate_bucket (suc n) role_count price b seed p = do
    let id = participant_id_of b (suc role_count)
    participant ← participant_state F (record {
      participant_id = id;
      role = b.role;
      capital = capital_of price b seed p.rng_index;
      holdings = deterministic_int seed (p.rng_index + 1) b.holdings_min b.holdings_max;
      sentiment = b.sentiment_bias;
      risk_tolerance = deterministic_interpolate seed (p.rng_index + 2) b.risk_min b.risk_max;
    })
    populate_bucket n (suc role_count) price b seed (record p {
      participants = set_item p.participants id participant;
      rng_index = p.rng_index + 3;
    })

  abbrev pub counted_role : RoleBucketSpec F → ℕ × Populating → Populating
  counted_role b (n, p) = record p { role_counters = set_item p.role_counters (role_key b.role) n }

  unfoldable pub populate : ℤ → List (RoleBucketSpec F) → String → Populating → Result Populating
  unfolding populate_bucket
  populate price [] seed p = ok p
  populate price (b ∷ bs) seed p = do
    done ←
        populate_bucket b.count (count_or_zero (get p.role_counters (role_key b.role))) price b seed
          p
    populate price bs seed (counted_role b done)

  -- `_build_participants`, with the texts that make the seed
  unfoldable pub build_participants :
      ParticipantRosterSpec F
      → String
      → String
      → Dict (SegmentState F)
      → Result (Dict (ParticipantState F))
  unfolding reference_price populate
  build_participants roster snapshot_id scenario_name world = do
    price ← reference_price world
    p ←
        populate price roster.buckets (snapshot_id ++ (roster.seed ++ scenario_name))
          (record { participants = []; role_counters = []; rng_index = 0 })
    ok p.participants
