-- ===== src/Examples/Populated.antt =====
-- The theorems on the initial world, applied to two districts, of which one has metrics, and to a
-- roster of four participants.
use mathlib.Core.Path.{◌≡◌}
use mathlib.Core.List.{List, [], ◌∷◌}
use younggeul.Prelude.{ℕ, pos, String, Dict, length}
use younggeul.Errors.{Returns, OnOk}
use younggeul.Gold.{GoldDistrictMonthlyMetrics}
use younggeul.World.{build_world}
use younggeul.World.Participants.{RoleBucketSpec, ParticipantRosterSpec, build_participants}
use younggeul.World.Count.{wanted, build_participants-count}
use younggeul.State.{Role, buyer, landlord, neutral}
use younggeul.Examples.Round.{world}
use younggeul.World.Segments.{IsBuiltFor, build_world-IsBuiltFor}
use younggeul.Examples.Fixed.{fixed, fixed_laws}
use younggeul.Examples.Published.{row}

abbrev metrics : Dict (GoldDistrictMonthlyMetrics fixed)
metrics = ("11680", row) ∷ []

abbrev districts : List String
districts = "11680" ∷ "11440" ∷ []

build_world-IsBuiltFor_example :
    Returns
      (IsBuiltFor fixed fixed_laws metrics districts ([], []))
      (build_world fixed metrics [] districts ([], []))
build_world-IsBuiltFor_example =
    build_world-IsBuiltFor fixed fixed_laws metrics [] districts ([], []) tt tt

abbrev bucket : Role → ℕ → RoleBucketSpec fixed
bucket role count = record {
  role = role;
  count = count;
  capital_min_multiplier = fixed.decimal (pos 5) 1;
  capital_max_multiplier = fixed.decimal (pos 15) 1;
  holdings_min = 0;
  holdings_max = 2;
  risk_min = fixed.decimal (pos 2) 1;
  risk_max = fixed.decimal (pos 8) 1;
  sentiment_bias = neutral;
}

abbrev roster : ParticipantRosterSpec fixed
roster = record {
  seed = "seed";
  buckets = bucket buyer 2 ∷ bucket landlord 1 ∷ bucket buyer 1 ∷ [];
}

build_participants-count_example :
    OnOk
      (λ ps. length ps ≡ wanted fixed (λ _ _. 7) roster.buckets)
      (build_participants fixed (λ _ _. 7) roster "snapshot" "base" world)
build_participants-count_example =
    build_participants-count fixed (λ _ _. 7) roster "snapshot" "base" world
