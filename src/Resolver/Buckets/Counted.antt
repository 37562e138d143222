-- ===== src/Resolver/Buckets/Counted.antt =====
-- What the first loop guarantees of its buckets.
use mathlib.Core.Path.{◌≡◌, refl}
use mathlib.Core.Bool.{true}
use mathlib.Core.List.{List, [], ◌∷◌, ◌++◌}
use mathlib.Core.Logic.{inl, inr}
use native.Mathlib.Omega.{arith}
use younggeul.Prelude.{
  String, Dict, get, has, All, All-append, AllItems, AllItems-get, AllItems-set_item, length,
  length-append, Bool-cases, Option-cases,
}
use younggeul.Errors.{Result-cases}
use younggeul.Floats.{FloatOps}
use younggeul.State.{ActionProposal, ActionType, buy, sell, ParticipantState, SegmentState}
use younggeul.Rounds.{validate_v01_action}
use younggeul.Resolver.Buckets.{
  Bucket, Warning, empty_bucket, bucket_of, count_side, put_action, collect_action, collect,
}

module _ (F : FloatOps) (world : Dict (SegmentState F))
    (participants : Dict (ParticipantState F)) where
  abbrev Known : String → Type 0
  Known id = has participants id ≡ true

  -- The counts are those of the lists, and only participants trade.
  pub record IsCounted (b : Bucket F) : Type 0 where
    pub buy_count : b.buy_count ≡ length b.buyers
    pub sell_count : b.sell_count ≡ length b.sellers
    pub buyers : All Known b.buyers
    pub sellers : All Known b.sellers

  -- The bucket stands under a segment of the world.
  abbrev pub Placed : String → Bucket F → Type 0
  Placed code b = (has world code ≡ true) × IsCounted b

  empty_bucket-IsCounted : IsCounted (empty_bucket F)
  empty_bucket-IsCounted = record { buy_count = refl; sell_count = refl; buyers = tt; sellers = tt }

  count_side-IsCounted :
      (t : ActionType) (id : String) (a : ActionProposal F) (b : Bucket F)
      → Known id
      → IsCounted b
      → IsCounted (count_side F t id a b)
  count_side-IsCounted buy id a b k v = record {
    buy_count = omega (arith, length-append b.buyers (id ∷ []), v.buy_count);
    sell_count = v.sell_count;
    buyers = All-append Known b.buyers (id ∷ []) v.buyers (k, tt);
    sellers = v.sellers;
  }
  count_side-IsCounted sell id a b k v = record {
    buy_count = v.buy_count;
    sell_count = omega (arith, length-append b.sellers (id ∷ []), v.sell_count);
    buyers = v.buyers;
    sellers = All-append Known b.sellers (id ∷ []) v.sellers (k, tt);
  }
  count_side-IsCounted _ id a b k v = v

  put_action-IsCounted :
      (id : String) (a : ActionProposal F) (b : Bucket F)
      → Known id
      → IsCounted b
      → IsCounted (put_action F id a b)
  unfolding put_action
  put_action-IsCounted id a b k v =
      count_side-IsCounted a.action_type id a (record b { actions = b.actions ++ a ∷ [] }) k
        (record {
          buy_count = v.buy_count;
          sell_count = v.sell_count;
          buyers = v.buyers;
          sellers = v.sellers;
        })

  bucket_of-IsCounted :
      (buckets : Dict (Bucket F)) (code : String)
      → AllItems Placed buckets
      → IsCounted (bucket_of F (get buckets code))
  bucket_of-IsCounted buckets code v = elim (Option-cases (get buckets code)) [
    | inl e ↦ rw e empty_bucket-IsCounted
    | inr (b, e) ↦ rw e (AllItems-get Placed buckets code v e).1
  ]

  collect_action-Placed :
      (id : String) (a : ActionProposal F) (acc : Dict (Bucket F) × List Warning)
      → AllItems Placed acc.0
      → AllItems Placed (collect_action F world participants id a acc).0
  unfolding collect_action
  collect_action-Placed id a (buckets, warnings) v =
      let code = a.target_segment in
      elim (Bool-cases (has participants id)) [
        | inr k ↦ rw k v
        | inl k ↦ elim (Result-cases (validate_v01_action F a)) [
          | inr (e, h) ↦ rw (k, h) v
          | inl (u, h) ↦ elim (Bool-cases (has world code)) [
            | inr w ↦ rw (k, h, w) v
            | inl w ↦
                rw (k, h, w)
                  (AllItems-set_item Placed buckets code _ v
                    (w, put_action-IsCounted id a _ k (bucket_of-IsCounted buckets code v)))
          ]
        ]
      ]

  -- Every bucket is under a segment of the world, with its counts right and its traders known.
  pub collect-Placed :
      (actions : Dict (ActionProposal F)) (acc : Dict (Bucket F) × List Warning)
      → AllItems Placed acc.0
      → AllItems Placed (collect F world participants actions acc).0
  unfolding collect
  collect-Placed [] acc v = v
  collect-Placed ((id, a) ∷ rest) acc v =
      collect-Placed rest (collect_action F world participants id a acc)
        (collect_action-Placed id a acc v)
