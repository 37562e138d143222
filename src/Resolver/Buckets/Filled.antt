-- ===== src/Resolver/Buckets/Filled.antt =====
-- A bucket that a list of actions is put into.
use mathlib.Core.Path.{◌≡◌, refl, sym, ◌∙◌}
use mathlib.Core.Bool.{Bool, true, false}
use mathlib.Core.List.{List, [], ◌∷◌, ◌++◌}
use native.Mathlib.Omega.{arith}
use younggeul.Prelude.{
  ◌+◌, String, Dict, keys, values, length, append-append_one, append-nil, select,
}
use younggeul.Floats.{FloatOps}
use younggeul.State.{ActionProposal, ActionType, buy, sell}
use younggeul.Resolver.Buckets.{Bucket, count_side, put_action}

abbrev pub is_buy : ActionType → Bool
is_buy buy = true
is_buy _ = false

abbrev pub is_sell : ActionType → Bool
is_sell sell = true
is_sell _ = false

module _ (F : FloatOps) where
  -- The confidences, added from the left.
  unfoldable pub add_confidences : F.Float → List (ActionProposal F) → F.Float
  add_confidences sum [] = sum
  add_confidences sum (a ∷ rest) = add_confidences (F.add sum a.confidence) rest

  abbrev pub buys : Dict (ActionProposal F) → Dict (ActionProposal F)
  buys = select (λ e. is_buy e.1.action_type)

  abbrev pub sells : Dict (ActionProposal F) → Dict (ActionProposal F)
  sells = select (λ e. is_sell e.1.action_type)

  -- `b'` is `b` with the items put in.
  pub record IsFilled (b : Bucket F) (items : Dict (ActionProposal F)) (b' : Bucket F)
      : Type 0 where
    pub actions : b'.actions ≡ b.actions ++ values items
    pub buyers : b'.buyers ≡ b.buyers ++ keys (buys items)
    pub sellers : b'.sellers ≡ b.sellers ++ keys (sells items)
    pub buy_count : b'.buy_count ≡ b.buy_count + length (buys items)
    pub sell_count : b'.sell_count ≡ b.sell_count + length (sells items)
    pub buy_intensity_sum :
        b'.buy_intensity_sum ≡ add_confidences b.buy_intensity_sum (values (buys items))
    pub sell_intensity_sum :
        b'.sell_intensity_sum ≡ add_confidences b.sell_intensity_sum (values (sells items))

  pub IsFilled-nothing : (b : Bucket F) → IsFilled b [] b
  unfolding select add_confidences
  IsFilled-nothing b = record {
    actions = sym (append-nil b.actions);
    buyers = sym (append-nil b.buyers);
    sellers = sym (append-nil b.sellers);
    buy_count = omega arith;
    sell_count = omega arith;
    buy_intensity_sum = refl;
    sell_intensity_sum = refl;
  }

  abbrev with_action : Bucket F → ActionProposal F → Bucket F
  with_action b a = record b { actions = b.actions ++ a ∷ [] }

  -- One action, by its type, and then the others.
  IsFilled-count_side :
      (t : ActionType) (id : String) (a : ActionProposal F) (b : Bucket F)
      (items : Dict (ActionProposal F)) (b' : Bucket F)
      → a.action_type ≡ t
      → IsFilled (count_side F t id a (with_action b a)) items b'
      → IsFilled b ((id, a) ∷ items) b'
  unfolding select add_confidences
  IsFilled-count_side buy id a b items b' e f = record {
    actions = f.actions ∙ append-append_one b.actions a (values items);
    buyers = rw e (f.buyers ∙ append-append_one b.buyers id (keys (buys items)));
    sellers = rw e f.sellers;
    buy_count = rw e (omega (arith, f.buy_count));
    sell_count = rw e f.sell_count;
    buy_intensity_sum = rw e f.buy_intensity_sum;
    sell_intensity_sum = rw e f.sell_intensity_sum;
  }
  IsFilled-count_side sell id a b items b' e f = record {
    actions = f.actions ∙ append-append_one b.actions a (values items);
    buyers = rw e f.buyers;
    sellers = rw e (f.sellers ∙ append-append_one b.sellers id (keys (sells items)));
    buy_count = rw e f.buy_count;
    sell_count = rw e (omega (arith, f.sell_count));
    buy_intensity_sum = rw e f.buy_intensity_sum;
    sell_intensity_sum = rw e f.sell_intensity_sum;
  }
  IsFilled-count_side _ id a b items b' e f = record {
    actions = f.actions ∙ append-append_one b.actions a (values items);
    buyers = rw e f.buyers;
    sellers = rw e f.sellers;
    buy_count = rw e f.buy_count;
    sell_count = rw e f.sell_count;
    buy_intensity_sum = rw e f.buy_intensity_sum;
    sell_intensity_sum = rw e f.sell_intensity_sum;
  }

  pub IsFilled-put_action :
      (id : String) (a : ActionProposal F) (b : Bucket F) (items : Dict (ActionProposal F))
      (b' : Bucket F)
      → IsFilled (put_action F id a b) items b'
      → IsFilled b ((id, a) ∷ items) b'
  unfolding put_action
  IsFilled-put_action id a b items b' f = IsFilled-count_side a.action_type id a b items b' refl f
