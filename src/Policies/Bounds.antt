-- ===== src/Policies/Bounds.antt =====
-- What every default policy proposes, whatever the participant and the market are.
use mathlib.Core.Path.{◌≡◌, refl}
use mathlib.Core.Bool.{Bool, true, ◌&&◌}
use mathlib.Core.Option.{Option, none}
use native.Mathlib.Omega.{arith}
use younggeul.Prelude.{ℤ, pos, ◌≤ℤ◌, ltb_ℤ, not, String, Dict, if◌then◌else◌}
use younggeul.Errors.{Result, ok, Returns, if-Returns, Returns-value}
use younggeul.Floats.{FloatOps, FloatLaws, Between, clamp_decimal-Between}
use younggeul.State.{
  ParticipantState, Role, buyer, investor, tenant, landlord, broker, ActionProposal, ActionType,
  buy, sell, hold, action_proposal,
}
use younggeul.Rounds.{DecisionContext, validate_v01_action, is_v01}
use younggeul.Policies.{
  proposal, buyer_decide, investor_decide, tenant_decide, landlord_decide, broker_decide,
  get_default_policy, zero_float, one_float, max_budget, is_up, is_down,
}

-- A sale needs units in hand.
abbrev pub Affordable : {F : FloatOps} → ParticipantState F → ActionType → Type 0
Affordable p sell = pos 1 ≤ℤ p.holdings
Affordable p _ = Unit

module _ (F : FloatOps) (laws : FloatLaws F) (p : ParticipantState F)
    (context : DecisionContext F) where
  -- What is true of every proposal.
  record Proper (a : ActionProposal F) : Type 0 where
    pub agent : a.agent_id ≡ p.participant_id
    pub round : a.round_no ≡ context.round_no
    pub target : a.target_segment ≡ context.segment.gu_code
    pub confidence : Between F (zero_float F) a.confidence (one_float F)
    pub action : is_v01 a.action_type ≡ true
    pub affordable : Affordable p a.action_type

  proposal-Proper :
      (t : ActionType) (c : F.Float) (why : String) (v : Option (Dict ℤ))
      → is_v01 t ≡ true
      → Affordable p t
      → Returns Proper (proposal F p context t c why v)
  unfolding proposal action_proposal validate_v01_action
  proposal-Proper t c why v h a =
      rw (clamp_decimal-Between F laws c (pos 0) (pos 10) 1 (omega arith), h)
        (record {
          agent = refl;
          round = refl;
          target = refl;
          confidence = clamp_decimal-Between F laws c (pos 0) (pos 10) 1 (omega arith);
          action = h;
          affordable = a;
        })

  holding : (b : Bool) → (b && ltb_ℤ (pos 0) p.holdings) ≡ true → pos 1 ≤ℤ p.holdings
  holding b h = ground arith

  holds : (why : String) → Returns Proper (proposal F p context hold (zero_float F) why none)
  holds why = proposal-Proper hold (zero_float F) why none refl tt

  buys :
      (b : Bool) (c : F.Float) (why : String) (rest : Result (ActionProposal F))
      → Returns Proper rest
      → Returns Proper (if b then proposal F p context buy c why (max_budget F p) else rest)
  buys b c why rest h =
      if-Returns Proper b (proposal F p context buy c why (max_budget F p)) rest
        (λ _. proposal-Proper buy c why (max_budget F p) refl tt) (λ _. h)

  -- A sale is proposed only with units in hand.
  sells :
      (b : Bool) (c : F.Float) (why : String) (rest : Result (ActionProposal F))
      → Returns Proper rest
      → Returns Proper
          (if b && ltb_ℤ (pos 0) p.holdings then proposal F p context sell c why none else rest)
  sells b c why rest h =
      if-Returns Proper (b && ltb_ℤ (pos 0) p.holdings) (proposal F p context sell c why none) rest
        (λ k. proposal-Proper sell c why none refl (holding b k)) (λ _. h)

  decide-Proper : (role : Role) → Returns Proper (get_default_policy F role p context)
  unfolding buyer_decide investor_decide tenant_decide landlord_decide broker_decide
  decide-Proper buyer =
      buys
        (F.lt (F.decimal (pos 5) 1) context.segment.sentiment_index
          && (not (is_down F context.segment.price_trend) && ltb_ℤ (pos 0) p.capital))
        (F.mul p.risk_tolerance context.segment.sentiment_index)
        "Buyer entering due to positive sentiment and non-downtrend."
        (proposal F p context hold (zero_float F)
          "Buyer holding due to weak setup or no available capital." none)
        (holds "Buyer holding due to weak setup or no available capital.")
  decide-Proper investor =
      let last =
        proposal F p context hold (zero_float F)
          "Investor holding due to non-actionable trend/sentiment mix." none in
      let c = F.mul p.risk_tolerance (F.sub (one_float F) context.segment.sentiment_index) in
      let why : String = "Investor reducing exposure on downtrend with inventory available." in
      buys
        (is_up F context.segment.price_trend
          && F.lt (F.decimal (pos 6) 1) context.segment.sentiment_index)
        (F.mul p.risk_tolerance context.segment.sentiment_index)
        "Investor buying into sustained uptrend and strong sentiment."
        (if is_down F context.segment.price_trend && ltb_ℤ (pos 0) p.holdings
          then proposal F p context sell c why none
          else last)
        (sells (is_down F context.segment.price_trend) c why last
          (holds "Investor holding due to non-actionable trend/sentiment mix."))
  decide-Proper tenant = holds "Tenant holding — no buy/sell in v0.1"
  decide-Proper landlord =
      sells (F.lt context.segment.sentiment_index (F.decimal (pos 3) 1))
        (F.mul (F.sub (one_float F) context.segment.sentiment_index) p.risk_tolerance)
        "Landlord selling into low sentiment to reduce downside risk."
        (proposal F p context hold (zero_float F)
          "Landlord holding while sentiment/holdings do not justify selling." none)
        (holds "Landlord holding while sentiment/holdings do not justify selling.")
  decide-Proper broker = holds "Broker holding — facilitator role in v0.1"

  -- With IEEE comparison laws, the default policy of every role proposes for every participant and
  -- every context: in the participant's name, for the context's round and segment, with a
  -- confidence between 0 and 1, to buy, sell or hold, and to sell only with units in hand.
  pub default_policy_proposes :
      (role : Role)
      → (a : ActionProposal F) × (get_default_policy F role p context ≡ ok a)
        × (a.agent_id ≡ p.participant_id)
        × (a.round_no ≡ context.round_no)
        × (a.target_segment ≡ context.segment.gu_code)
        × Between F (zero_float F) a.confidence (one_float F)
        × (is_v01 a.action_type ≡ true)
        × Affordable p a.action_type
  default_policy_proposes role =
      let (a, e, h) =
        Returns-value Proper (get_default_policy F role p context) (decide-Proper role) in
      (a, e, h.agent, h.round, h.target, h.confidence, h.action, h.affordable)
