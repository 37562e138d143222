-- ===== src/Simulation/Ends.antt =====
-- The loop over the rounds ends, and what holds then.
use mathlib.Core.Path.{◌≡◌, refl, ap, ◌∙◌}
use mathlib.Core.Bool.{Bool, true, false}
use mathlib.Core.Logic.{inl, inr}
use mathlib.Core.Option.{some}
use native.Mathlib.Omega.{arith}
use younggeul.Prelude.{
  ℕ, zero, suc, ℤ, pos, ◌+ℤ◌, ◌≤ℤ◌, ltb_ℤ, max_ℤ, int_laws, parts_of_eq, String, Bool-cases, ltb→lt,
  pos_part, neg_part, ◌+◌, if◌then◌else◌,
}
use younggeul.Errors.{Result, ok, ◌>>=◌, Returns, Returns-value, Returns_mono, bind-Returns}
use younggeul.Floats.{FloatOps, FloatLaws}
use younggeul.Resolver.Round.Correct.{capital_sum}
use younggeul.Events.{EventStore}
use younggeul.Simulation.{
  GraphState, Payload, Simulation, participant_decider, round_resolver, should_continue,
  after_round, run_rounds, play,
}
use younggeul.Simulation.Decide.{IsReady, Decided, Resolved, decider-Decided, resolver-Resolved}

strict : (a b : ℤ) → ltb_ℤ a b ≡ true → a +ℤ pos 1 ≤ℤ b
strict a b h = omega (int_laws, ltb→lt (pos_part a + neg_part b) (pos_part b + neg_part a) h)

if_true : {A : Type 0} {b : Bool} (x y : A) → b ≡ true → (if b then x else y) ≡ x
if_true x y h = rw h refl

if_false : {A : Type 0} {b : Bool} (x y : A) → b ≡ false → (if b then x else y) ≡ y
if_false x y h = rw h refl

module _ (F : FloatOps) (laws : FloatLaws F) (store : EventStore (Payload F))
    (env : ℕ → String × ℕ) where
  abbrev Run : Type 0
  Run = Simulation F store env

  record Rounded (s s' : GraphState F) : Type 0 where
    pub ready : IsReady F laws s'
    pub capital : capital_sum F s'.participants ≤ℤ capital_sum F s.participants
    pub round_no : s'.round_no ≡ s.round_no +ℤ pos 1
    pub max_rounds : s'.max_rounds ≡ s.max_rounds

  round-Rounded :
      (s : Run)
      → IsReady F laws s.state
      → Returns
          (λ s'. Rounded s.state s'.state)
          (participant_decider F store env s >>= round_resolver F store env)
  round-Rounded s v =
      bind-Returns (λ s'. Decided F laws s.state s'.state) (λ s'. Rounded s.state s'.state)
        (participant_decider F store env s) _ (decider-Decided F laws store env s v)
        λ mid d.
          Returns_mono (λ s'. Resolved F laws mid.state s'.state) (λ s'. Rounded s.state s'.state)
            (round_resolver F store env mid)
            (λ last r. record {
              ready = r.ready;
              capital = rw (← d.participants) r.capital;
              round_no = r.round_no ∙ d.round_no;
              max_rounds = r.max_rounds ∙ d.max_rounds;
            })
            (resolver-Resolved F laws store env mid d.ready)

  record Ended (s s' : GraphState F) : Type 0 where
    pub ready : IsReady F laws s'
    pub capital : capital_sum F s'.participants ≤ℤ capital_sum F s.participants
    pub later : s.round_no +ℤ pos 1 ≤ℤ s'.round_no
    pub bound : s'.round_no ≤ℤ s.max_rounds

  goes_on-below :
      (s : GraphState F) → should_continue F s ≡ true → ltb_ℤ s.round_no s.max_rounds ≡ true
  unfolding should_continue
  goes_on-below s h = ground arith

  run_rounds_step :
      (n : ℕ) (s mid : Run)
      → (participant_decider F store env s >>= round_resolver F store env) ≡ ok mid
      → run_rounds F store env (suc n) s
        ≡ (if should_continue F mid.state then run_rounds F store env n mid else some (ok mid))
  unfolding run_rounds
  run_rounds_step n s mid e =
      ap
        (λ (m : Result Run).
          after_round F store env m
            λ s'. if should_continue F s'.state then run_rounds F store env n s' else some (ok s'))
        e

  -- Fuel for the rounds that are left is enough.
  run_rounds-Ended :
      (n : ℕ) (s : Run)
      → IsReady F laws s.state
      → ltb_ℤ s.state.round_no s.state.max_rounds ≡ true
      → s.state.max_rounds ≤ℤ s.state.round_no +ℤ pos n
      → (s' : Run) × (run_rounds F store env n s ≡ some (ok s')) × Ended s.state s'.state
  unfolding run_rounds
  run_rounds-Ended zero s v below enough =
      absurd (omega (int_laws, strict s.state.round_no s.state.max_rounds below, enough))
  run_rounds-Ended (suc n) s v below enough =
      let (mid, e, r) = Returns-value (λ s'. Rounded s.state s'.state) _ (round-Rounded s v) in
      elim (Bool-cases (should_continue F mid.state)) [
        | inr stops ↦ (
          mid,
          run_rounds_step n s mid e ∙ if_false _ _ stops,
          record {
            ready = r.ready;
            capital = r.capital;
            later = omega (int_laws, parts_of_eq r.round_no);
            bound = omega (
              int_laws,
              parts_of_eq r.round_no,
              strict s.state.round_no s.state.max_rounds below,
            );
          },
        )
        | inl on ↦
            let (s', f, d) =
              run_rounds-Ended n mid r.ready (goes_on-below mid.state on)
                (omega (int_laws, parts_of_eq r.round_no, parts_of_eq r.max_rounds, enough)) in
            (
              s',
              run_rounds_step n s mid e ∙ if_true _ _ on ∙ f,
              record {
                ready = d.ready;
                capital = omega (arith, d.capital, r.capital);
                later = omega (int_laws, parts_of_eq r.round_no, d.later);
                bound = omega (int_laws, parts_of_eq r.max_rounds, d.bound);
              },
            )
      ]

  -- From a state that is ready, with IEEE comparison laws, the loop ends well when it has fuel for
  -- the rounds up to `max_rounds`: no node raises, the state is ready again (so its world is valid
  -- and its participants are solvent), there is no more capital than before, and the round number
  -- has not fallen and is not beyond `max_rounds`, unless it was there before.
  pub simulation_ends :
      (fuel : ℕ) (s : Simulation F store env)
      → IsReady F laws s.state
      → s.state.max_rounds ≤ℤ s.state.round_no +ℤ pos fuel
      → (s' : Simulation F store env) × (play F store env fuel s ≡ some (ok s'))
        × IsReady F laws s'.state
        × (capital_sum F s'.state.participants ≤ℤ capital_sum F s.state.participants)
        × (s.state.round_no ≤ℤ s'.state.round_no)
        × (s'.state.round_no ≤ℤ max_ℤ s.state.round_no s.state.max_rounds)
  unfolding play max_ℤ
  simulation_ends fuel s v enough = elim (Bool-cases (ltb_ℤ s.state.round_no s.state.max_rounds)) [
    | inr over ↦ (s, if_false _ _ over, v, omega arith, omega arith, (rw over (omega arith)))
    | inl below ↦
        let (s', e, d) = run_rounds-Ended fuel s v below enough in
        (
          s',
          if_true _ _ below ∙ e,
          d.ready,
          d.capital,
          omega (int_laws, d.later),
          (rw below d.bound),
        )
  ]
