-- ===== src/Resolver/Round/Correct.antt =====
-- What `pure_resolve_round` promises of a round.
use mathlib.Core.Path.{◌≡◌, refl}
use mathlib.Core.List.{[], ◌∷◌}
use younggeul.Prelude.{
  ◌≤◌, ℤ, pos, ◌+ℤ◌, ◌≤ℤ◌, int_laws, total, String, Dict, keys, All-map, AllValues,
}
use younggeul.Errors.{OnOk-both, ok, OnOk, OnOk-ok, bind-IsOk, IsOk-ok}
use younggeul.Floats.{FloatOps, FloatLaws}
use younggeul.State.{SegmentState, ParticipantState, ActionProposal, IsValidSegment}
use younggeul.Resolver.Buckets.{collect}
use younggeul.Resolver.Matching.Solvency.{IsSolvent, AllSolvent}
use younggeul.Resolver.Matching.Traders.{Traders, settle-Traders}
use younggeul.Resolver.Round.{ResolveRoundResult, resolve_segments, no_round, pure_resolve_round}
use younggeul.Resolver.Round.Finish.{buckets}
use younggeul.Resolver.Round.Money.{Conserved, resolve_segments-Conserved}
use younggeul.Resolver.Round.People.{resolve_segments-Keeps, resolve_segments-AllSolvent}
use younggeul.Resolver.Round.Total.{Sound, resolve_segments-IsOk, finish-IsOk, no_round-IsOk}
use younggeul.Resolver.Round.Whole.{begin, codes, placed, has_codes, looped, Idle, no_round-Idle}

module _ (F : FloatOps) where
  abbrev pub capital_sum : Dict (ParticipantState F) → ℤ
  capital_sum = total (λ p. p.capital)

  abbrev pub holdings_sum : Dict (ParticipantState F) → ℤ
  holdings_sum = total (λ p. p.holdings)

  module _ (world : Dict (SegmentState F)) where
    loop-Solvent :
        (p : String × ParticipantState F) (ps : Dict (ParticipantState F))
        (actions : Dict (ActionProposal F))
        → AllValues (IsSolvent F) (p ∷ ps)
        → OnOk
            (λ s. AllSolvent F (keys (p ∷ ps)) s.ledger)
            (resolve_segments F
              (buckets F world p ps actions)
              (codes F world p ps actions)
              (begin F world p ps actions))
    loop-Solvent p ps actions v =
        resolve_segments-AllSolvent F (buckets F world p ps actions) (keys (p ∷ ps))
          (codes F world p ps actions) (begin F world p ps actions)
          (record { same_keys = refl; solvent = v })

    loop-Traders :
        (p : String × ParticipantState F) (ps : Dict (ParticipantState F))
        (actions : Dict (ActionProposal F))
        → OnOk
            (λ s. Traders F (keys (p ∷ ps)) s.ledger)
            (resolve_segments F
              (buckets F world p ps actions)
              (codes F world p ps actions)
              (begin F world p ps actions))
    loop-Traders p ps actions =
        resolve_segments-Keeps F (buckets F world p ps actions) (Traders F (keys (p ∷ ps)))
          (λ l n v. record { same_keys = v.same_keys; capital = v.capital; holdings = v.holdings })
          (settle-Traders F (keys (p ∷ ps))) (codes F world p ps actions)
          (begin F world p ps actions) (record { same_keys = refl; capital = tt; holdings = tt })

    loop-Conserved :
        (p : String × ParticipantState F) (ps : Dict (ParticipantState F))
        (actions : Dict (ActionProposal F))
        → OnOk
            (Conserved F world
              (p ∷ ps)
              (buckets F world p ps actions)
              (begin F world p ps actions).ledger)
            (resolve_segments F
              (buckets F world p ps actions)
              (codes F world p ps actions)
              (begin F world p ps actions))
    loop-Conserved p ps actions =
        resolve_segments-Conserved F world (p ∷ ps) (buckets F world p ps actions)
          (begin F world p ps actions).ledger (placed F world p ps actions)
          (codes F world p ps actions) (begin F world p ps actions)
          (record {
            capital = omega int_laws;
            holdings = omega int_laws;
            holdings_bound = omega int_laws;
            exact = λ _. (refl, refl);
          })

    -- With IEEE comparison laws, a valid world, solvent participants and a round number that is not
    -- negative, no lookup fails and no validator refuses: the round has a result, whatever the
    -- actions are.
    pub resolve_round_total :
        (participants : Dict (ParticipantState F)) (actions : Dict (ActionProposal F))
        (round_no : ℤ)
        → FloatLaws F
        → AllValues (IsValidSegment F) world
        → AllValues (IsSolvent F) participants
        → pos 0 ≤ℤ round_no
        → (r : ResolveRoundResult F) × (pure_resolve_round F world participants actions round_no
            ≡ ok r)
    unfolding pure_resolve_round
    resolve_round_total [] actions round_no laws valid solvent h =
        IsOk-ok (no_round F world round_no) (no_round-IsOk F [] world round_no h)
    resolve_round_total (p ∷ ps) actions round_no laws valid solvent h =
        let ids = keys (p ∷ ps) in
        let bs = buckets F world p ps actions in
        let loop =
          resolve_segments F bs (codes F world p ps actions) (begin F world p ps actions) in
        let sound : Sound F laws world (p ∷ ps) bs (placed F world p ps actions)
            (begin F world p ps actions) =
          record {
            same_keys = refl;
            valid = valid;
            ready = record {
              same_keys = refl;
              valid =
                  All-map _ _ (p ∷ ps)
                    (λ (e : String × ParticipantState F) (v : IsSolvent F e.1). v.risk) solvent;
            };
          } in
        IsOk-ok (pure_resolve_round F world (p ∷ ps) actions round_no) (
          bind-IsOk (λ s. AllSolvent F ids s.ledger × Traders F ids s.ledger) loop _
            (resolve_segments-IsOk F laws world (p ∷ ps) bs (placed F world p ps actions)
              (codes F world p ps actions) (begin F world p ps actions)
              (has_codes F world p ps actions) sound)
            (OnOk-both _ _ loop (loop-Solvent p ps actions solvent) (loop-Traders p ps actions))
            (λ s v. finish-IsOk F ids round_no s _ h v.0 v.1))

    -- A round creates no capital and destroys no units, and the units that it adds are at most its
    -- matches.
    pub resolve_round-conserves :
        (participants : Dict (ParticipantState F)) (actions : Dict (ActionProposal F))
        (round_no : ℤ) (r : ResolveRoundResult F)
        → pure_resolve_round F world participants actions round_no ≡ ok r
        → (capital_sum r.new_participants ≤ℤ capital_sum participants)
          × (holdings_sum participants ≤ℤ holdings_sum r.new_participants)
          × (holdings_sum r.new_participants
              ≤ℤ holdings_sum participants +ℤ pos r.outcome.market_actions_resolved)
    unfolding pure_resolve_round
    resolve_round-conserves [] actions round_no r e =
        let i = OnOk-ok (Idle F world) _ (no_round-Idle F world round_no) e in
        rw (i.participants, i.resolved) (omega int_laws)
    resolve_round-conserves (p ∷ ps) actions round_no r e =
        OnOk-ok _ _
          (looped F world p ps actions round_no
            (λ r.
              (capital_sum r.new_participants ≤ℤ capital_sum (p ∷ ps))
              × (holdings_sum (p ∷ ps) ≤ℤ holdings_sum r.new_participants)
              × (holdings_sum r.new_participants
                  ≤ℤ holdings_sum (p ∷ ps) +ℤ pos r.outcome.market_actions_resolved))
            (Conserved F world (p ∷ ps) (buckets F world p ps actions)
              (begin F world p ps actions).ledger)
            (loop-Conserved p ps actions)
            λ s r f v.
              rw (f.participants, f.resolved)
                (v.capital, v.holdings, omega (int_laws, v.holdings_bound)))
          e

    -- If every bucket of the round has a seller, both sums are as they were.
    pub resolve_round-exact :
        (participants : Dict (ParticipantState F)) (actions : Dict (ActionProposal F))
        (round_no : ℤ) (r : ResolveRoundResult F)
        → pure_resolve_round F world participants actions round_no ≡ ok r
        → AllValues (λ b. 1 ≤ b.sell_count) (collect F world participants actions ([], [])).0
        → (capital_sum r.new_participants ≡ capital_sum participants)
          × (holdings_sum r.new_participants ≡ holdings_sum participants)
    unfolding pure_resolve_round
    resolve_round-exact [] actions round_no r e h =
        let i = OnOk-ok (Idle F world) _ (no_round-Idle F world round_no) e in
        rw i.participants (refl, refl)
    resolve_round-exact (p ∷ ps) actions round_no r e h =
        OnOk-ok _ _
          (looped F world p ps actions round_no
            (λ r.
              (capital_sum r.new_participants ≡ capital_sum (p ∷ ps))
              × (holdings_sum r.new_participants ≡ holdings_sum (p ∷ ps)))
            (Conserved F world (p ∷ ps) (buckets F world p ps actions)
              (begin F world p ps actions).ledger)
            (loop-Conserved p ps actions) λ s r f v. rw f.participants (v.exact h))
          e

    -- Nobody is overdrawn or sold out of what it does not have: participants that are solvent stay
    -- solvent, and the result has the same ones in the same order.
    pub resolve_round-AllSolvent :
        (participants : Dict (ParticipantState F)) (actions : Dict (ActionProposal F))
        (round_no : ℤ) (r : ResolveRoundResult F)
        → pure_resolve_round F world participants actions round_no ≡ ok r
        → AllValues (IsSolvent F) participants
        → (keys r.new_participants ≡ keys participants) × AllValues (IsSolvent F) r.new_participants
    unfolding pure_resolve_round
    resolve_round-AllSolvent [] actions round_no r e h =
        let i = OnOk-ok (Idle F world) _ (no_round-Idle F world round_no) e in
        rw i.participants (refl, tt)
    resolve_round-AllSolvent (p ∷ ps) actions round_no r e h =
        OnOk-ok _ _
          (looped F world p ps actions round_no
            (λ r.
              (keys r.new_participants ≡ keys (p ∷ ps))
              × AllValues (IsSolvent F) r.new_participants)
            (λ s. AllSolvent F (keys (p ∷ ps)) s.ledger) (loop-Solvent p ps actions h)
            λ s r f v. rw f.participants (v.same_keys, v.solvent))
          e
