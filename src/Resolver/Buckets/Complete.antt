-- ===== src/Resolver/Buckets/Complete.antt =====
-- The first loop against a description by the actions that each segment is aimed at by.
use mathlib.Core.Path.{◌≡◌, refl, sym, ◌∙◌, ap, subst}
use mathlib.Core.Bool.{Bool, true, false}
use mathlib.Core.Option.{some}
use mathlib.Core.List.{List, [], ◌∷◌, ◌++◌}
use mathlib.Core.Logic.{inl, inr}
use native.Mathlib.Omega.{arith}
use text.Mathlib.Text.{◌==◌}
use text.Mathlib.TextEquality.{eq_iff}
use younggeul.Prelude.{
  not, String, Dict, get, has, is_some, set_item, get-set_item, append-append, append-nil, select,
  any, Bool-cases, if◌then◌else◌,
}
use younggeul.Errors.{ok, err, Result-cases}
use younggeul.Floats.{FloatOps}
use younggeul.State.{ActionProposal, ParticipantState, SegmentState}
use younggeul.Rounds.{validate_v01_action}
use younggeul.Resolver.Buckets.Filled.{IsFilled, IsFilled-nothing, IsFilled-put_action}
use younggeul.Resolver.Buckets.{
  Bucket, Warning, unknown_participant, unsupported_action, unknown_gu, empty_bucket, bucket_of,
  put_action, collect_action, collect,
}

module _ (F : FloatOps) where
  abbrev pub bucket_at : String → Dict (Bucket F) × List Warning → Bucket F
  bucket_at code acc = bucket_of F (get acc.0 code)

  module _ (world : Dict (SegmentState F)) (participants : Dict (ParticipantState F)) where
    -- What the loop warns of an action: the first of its three checks that fails.
    unfoldable pub warning_of : String → ActionProposal F → List Warning
    warning_of id a =
        if not (has participants id)
        then unknown_participant id ∷ []
        else elim (validate_v01_action F a) [
          | err e ↦ unsupported_action a.action_type id ∷ []
          | ok _ ↦ if has world a.target_segment then [] else unknown_gu a.target_segment ∷ []
        ]

    unfoldable pub warnings_of : Dict (ActionProposal F) → List Warning
    warnings_of [] = []
    warnings_of ((id, a) ∷ rest) = warning_of id a ++ warnings_of rest

    -- The action passes the checks and aims at the segment.
    unfoldable pub aims_at : String → String × ActionProposal F → Bool
    aims_at code (id, a) =
        if has participants id
        then elim (validate_v01_action F a) [
          | err e ↦ false
          | ok _ ↦ if has world a.target_segment then a.target_segment == code else false
        ]
        else false

    -- One pass of the loop, seen from one segment: its bucket, whether it has one, and the warnings.
    abbrev IsCollected :
        String
        → String
        → ActionProposal F
        → Dict (Bucket F) × List Warning
        → Dict (Bucket F) × List Warning
        → Type 0
    IsCollected code id a acc acc' =
        (bucket_at code acc' ≡ (
          if aims_at code (id, a)
          then put_action F id a (bucket_at code acc)
          else bucket_at code acc))
        × (has acc'.0 code ≡ (if has acc.0 code then true else aims_at code (id, a)))
        × (acc'.1 ≡ acc.1 ++ warning_of id a)

    or_false : (b : Bool) → b ≡ (if b then true else false)
    or_false true = refl
    or_false false = refl

    or_true : (b : Bool) → true ≡ (if b then true else true)
    or_true true = refl
    or_true false = refl

    collect_action-IsCollected :
        (code id : String) (a : ActionProposal F) (acc : Dict (Bucket F) × List Warning)
        → IsCollected code id a acc (collect_action F world participants id a acc)
    unfolding collect_action aims_at warning_of
    collect_action-IsCollected code id a (buckets, warnings) =
        let at = a.target_segment in
        let b = put_action F id a (bucket_of F (get buckets at)) in
        elim (Bool-cases (has participants id)) [
          | inr k ↦ rw k (refl, or_false (has buckets code), refl)
          | inl k ↦ elim (Result-cases (validate_v01_action F a)) [
            | inr (e, h) ↦ rw (k, h) (refl, or_false (has buckets code), refl)
            | inl (u, h) ↦ elim (Bool-cases (has world at)) [
              | inr w ↦ rw (k, h, w) (refl, or_false (has buckets code), refl)
              | inl w ↦ elim (Bool-cases (at == code)) [
                | inr q ↦
                    let other : get (set_item buckets at b) code ≡ get buckets code =
                      get-set_item buckets at code b ∙ (rw q refl) in
                    rw (k, h, w, q)
                      (
                        ap (bucket_of F) other,
                        ap is_some other ∙ or_false (has buckets code),
                        sym (append-nil warnings),
                      )
                | inl q ↦
                    let same : at ≡ code = (eq_iff at code).0 q in
                    let here : get (set_item buckets at b) code ≡ some b =
                      get-set_item buckets at code b ∙ (rw q refl) in
                    rw (k, h, w, q)
                      (
                        ap (bucket_of F) here
                            ∙ ap (λ c. put_action F id a (bucket_of F (get buckets c))) same,
                        ap is_some here ∙ or_true (has buckets code),
                        sym (append-nil warnings),
                      )
              ]
            ]
          ]
        ]

    collect_from :
        (code : String) (actions : Dict (ActionProposal F)) (acc : Dict (Bucket F) × List Warning)
        → IsFilled F
            (bucket_at code acc)
            (select (aims_at code) actions)
            (bucket_at code (collect F world participants actions acc))
          × (has (collect F world participants actions acc).0 code
              ≡ (if has acc.0 code then true else any (aims_at code) actions))
          × ((collect F world participants actions acc).1 ≡ acc.1 ++ warnings_of actions)
    unfolding collect select any warnings_of
    collect_from code [] acc =
        (IsFilled-nothing F (bucket_at code acc), or_false (has acc.0 code), sym (append-nil acc.1))
    collect_from code ((id, a) ∷ rest) acc =
        let acc' = collect_action F world participants id a acc in
        let end = collect F world participants rest acc' in
        let (bucket, present, warned) = collect_action-IsCollected code id a acc in
        let (filled, there, told) = collect_from code rest acc' in
        let warnings : end.1 ≡ acc.1 ++ (warning_of id a ++ warnings_of rest) =
          told
          ∙ ap (λ l. l ++ warnings_of rest) warned
          ∙ append-append acc.1 (warning_of id a) (warnings_of rest) in
        elim (Bool-cases (aims_at code (id, a))) [
          | inl h ↦
              let put : bucket_at code acc' ≡ put_action F id a (bucket_at code acc) =
                bucket ∙ (rw h refl) in
              let items = select (aims_at code) rest in
              rw h (
                IsFilled-put_action F id a (bucket_at code acc) items (bucket_at code end)
                    (subst (λ b. IsFilled F b items (bucket_at code end)) put filled),
                ground (arith, there, present, h),
                warnings,
              )
          | inr h ↦
              let kept : bucket_at code acc' ≡ bucket_at code acc = bucket ∙ (rw h refl) in
              let items = select (aims_at code) rest in
              rw h (
                subst (λ b. IsFilled F b items (bucket_at code end)) kept filled,
                ground (arith, there, present, h),
                warnings,
              )
        ]

    -- The first loop against its description: the bucket of each segment has the actions that pass
    -- the checks and aim at it, in their order, their buyers and sellers by name, the numbers of
    -- both and the sums of their confidences; a segment has a bucket if and only if such an action
    -- aims at it; and the warnings are those of the other actions, in their order.
    pub collect_complete :
        (code : String) (actions : Dict (ActionProposal F))
        → IsFilled F
            (empty_bucket F)
            (select (aims_at code) actions)
            (bucket_at code (collect F world participants actions ([], [])))
          × (has (collect F world participants actions ([], [])).0 code
              ≡ any (aims_at code) actions)
          × ((collect F world participants actions ([], [])).1 ≡ warnings_of actions)
    unfolding get
    collect_complete code actions = collect_from code actions ([], [])
