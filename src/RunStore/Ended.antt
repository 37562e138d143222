-- ===== src/RunStore/Ended.antt =====
-- A run that has ended, over the history of the store.
use mathlib.Core.Path.{◌≡◌, refl, sym, ◌∙◌, ap}
use mathlib.Core.Bool.{Bool, true, false}
use mathlib.Core.Logic.{inl, inr}
use mathlib.Core.Option.{Option, none, some}
use mathlib.Core.List.{List, [], ◌∷◌, ◌++◌}
use native.Mathlib.Omega.{arith}
use text.Mathlib.Text.{◌==◌}
use text.Mathlib.TextEquality.{eq_iff}
use younggeul.Prelude.{not, String, get, knows, any, Bool-cases, some-eq, if◌then◌else◌}
use younggeul.Errors.{OnOk-ok}
use younggeul.RunStore.{RunMeta, is_allowed, is_inflight, is_final, meta_of, get_run, interrupted}
use younggeul.RunStore.Status.{knows_two, write_meta-Wrote, write-get}
use younggeul.RunStore.Update.{set_status-Set, create_run-Changed}
use younggeul.RunStore.History.{
  Service, Step, creates, update_reads, update_writes, update_is_refused, reconcile_reads,
  reconcile_leaves, reconcile_writes, History, begins, goes_on, IsService, read_meta-named,
  History-IsService,
}

final-inflight : (m : RunMeta) → is_final m.status ≡ true → is_inflight m ≡ false
unfolding is_inflight knows
final-inflight m h = elim (knows_two "completed" "failed" m.status h) [
  | inl e ↦ rw (← e) refl
  | inr e ↦ rw (← e) refl
]

final_stays : (a status : String) → is_final a ≡ true → is_allowed a status ≡ true → ⊥
unfolding is_allowed get
final_stays a status h k = elim (knows_two "completed" "failed" a h) [
  | inl e ↦ let never : false ≡ true = rw (← e) at k in absurd (cc)
  | inr e ↦ let never : false ≡ true = rw (← e) at k in absurd (cc)
]

-- A reconciliation has read the run when it was in flight.
abbrev pub is_stale : String → RunMeta → Bool
is_stale run_id m = if m.run_id == run_id then is_inflight m else false

-- The update that has the lock has read the run before it ended.
abbrev pub is_held_open : String → Option (String × RunMeta) → Bool
is_held_open run_id none = false
is_held_open run_id (some (id, m)) = if id == run_id then not (is_final m.status) else false

-- The run has ended, with this metadata, and no call has read it before.
pub record HasEnded (run_id : String) (m : RunMeta) (v : Service) : Type 0 where
  pub found : get_run run_id v.store ≡ some m
  pub is_over : is_final m.status ≡ true
  pub none_stale : any (is_stale run_id) v.listed ≡ false
  pub not_held : is_held_open run_id v.held ≡ false

any-middle :
    (f : RunMeta → Bool) (before : List RunMeta) (m : RunMeta) (after : List RunMeta)
    → any f (before ++ m ∷ after) ≡ false
    → f m ≡ false
unfolding any
any-middle f [] m after h = ground arith
any-middle f (r ∷ before) m after h = any-middle f before m after (ground arith)

any-left :
    (f : RunMeta → Bool) (before : List RunMeta) (m : RunMeta) (after : List RunMeta)
    → any f (before ++ m ∷ after) ≡ false
    → any f (before ++ after) ≡ false
unfolding any
any-left f [] m after h = ground arith
any-left f (r ∷ before) m after h = ground (arith, any-left f before m after)

any-none :
    (f : RunMeta → Bool) (m : RunMeta) (l : List RunMeta)
    → f m ≡ false
    → any f l ≡ false
    → any f (m ∷ l) ≡ false
unfolding any
any-none f m l h k = ground arith

Step-HasEnded :
    (run_id : String) (m : RunMeta) (v v' : Service)
    → Step v v'
    → IsService v
    → HasEnded run_id m v
    → HasEnded run_id m v'
unfolding get_run
Step-HasEnded run_id m _ _ (creates query id limit now {s} e) w p =
    let (c, new) = OnOk-ok _ _ (create_run-Changed query limit id now s) e in
    record {
      found = elim (Bool-cases (id == run_id)) [
        | inl k ↦
            let gone : meta_of (get s run_id) ≡ none =
              ap (λ j. meta_of (get s j)) (sym ((eq_iff id run_id).0 k)) ∙ ap meta_of new in
            let there = p.found in absurd (cc)
        | inr k ↦ c.gets run_id ∙ (rw k p.found)
      ];
      is_over = p.is_over;
      none_stale = p.none_stale;
      not_held = refl;
    }
Step-HasEnded run_id m _ _ (update_reads id {m = r} {s} e) w p = record {
  found = p.found;
  is_over = p.is_over;
  none_stale = p.none_stale;
  not_held = elim (Bool-cases (id == run_id)) [
    | inr k ↦ rw k refl
    | inl k ↦
        let same : r ≡ m = some-eq (
          sym (read_meta-named id r s w.store e).0
          ∙ ap (λ j. get_run j s) ((eq_iff id run_id).0 k)
          ∙ p.found) in
        rw k (ap (λ x. not (is_final x.status)) same ∙ ap not p.is_over)
  ];
}
Step-HasEnded run_id m _ _ (update_writes id status error report now {m = r} {s} e) w p =
    let u = OnOk-ok _ _ (set_status-Set id status error report now r s) e in
    record {
      found = elim (Bool-cases (id == run_id)) [
        | inl k ↦
            let over : is_final r.status ≡ true =
              let was = rw k at p.not_held in ground (arith, was) in
            absurd (final_stays r.status status over u.allowed)
        | inr k ↦ u.changed.gets run_id ∙ (rw k p.found)
      ];
      is_over = p.is_over;
      none_stale = p.none_stale;
      not_held = refl;
    }
Step-HasEnded run_id m _ _ update_is_refused w p = record {
  found = p.found;
  is_over = p.is_over;
  none_stale = p.none_stale;
  not_held = refl;
}
Step-HasEnded run_id m _ _ (reconcile_reads id {m = r} {s} {l} e) w p = record {
  found = p.found;
  is_over = p.is_over;
  none_stale =
      let (there, named) = read_meta-named id r s w.store e in
      let fresh_read : is_stale run_id r ≡ false = elim (Bool-cases (r.run_id == run_id)) [
        | inr k ↦ rw k refl
        | inl k ↦
            let same : r ≡ m = some-eq (
              sym there
              ∙ ap (λ j. get_run j s) (sym named ∙ (eq_iff r.run_id run_id).0 k)
              ∙ p.found) in
            rw k (ap is_inflight same ∙ final-inflight m p.is_over)
      ] in
      any-none (is_stale run_id) r l fresh_read p.none_stale;
  not_held = p.not_held;
}
Step-HasEnded run_id m _ _ (reconcile_leaves before r after) w p = record {
  found = p.found;
  is_over = p.is_over;
  none_stale = any-left (is_stale run_id) before r after p.none_stale;
  not_held = p.not_held;
}
Step-HasEnded run_id m _ _ (reconcile_writes now before r after {s} h e) w p =
    let g = write-get (OnOk-ok _ _ (write_meta-Wrote r.run_id (interrupted now r) s) e) run_id in
    record {
      found = elim (Bool-cases (r.run_id == run_id)) [
        | inr k ↦ g ∙ (rw k p.found)
        | inl k ↦
            let not_stale = any-middle (is_stale run_id) before r after p.none_stale in
            let never : true ≡ false = sym h ∙ (rw k at not_stale) in absurd (cc)
      ];
      is_over = p.is_over;
      none_stale = p.none_stale;
      not_held = p.not_held;
    }

-- A run that is completed or failed keeps its metadata, whatever the later steps are and however
-- the calls overlap, unless a reconciliation that has not ended, or the update that has the lock,
-- has read the run before it ended.
pub History-HasEnded :
    (run_id : String) (m : RunMeta) (v v' : Service)
    → IsService v
    → HasEnded run_id m v
    → History v v'
    → HasEnded run_id m v'
History-HasEnded run_id m v v' w p begins = p
History-HasEnded run_id m v v'' w p (goes_on {v'} past t) =
    Step-HasEnded run_id m v' v'' t (History-IsService v v' w past)
      (History-HasEnded run_id m v v' w p past)
