-- ===== src/World/Count.antt =====
-- simulation/nodes/world_initializer.py, `_build_participants`: no participant takes the place of
-- another, so that there are as many as the roster asks for.
use mathlib.Core.Path.{◌≡◌, refl, sym, subst, ◌∙◌}
use mathlib.Core.Bool.{true, false}
use mathlib.Core.Logic.{inl, inr}
use mathlib.Core.List.{List, [], ◌∷◌}
use native.Mathlib.Omega.{arith}
use text.Mathlib.Text.{◌==◌}
use text.Mathlib.TextEquality.{eq_iff}
use younggeul.Prelude.{
  ℕ, zero, suc, ◌+◌, ◌≤◌, ◌<◌, ℤ, String, Dict, get, get-set_item, set_item, keys, knows, has-knows,
  length, length-new_item, All, All-map, All-keys-set_item, Bool-cases, if◌then◌else◌,
}
use younggeul.Errors.{OnOk, OnOk-any, OnOk_mono, bind-OnOk}
use younggeul.Floats.{FloatOps}
use younggeul.State.{Role, SegmentState, participant_state}
use younggeul.Reporting.{role_key}
use younggeul.World.Participants.{
  RoleBucketSpec, ParticipantRosterSpec, Populating, populate_bucket, count_or_zero, counted_role,
  populate, build_participants, reference_price,
}
use younggeul.World.Ids.{id_of, id_of-injective}

-- An id that is given out, within the numbers of each role.
abbrev IsIssued : (Role → ℕ) → String → Type 0
IsIssued limit id = (r : Role) × (n : ℕ) × (id ≡ id_of r n) × (n ≤ limit r)

nothing : false ≡ true → ⊥
nothing h = cc

All-known :
    (P : String → Type 0) (ks : List String) (k : String) → All P ks → knows ks k ≡ true → P k
unfolding knows
All-known P [] k a h = absurd (nothing h)
All-known P (j ∷ ks) k a h = elim (Bool-cases (j == k)) [
  | inl e ↦ subst P ((eq_iff j k).0 e) a.0
  | inr e ↦ All-known P ks k a.1 (rw e at h)
]

issued-fresh :
    (limit : Role → ℕ) (ks : List String) (r : Role) (n : ℕ)
    → All (IsIssued limit) ks
    → limit r < n
    → knows ks (id_of r n) ≡ false
issued-fresh limit ks r n a h = elim (Bool-cases (knows ks (id_of r n))) [
  | inl e ↦
      let old = All-known (IsIssued limit) ks (id_of r n) a e in
      let same = id_of-injective r old.0 n old.1 old.2 in
      let bound : n ≤ limit r =
        subst (λ q. n ≤ limit q) (sym same.0) (subst (λ m. m ≤ limit old.0) (sym same.1) old.3) in
      absurd (omega (arith, bound, h))
  | inr e ↦ e
]

-- The numbers of the roles while one of them is ahead of its counter.
abbrev limit_of : Dict ℕ → Role → ℕ → Role → ℕ
limit_of counters role k r =
    if role_key role == role_key r then k else count_or_zero (get counters (role_key r))

limit-own : (counters : Dict ℕ) (role : Role) (k : ℕ) → limit_of counters role k role ≡ k
limit-own counters role k = rw ((eq_iff (role_key role) (role_key role)).1 refl) refl

limit-grows :
    (counters : Dict ℕ) (role : Role) (k : ℕ) (r : Role)
    → limit_of counters role k r ≤ limit_of counters role (suc k) r
limit-grows counters role k r = ground arith

module _ (F : FloatOps) (draw_32 : String → ℕ → ℕ) where
  -- After n more participants of a role that has k.
  record IsGrown (role : Role) (k n : ℕ) (p : Populating F draw_32) (q : ℕ × Populating F draw_32)
      : Type 0 where
    number : q.0 ≡ k + n
    more : length q.1.participants ≡ length p.participants + n
    counters : q.1.role_counters ≡ p.role_counters
    issued : All (IsIssued (limit_of p.role_counters role q.0)) (keys q.1.participants)

  populate_bucket-IsGrown :
      (n k : ℕ) (price : ℤ) (b : RoleBucketSpec F) (seed : String) (p : Populating F draw_32)
      → All (IsIssued (limit_of p.role_counters b.role k)) (keys p.participants)
      → OnOk (IsGrown b.role k n p) (populate_bucket F draw_32 n k price b seed p)
  unfolding populate_bucket
  populate_bucket-IsGrown zero k price b seed p a = record {
    number = omega arith;
    more = omega arith;
    counters = refl;
    issued = a;
  }
  populate_bucket-IsGrown (suc n) k price b seed p a =
      let id = id_of b.role (suc k) in
      let below : limit_of p.role_counters b.role k b.role < suc k =
        omega (arith, limit-own p.role_counters b.role k) in
      let fresh =
        has-knows p.participants id
        ∙ issued-fresh (limit_of p.role_counters b.role k) (keys p.participants) b.role (suc k) a
            below in
      bind-OnOk (λ _. Unit) (IsGrown b.role k (suc n) p) (participant_state F _) _ (OnOk-any _)
        λ participant _.
          let p' : Populating F draw_32 = record p {
            participants = set_item p.participants id participant;
            rng_index = p.rng_index + 3;
          } in
          let next = limit_of p.role_counters b.role (suc k) in
          let reached : suc k ≤ next b.role =
            omega (arith, limit-own p.role_counters b.role (suc k)) in
          let grown =
            All-map (IsIssued (limit_of p.role_counters b.role k)) (IsIssued next)
              (keys p.participants)
              (λ j i. (i.0, i.1, i.2, omega (arith, i.3, limit-grows p.role_counters b.role k i.0)))
              a in
          let added = length-new_item p.participants id participant fresh in
          OnOk_mono (IsGrown b.role (suc k) n p') (IsGrown b.role k (suc n) p)
            (populate_bucket F draw_32 n (suc k) price b seed p')
            (λ q g. record {
              number = omega (arith, g.number);
              more = omega (arith, g.more, added);
              counters = g.counters;
              issued = g.issued;
            })
            (populate_bucket-IsGrown n (suc k) price b seed p' (
              All-keys-set_item (IsIssued next) p.participants id participant grown
                (b.role, suc k, refl, reached)))

  -- The participants that a roster asks for.
  abbrev pub wanted : List (RoleBucketSpec F) → ℕ
  wanted [] = 0
  wanted (b ∷ bs) = b.count + wanted bs

  abbrev AllIssued : Populating F draw_32 → Type 0
  AllIssued p =
      All (IsIssued (λ r. count_or_zero (get p.role_counters (role_key r)))) (keys p.participants)

  counted-AllIssued :
      (b : RoleBucketSpec F) (p : Populating F draw_32) (q : ℕ × Populating F draw_32)
      → q.1.role_counters ≡ p.role_counters
      → All (IsIssued (limit_of p.role_counters b.role q.0)) (keys q.1.participants)
      → AllIssued (counted_role F draw_32 b q)
  counted-AllIssued b p q same a =
      All-map (IsIssued (limit_of p.role_counters b.role q.0)) (IsIssued _) (keys q.1.participants)
        (λ j i.
          let now = get-set_item q.1.role_counters (role_key b.role) (role_key i.0) q.0 in
          (i.0, i.1, i.2, ground (arith, i.3, now, same)))
        a

  at-counter :
      (b : RoleBucketSpec F) (p : Populating F draw_32)
      → AllIssued p
      → All
          (IsIssued (
            limit_of p.role_counters b.role
              (count_or_zero (get p.role_counters (role_key b.role)))))
          (keys p.participants)
  at-counter b p a =
      All-map (IsIssued _) (IsIssued _) (keys p.participants)
        (λ j i. (i.0, i.1, i.2, ground (arith, i.3, eq_iff (role_key b.role) (role_key i.0)))) a

  populate-count :
      (price : ℤ) (bs : List (RoleBucketSpec F)) (seed : String) (p : Populating F draw_32)
      → AllIssued p
      → OnOk
          (λ q. length q.participants ≡ length p.participants + wanted bs)
          (populate F draw_32 price bs seed p)
  unfolding populate
  populate-count price [] seed p a = omega arith
  populate-count price (b ∷ bs) seed p a =
      let k = count_or_zero (get p.role_counters (role_key b.role)) in
      bind-OnOk (IsGrown b.role k b.count p)
        (λ q. length q.participants ≡ length p.participants + wanted (b ∷ bs))
        (populate_bucket F draw_32 b.count k price b seed p) _
        (populate_bucket-IsGrown b.count k price b seed p (at-counter b p a))
        λ q g.
          OnOk_mono _ _ (populate F draw_32 price bs seed (counted_role F draw_32 b q))
            (λ r h. omega (arith, h, g.more))
            (populate-count price bs seed (counted_role F draw_32 b q)
              (counted-AllIssued b p q g.counters g.issued))

  -- Where the participants of a roster are built, there are as many as the buckets of the roster ask
  -- for together: no two of them have the same id.
  pub build_participants-count :
      (roster : ParticipantRosterSpec F) (snapshot_id scenario_name : String)
      (world : Dict (SegmentState F))
      → OnOk
          (λ ps. length ps ≡ wanted roster.buckets)
          (build_participants F draw_32 roster snapshot_id scenario_name world)
  unfolding build_participants
  build_participants-count roster snapshot_id scenario_name world =
      bind-OnOk (λ _. Unit) (λ ps. length ps ≡ wanted roster.buckets)
        (reference_price F draw_32 world) _ (OnOk-any _)
        λ price _.
          bind-OnOk (λ q. length q.participants ≡ wanted roster.buckets) _
            (populate F draw_32 price roster.buckets _ _) _
            (OnOk_mono _ _ (populate F draw_32 price roster.buckets _ _) (λ q h. omega (arith, h))
              (populate-count price roster.buckets _ _ tt))
            λ q h. h
