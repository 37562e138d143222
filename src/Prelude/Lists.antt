-- ===== src/Prelude/Lists.antt =====
-- Lists measured by native numbers, under the library's names, and sorting as Python's `sorted`.
use Prim.Native.Nat.{ℕ, suc, ◌+◌}
use mathlib.Core.Path.{◌≡◌, refl, ap}
use mathlib.Core.Bool.{Bool, true, false}
use mathlib.Core.List.{List, [], ◌∷◌, ◌++◌, Perm, map}
use mathlib.Core.List.Perm
use native.Mathlib.Omega.{arith}
use younggeul.Prelude.Tests.{if◌then◌else◌, Bool-cases}
use mathlib.Core.Logic.{inl, inr}

module _ {ℓ} {A : Type ℓ} where
  abbrev pub length : List A → ℕ
  length [] = 0
  length (x ∷ xs) = suc (length xs)

  -- A predicate on every element, which computes to a tuple.
  abbrev pub All {κ} : (A → Type κ) → List A → Type κ
  All P [] = Unit
  All P (x ∷ xs) = P x × All P xs

  -- `[x for x in xs if p(x)]`
  unfoldable pub select : (A → Bool) → List A → List A
  select p [] = []
  select p (x ∷ xs) = let rest = select p xs in if p x then x ∷ rest else rest

  -- `any(p(x) for x in xs)`
  unfoldable pub any : (A → Bool) → List A → Bool
  any p [] = false
  any p (x ∷ xs) = if p x then true else any p xs

  -- `all(p(x) for x in xs)`
  unfoldable pub all : (A → Bool) → List A → Bool
  all p [] = true
  all p (x ∷ xs) = if p x then all p xs else false

module _ {ℓ} {A : Type ℓ} where
  pub length-append : (xs ys : List A) → length (xs ++ ys) ≡ length xs + length ys
  length-append [] ys = omega arith
  length-append (x ∷ xs) ys = omega (arith, length-append xs ys)

  pub append-append_one : (xs : List A) (x : A) (ys : List A) → (xs ++ x ∷ []) ++ ys ≡ xs ++ x ∷ ys
  append-append_one [] x ys = refl
  append-append_one (z ∷ xs) x ys = ap (λ l. z ∷ l) (append-append_one xs x ys)

  pub append-append : (xs ys zs : List A) → (xs ++ ys) ++ zs ≡ xs ++ (ys ++ zs)
  append-append [] ys zs = refl
  append-append (x ∷ xs) ys zs = ap (λ l. x ∷ l) (append-append xs ys zs)

  pub append-nil : (xs : List A) → xs ++ [] ≡ xs
  append-nil [] = refl
  append-nil (x ∷ xs) = ap (λ l. x ∷ l) (append-nil xs)

  pub length-eq-zero : (xs : List A) → length xs ≡ 0 → xs ≡ []
  length-eq-zero [] h = refl
  length-eq-zero (x ∷ xs) h = absurd (omega arith)

  pub All-append {κ} : (P : A → Type κ) (xs ys : List A) → All P xs → All P ys → All P (xs ++ ys)
  All-append P [] ys h k = k
  All-append P (x ∷ xs) ys h k = (h.0, All-append P xs ys h.1 k)

  pub All-suffix {κ} : (P : A → Type κ) (xs ys : List A) → All P (xs ++ ys) → All P ys
  All-suffix P [] ys h = h
  All-suffix P (x ∷ xs) ys h = All-suffix P xs ys h.1

  pub All-select {κ} :
      (P : A → Type κ) (p : A → Bool) (xs : List A) → All P xs → All P (select p xs)
  unfolding select
  All-select P p [] h = tt
  All-select P p (x ∷ xs) h = elim (Bool-cases (p x)) [
    | inl e ↦ rw e (h.0, All-select P p xs h.1)
    | inr e ↦ rw e (All-select P p xs h.1)
  ]

  pub All-map {κ μ} :
      (P : A → Type κ) (Q : A → Type μ) (xs : List A) → ((a : A) → P a → Q a) → All P xs → All Q xs
  All-map P Q [] f h = tt
  All-map P Q (x ∷ xs) f h = (f x h.0, All-map P Q xs f h.1)

  pub All-mapped {κ μ} :
      {B : Type κ} (f : A → B) (Q : B → Type μ) (xs : List A)
      → All (λ x. Q (f x)) xs
      → All Q (map f xs)
  All-mapped f Q [] h = tt
  All-mapped f Q (x ∷ xs) h = (h.0, All-mapped f Q xs h.1)

-- `sorted` is stable: an element goes in front of the equal ones that follow it.
module _ {ℓ} {A : Type ℓ} (le : A → A → Bool) where
  unfoldable pub insert_sorted : A → List A → List A
  insert_sorted x [] = x ∷ []
  insert_sorted x (y ∷ ys) =
      let rest = insert_sorted x ys in if le x y then x ∷ (y ∷ ys) else y ∷ rest

  unfoldable pub sorted : List A → List A
  unfolding insert_sorted
  sorted [] = []
  sorted (x ∷ xs) = insert_sorted x (sorted xs)

  insert_sorted-perm : (x : A) (xs : List A) → Perm (insert_sorted x xs) (x ∷ xs)
  unfolding insert_sorted
  insert_sorted-perm x [] = Perm.refl _
  insert_sorted-perm x (y ∷ ys) = elim (Bool-cases (le x y)) [
    | inl h ↦ rw h (Perm.refl _)
    | inr h ↦ rw h (Perm.trans (Perm.cons y (insert_sorted-perm x ys)) (Perm.swap x y ys))
  ]

  pub sorted-perm : (xs : List A) → Perm (sorted xs) xs
  unfolding sorted
  sorted-perm [] = Perm.refl _
  sorted-perm (x ∷ xs) =
      Perm.trans (insert_sorted-perm x (sorted xs)) (Perm.cons x (sorted-perm xs))

  insert_sorted-All {κ} :
      (P : A → Type κ) (x : A) (xs : List A) → P x → All P xs → All P (insert_sorted x xs)
  unfolding insert_sorted
  insert_sorted-All P x [] p h = (p, tt)
  insert_sorted-All P x (y ∷ ys) p h = elim (Bool-cases (le x y)) [
    | inl e ↦ rw e (p, h)
    | inr e ↦ rw e (h.0, insert_sorted-All P x ys p h.1)
  ]

  pub All-sorted {κ} : (P : A → Type κ) (xs : List A) → All P xs → All P (sorted xs)
  unfolding sorted
  All-sorted P [] h = tt
  All-sorted P (x ∷ xs) h = insert_sorted-All P x (sorted xs) h.0 (All-sorted P xs h.1)

  length-insert_sorted : (x : A) (xs : List A) → length (insert_sorted x xs) ≡ suc (length xs)
  unfolding insert_sorted
  length-insert_sorted x [] = refl
  length-insert_sorted x (y ∷ ys) = ground (arith, length-insert_sorted x ys)

  pub length-sorted : (xs : List A) → length (sorted xs) ≡ length xs
  unfolding sorted
  length-sorted [] = refl
  length-sorted (x ∷ xs) = omega (arith, length-insert_sorted x (sorted xs), length-sorted xs)

  -- Neighbours are in order.
  abbrev pub IsSorted : List A → Type 0
  IsSorted [] = Unit
  IsSorted (x ∷ []) = Unit
  IsSorted (x ∷ (y ∷ ys)) = (le x y ≡ true) × IsSorted (y ∷ ys)

module _ {ℓ} {A : Type ℓ} (le : A → A → Bool)
    (total : (a b : A) → le a b ≡ false → le b a ≡ true) where
  insert_sorted-IsSorted :
      (x : A) (xs : List A) → IsSorted le xs → IsSorted le (insert_sorted le x xs)
  unfolding insert_sorted
  insert_sorted-IsSorted x [] h = tt
  insert_sorted-IsSorted x (y ∷ []) h = elim (Bool-cases (le x y)) [
    | inl e ↦ rw e (e, tt)
    | inr e ↦ rw e (total x y e, tt)
  ]
  insert_sorted-IsSorted x (y ∷ (z ∷ zs)) h =
      let rest = insert_sorted-IsSorted x (z ∷ zs) h.1 in
      elim (Bool-cases (le x y)) [
        | inl e ↦ rw e (e, h)
        | inr e ↦ elim (Bool-cases (le x z)) [
          | inl k ↦ rw (e, k) (total x y e, (k, h.1))
          | inr k ↦ rw (e, k) (h.0, rw k at rest)
        ]
      ]

  pub sorted-IsSorted : (xs : List A) → IsSorted le (sorted le xs)
  unfolding sorted
  sorted-IsSorted [] = tt
  sorted-IsSorted (x ∷ xs) = insert_sorted-IsSorted x (sorted le xs) (sorted-IsSorted xs)

-- Tests and counts do not see the order.
module _ {ℓ} {A : Type ℓ} (le : A → A → Bool) (p : A → Bool) where
  any-insert_sorted :
      (x : A) (xs : List A) → any p (insert_sorted le x xs) ≡ (if p x then true else any p xs)
  unfolding any insert_sorted
  any-insert_sorted x [] = ground arith
  any-insert_sorted x (y ∷ ys) = ground (arith, any-insert_sorted x ys)

  pub any-sorted : (xs : List A) → any p (sorted le xs) ≡ any p xs
  unfolding any sorted
  any-sorted [] = refl
  any-sorted (x ∷ xs) = ground (arith, any-insert_sorted x (sorted le xs), any-sorted xs)

  length-select-insert_sorted :
      (x : A) (xs : List A) → length (select p (insert_sorted le x xs)) ≡ length (select p (x ∷ xs))
  unfolding select insert_sorted
  length-select-insert_sorted x [] = refl
  length-select-insert_sorted x (y ∷ ys) = ground (arith, length-select-insert_sorted x ys)

  pub length-select-sorted : (xs : List A) → length (select p (sorted le xs)) ≡ length (select p xs)
  unfolding select sorted
  length-select-sorted [] = refl
  length-select-sorted (x ∷ xs) =
      ground (arith, length-select-insert_sorted x (sorted le xs), length-select-sorted xs)
