-- ===== src/Errors.antt =====
-- Python's exceptions as values: the ones that the modelled code raises itself, and those of a
-- `dict` lookup and of a pydantic validator, named by the field that is refused.
use Prim.Native.String.{String}
use mathlib.Core.Path.{◌≡◌, refl}
use mathlib.Core.Logic.{◌⊎◌, inl, inr}
use mathlib.Core.Bool.{Bool, true, false}
use younggeul.Prelude.{if◌then◌else◌}
use mathlib.Core.Option.{Option, none, some}

pub data Error : Type 0 where
  key_error value_error validation_error file_exists_error file_not_found_error replay_error :
      String → Error
  run_capacity_exceeded_error : Error

pub data Result {ℓ} (A : Type ℓ) : Type ℓ where
  err : Error → Result A
  ok : A → Result A

-- `d[k]`
abbrev pub require {ℓ} : {A : Type ℓ} → Option A → Error → Result A
require none missing = err missing
require (some a) missing = ok a

-- The code after an exception is passed over.
infixl 5 ◌>>=◌
abbrev pub ◌>>=◌ {ℓ κ} : {A : Type ℓ} {B : Type κ} → Result A → (A → Result B) → Result B
err raised >>= next = err raised
ok value >>= next = next value

-- A validator: the value passes, or the field is refused.
abbrev pub guard : Bool → Error → Result (Unit {0})
guard false refusal = err refusal
guard true refusal = ok tt

infixl 5 ◌>>◌
abbrev pub ◌>>◌ {ℓ} : {B : Type ℓ} → Result (Unit {0}) → Result B → Result B
check >> next = check >>= λ _. next

-- The result is a value, and the value has the property.
abbrev pub Returns {ℓ} : {A : Type ℓ} → (A → Type 0) → Result A → Type 0
Returns P (ok a) = P a
Returns P (err e) = ⊥

-- If the result is a value, the value has the property.
abbrev pub OnOk {ℓ} : {A : Type ℓ} → (A → Type 0) → Result A → Type 0
OnOk P (ok a) = P a
OnOk P (err e) = Unit

module _ {ℓ κ} {A : Type ℓ} {B : Type κ} (P : A → Type 0) (Q : B → Type 0) where
  pub bind-OnOk :
      (m : Result A) (f : A → Result B)
      → OnOk P m
      → ((a : A) → P a → OnOk Q (f a))
      → OnOk Q (m >>= f)
  bind-OnOk (ok a) f h k = k a h
  bind-OnOk (err e) f h k = tt

  pub bind-Returns :
      (m : Result A) (f : A → Result B)
      → Returns P m
      → ((a : A) → P a → Returns Q (f a))
      → Returns Q (m >>= f)
  bind-Returns (ok a) f h k = k a h
  bind-Returns (err e) f h k = h

module _ {ℓ} {A : Type ℓ} where
  pub Returns-OnOk : (P : A → Type 0) (m : Result A) → Returns P m → OnOk P m
  Returns-OnOk P (ok a) h = h
  Returns-OnOk P (err e) h = tt

  pub OnOk-ok : (P : A → Type 0) (m : Result A) {a : A} → OnOk P m → m ≡ ok a → P a
  OnOk-ok P m h e = rw e at h

module _ {A : Type 0} where
  pub require-OnOk : (o : Option A) (e : Error) → OnOk (λ a. o ≡ some a) (require o e)
  require-OnOk none e = tt
  require-OnOk (some a) e = refl

  -- A constructor with one validator gives the value that it was called with.
  pub guarded-OnOk :
      (b : Bool) (e : Error) (a : A) → OnOk (λ q. (q ≡ a) × (b ≡ true)) (guard b e >> ok a)
  guarded-OnOk true e a = (refl, refl)
  guarded-OnOk false e a = tt

module _ {ℓ} {A : Type ℓ} (P Q : A → Type 0) where
  pub OnOk_mono : (m : Result A) → ((a : A) → P a → Q a) → OnOk P m → OnOk Q m
  OnOk_mono (ok a) f h = f a h
  OnOk_mono (err e) f h = tt

  pub Returns_mono : (m : Result A) → ((a : A) → P a → Q a) → Returns P m → Returns Q m
  Returns_mono (ok a) f h = f a h
  Returns_mono (err e) f h = h

module _ {ℓ} {A : Type ℓ} (P : A → Type 0) where
  pub if-OnOk :
      (b : Bool) (m n : Result A)
      → (b ≡ true → OnOk P m)
      → (b ≡ false → OnOk P n)
      → OnOk P (if b then m else n)
  if-OnOk true m n h k = h refl
  if-OnOk false m n h k = k refl

-- The result is a value.
abbrev pub IsOk {ℓ} : {A : Type ℓ} → Result A → Type 0
IsOk (ok a) = Unit
IsOk (err e) = ⊥

module _ {A B : Type 0} (P : A → Type 0) where
  pub bind-IsOk :
      (m : Result A) (f : A → Result B)
      → IsOk m
      → OnOk P m
      → ((a : A) → P a → IsOk (f a))
      → IsOk (m >>= f)
  bind-IsOk (ok a) f h k g = g a k
  bind-IsOk (err e) f h k g = h

module _ {A : Type 0} where
  pub Returns_of : (P : A → Type 0) (m : Result A) → IsOk m → OnOk P m → Returns P m
  Returns_of P (ok a) h k = k
  Returns_of P (err e) h k = h

  pub require-IsOk : (o : Option A) (e : Error) {a : A} → o ≡ some a → IsOk (require o e)
  require-IsOk none e h = cc
  require-IsOk (some a) e h = tt

  pub guarded-IsOk : (b : Bool) (e : Error) (a : A) → b ≡ true → IsOk (guard b e >> ok a)
  guarded-IsOk true e a h = tt
  guarded-IsOk false e a h = cc

  pub IsOk-ok : (m : Result A) → IsOk m → (a : A) × (m ≡ ok a)
  IsOk-ok (ok a) h = (a, refl)
  IsOk-ok (err e) h = absurd h

  pub if-IsOk :
      (b : Bool) (m n : Result A)
      → (b ≡ true → IsOk m)
      → (b ≡ false → IsOk n)
      → IsOk (if b then m else n)
  if-IsOk true m n h k = h refl
  if-IsOk false m n h k = k refl

  pub OnOk-any : (m : Result A) → OnOk (λ _. Unit) m
  OnOk-any (ok a) = tt
  OnOk-any (err e) = tt

  pub Returns-IsOk : (P : A → Type 0) (m : Result A) → Returns P m → IsOk m
  Returns-IsOk P (ok a) h = tt
  Returns-IsOk P (err e) h = h

  pub Result-cases : (m : Result A) → ((a : A) × (m ≡ ok a)) ⊎ ((e : Error) × (m ≡ err e))
  Result-cases (ok a) = inl (a, refl)
  Result-cases (err e) = inr (e, refl)

  pub OnOk_self : (m : Result A) → OnOk (λ a. m ≡ ok a) m
  OnOk_self (ok a) = refl
  OnOk_self (err e) = tt

module _ {A : Type 0} where
  -- The same with two validators.
  pub guarded_twice-OnOk :
      (b c : Bool) (e f : Error) (a : A)
      → OnOk (λ q. (q ≡ a) × (b ≡ true) × (c ≡ true)) (guard b e >> (guard c f >> ok a))
  guarded_twice-OnOk true true e f a = (refl, refl, refl)
  guarded_twice-OnOk true false e f a = tt
  guarded_twice-OnOk false c e f a = tt

  pub guarded_twice-IsOk :
      (b c : Bool) (e f : Error) (a : A)
      → b ≡ true
      → c ≡ true
      → IsOk (guard b e >> (guard c f >> ok a))
  guarded_twice-IsOk true true e f a h k = tt
  guarded_twice-IsOk true false e f a h k = cc
  guarded_twice-IsOk false c e f a h k = cc

module _ {ℓ} {A : Type ℓ} (P Q : A → Type 0) where
  pub OnOk-both : (m : Result A) → OnOk P m → OnOk Q m → OnOk (λ a. P a × Q a) m
  OnOk-both (ok a) h k = (h, k)
  OnOk-both (err e) h k = tt

pub ok-eq : {A : Type 0} {a b : A} → ok a ≡ ok b → a ≡ b
ok-eq h = cc

pub guard-OnOk : (b : Bool) (e : Error) → OnOk (λ _. b ≡ true) (guard b e)
guard-OnOk true e = refl
guard-OnOk false e = tt

module _ {A : Type 0} (P : A → Type 0) where
  pub if-Returns :
      (b : Bool) (m n : Result A)
      → (b ≡ true → Returns P m)
      → (b ≡ false → Returns P n)
      → Returns P (if b then m else n)
  if-Returns true m n h k = h refl
  if-Returns false m n h k = k refl

  pub Returns-value : (m : Result A) → Returns P m → (a : A) × (m ≡ ok a) × P a
  Returns-value (ok a) h = (a, refl, h)
  Returns-value (err e) h = absurd h

module _ {A : Type 0} where
  pub require-Returns :
      (o : Option A) (e : Error) {a : A}
      → o ≡ some a
      → Returns (λ b. (o ≡ some b) × (b ≡ a)) (require o e)
  require-Returns none e h = cc
  require-Returns (some b) e h = (refl, cc)

  pub returns_itself : (m : Result A) {a : A} → m ≡ ok a → Returns (λ b. m ≡ ok b) m
  returns_itself (ok b) h = refl
  returns_itself (err e) h = cc
