-- ===== src/World/Ids.antt =====
-- simulation/nodes/world_initializer.py: the id of a participant tells its role and its number.
use Prim.Native.Char.{code}
use Prim.Native.String.{String, ◌++◌}
use mathlib.Core.Path.{◌≡◌, refl, sym, ap, ◌∙◌}
use mathlib.Core.Bool.{true, false}
use mathlib.Core.Logic.{inl, inr}
use text.Mathlib.Text.{◌==◌ as ◌=s=◌}
use text.Mathlib.TextLemmas.{nil-append, cons-append}
use younggeul.Prelude.{
  ℕ, pos, ◌==◌, ltb, str, codes, all, not, decode, decode-str, before_dash, after_dash, Bool-cases,
  if◌then◌else◌,
}
use younggeul.State.{Role, buyer, investor, tenant, landlord, broker}
use younggeul.Reporting.{role_key}
use younggeul.World.Participants.{four_digits}

abbrev HasNoDash : String → Type 0
HasNoDash s = all (λ c. not (c == 45)) (codes s) ≡ true

no_value_of : false ≡ true → ⊥
no_value_of h = cc

dash-first : (t : String) → ("" ++ ("-" ++ t)) ≡ String.◌∷◌ "-" t
dash-first t = nil-append _ ∙ cons-append "-" "" t ∙ ap (String.◌∷◌ "-") (nil-append t)

before_dash-append : (k t : String) → HasNoDash k → before_dash (k ++ ("-" ++ t)) ≡ k
unfolding before_dash all
before_dash-append String.[] t h = ap before_dash (dash-first t)
before_dash-append (String.◌∷◌ c k) t h = elim (Bool-cases (code c == 45)) [
  | inl e ↦ absurd (no_value_of (rw e at h))
  | inr e ↦
      ap before_dash (cons-append c k ("-" ++ t))
      ∙ rw e (ap (String.◌∷◌ c) (before_dash-append k t (rw e at h)))
]

after_dash-append : (k t : String) → HasNoDash k → after_dash (k ++ ("-" ++ t)) ≡ t
unfolding after_dash all
after_dash-append String.[] t h = ap after_dash (dash-first t)
after_dash-append (String.◌∷◌ c k) t h = elim (Bool-cases (code c == 45)) [
  | inl e ↦ absurd (no_value_of (rw e at h))
  | inr e ↦ ap after_dash (cons-append c k ("-" ++ t)) ∙ rw e (after_dash-append k t (rw e at h))
]

role_key-HasNoDash : (r : Role) → HasNoDash (role_key r)
unfolding all
role_key-HasNoDash buyer = refl
role_key-HasNoDash investor = refl
role_key-HasNoDash tenant = refl
role_key-HasNoDash landlord = refl
role_key-HasNoDash broker = refl

-- The role of a key.
abbrev role_of : String → Role
role_of s =
    if s =s= "buyer"
    then buyer
    else if s =s= "investor"
    then investor
    else if s =s= "tenant"
    then tenant
    else if s =s= "landlord"
    then landlord
    else broker

role_of-role_key : (r : Role) → role_of (role_key r) ≡ r
role_of-role_key buyer = refl
role_of-role_key investor = refl
role_of-role_key tenant = refl
role_of-role_key landlord = refl
role_of-role_key broker = refl

decode_zero : (t s : String) → decode (String.◌∷◌ "0" t ++ s) 0 ≡ decode (t ++ s) 0
unfolding decode
decode_zero t s = ap (λ u. decode u 0) (cons-append "0" t s)

decode-four_digits : (n : ℕ) → decode (four_digits n) 0 ≡ n
decode-four_digits n =
    let s = str (pos n) in
    let none_left : decode ("" ++ s) 0 ≡ n = ap (λ u. decode u 0) (nil-append s) ∙ decode-str n in
    let one = decode_zero "" s ∙ none_left in
    let two = decode_zero "0" s ∙ one in
    let three = decode_zero "00" s ∙ two in
    elim (Bool-cases (ltb n 10)) [
      | inl e ↦ rw e three
      | inr e ↦ elim (Bool-cases (ltb n 100)) [
        | inl f ↦ rw (e, f) two
        | inr f ↦ elim (Bool-cases (ltb n 1000)) [
          | inl g ↦ rw (e, f, g) one
          | inr g ↦ rw (e, f, g) (decode-str n)
        ]
      ]
    ]

abbrev pub id_of : Role → ℕ → String
id_of r n = role_key r ++ ("-" ++ four_digits n)

pub id_of-injective : (r q : Role) (n m : ℕ) → id_of r n ≡ id_of q m → (r ≡ q) × (n ≡ m)
id_of-injective r q n m h =
    let keys : role_key r ≡ role_key q =
      sym (before_dash-append (role_key r) (four_digits n) (role_key-HasNoDash r))
      ∙ ap before_dash h
      ∙ before_dash-append (role_key q) (four_digits m) (role_key-HasNoDash q) in
    let numbers : four_digits n ≡ four_digits m =
      sym (after_dash-append (role_key r) (four_digits n) (role_key-HasNoDash r))
      ∙ ap after_dash h
      ∙ after_dash-append (role_key q) (four_digits m) (role_key-HasNoDash q) in
    (
      sym (role_of-role_key r) ∙ ap role_of keys ∙ role_of-role_key q,
      sym (decode-four_digits n) ∙ ap (λ s. decode s 0) numbers ∙ decode-four_digits m,
    )
