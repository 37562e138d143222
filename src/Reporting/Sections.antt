-- ===== src/Reporting/Sections.antt =====
-- simulation/nodes/report_renderer.py: every claim that is not blocked is in the section that it
-- names, and every section is there once.
use mathlib.Core.Path.{◌≡◌, refl, sym, ap, ◌∙◌, subst}
use mathlib.Core.Bool.{true, false}
use mathlib.Core.Logic.{inl, inr}
use mathlib.Core.List.{List, [], ◌∷◌, ◌++◌, append-nil, append_assoc, map}
use native.Mathlib.Omega.{arith}
use text.Mathlib.Text.{◌==◌}
use text.Mathlib.TextEquality.{eq_iff}
use younggeul.Prelude.{
  ℕ, ◌+◌, ◌≤◌, ℤ, All-map, not, String, get, get-set_item, has, has-knows, set_item,
  set_item-IsUnique, keys, knows, IsUnique, length, str_leb, sorted, select, any, All, All-select,
  is_some, knows-append, knows-select, knows-sorted, select-IsUnique, sorted-IsUnique,
  append-IsUnique, Bool-cases, if◌then◌else◌,
}
use younggeul.Floats.{FloatOps}
use younggeul.State.{RunMeta}
use younggeul.Report.{Claim, RenderedClaimEntry, RenderedSection}
use younggeul.Reporting.{TextOps}
use younggeul.Reporting.Render.{
  get_section_key, entry, Sections, section_of, section_entries, section_order, sorted_section_keys,
  rendered_section, rendered_claims, render,
}

-- The claims of a section.
abbrev pub claims_of : String → List Claim → List Claim
claims_of key = select (λ c. get_section_key c == key)

section_of-set_item :
    (d : Sections) (k key : String) (entries : List RenderedClaimEntry)
    → section_of (set_item d k entries) key ≡ (if k == key then entries else section_of d key)
unfolding section_of
section_of-set_item d k key entries = ground (arith, get-set_item d k key entries)

pub section_of-section_entries :
    (cs : List Claim) (d : Sections) (key : String)
    → section_of (section_entries cs d) key ≡ section_of d key ++ map entry (claims_of key cs)
unfolding section_entries select
section_of-section_entries [] d key = sym (append-nil (section_of d key))
section_of-section_entries (c ∷ cs) d key =
    let k = get_section_key c in
    let entries = section_of d k ++ entry c ∷ [] in
    let rest = section_of-section_entries cs (set_item d k entries) key in
    let now = section_of-set_item d k key entries in
    elim (Bool-cases (k == key)) [
      | inl e ↦ rw e (
          rest
          ∙ ap (λ l. l ++ map entry (claims_of key cs))
              (now
                ∙ rw e (ap (λ (j : String). section_of d j ++ entry c ∷ []) ((eq_iff k key).0 e)))
          ∙ append_assoc (section_of d key) (entry c ∷ []) (map entry (claims_of key cs)))
      | inr e ↦ rw e (rest ∙ ap (λ l. l ++ map entry (claims_of key cs)) (now ∙ rw e refl))
    ]

-- A section is there where a claim names it.
has-section_entries :
    (cs : List Claim) (d : Sections) (key : String)
    → has (section_entries cs d) key
      ≡ (if has d key then true else any (λ c. get_section_key c == key) cs)
unfolding section_entries any
has-section_entries [] d key = ground arith
has-section_entries (c ∷ cs) d key =
    let k = get_section_key c in
    let entries = section_of d k ++ entry c ∷ [] in
    let rest = has-section_entries cs (set_item d k entries) key in
    let now = get-set_item d k key entries in
    elim (Bool-cases (k == key)) [
      | inl e ↦
          let found : has (set_item d k entries) key ≡ true = ap is_some now ∙ rw e refl in
          rest ∙ rw (found, e) (ground arith)
      | inr e ↦
          let found : has (set_item d k entries) key ≡ has d key = ap is_some now ∙ rw e refl in
          rest ∙ rw (found, e) refl
    ]

section_entries-IsUnique :
    (cs : List Claim) (d : Sections) → IsUnique (keys d) → IsUnique (keys (section_entries cs d))
unfolding section_entries
section_entries-IsUnique [] d u = u
section_entries-IsUnique (c ∷ cs) d u =
    section_entries-IsUnique cs _ (set_item-IsUnique d (get_section_key c) _ u)

sorted_section_keys-knows :
    (d : Sections) (key : String) → knows (sorted_section_keys d) key ≡ has d key
unfolding sorted_section_keys
sorted_section_keys-knows d key =
    let unknown = select (λ k. not (knows section_order k)) (keys d) in
    ground (
      arith,
      knows-append (select (has d) section_order) (sorted str_leb unknown) key,
      knows-select (has d) section_order key,
      knows-sorted unknown key,
      knows-select (λ k. not (knows section_order k)) (keys d) key,
      has-knows d key,
    )

sorted_section_keys-IsUnique : (d : Sections) → IsUnique (keys d) → IsUnique (sorted_section_keys d)
unfolding sorted_section_keys knows
sorted_section_keys-IsUnique d u =
    let unknown = select (λ k. not (knows section_order k)) (keys d) in
    append-IsUnique (select (has d) section_order) (sorted str_leb unknown)
      (select-IsUnique (has d) section_order (refl, (refl, (refl, (refl, (refl, tt))))))
      (sorted-IsUnique unknown (select-IsUnique _ (keys d) u))
      (All-select _ (has d) section_order (
        All-map (λ j. knows section_order j ≡ true) _ section_order
          (λ j known.
            let apart : knows unknown j ≡ false =
              ground (arith, known, knows-select (λ k. not (knows section_order k)) (keys d) j) in
            knows-sorted unknown j ∙ apart)
          (refl, (refl, (refl, (refl, (refl, tt)))))))

module _ (F : FloatOps) (T : TextOps F) where
  -- Each section is there once, where a claim names it, and has the entries of its claims in order.
  pub record IsComplete (claims : List Claim) (sections : List RenderedSection) : Type 0 where
    pub once : IsUnique (map (λ s. s.section_key) sections)
    pub named :
        (key : String)
        → knows (map (λ s. s.section_key) sections) key
          ≡ any (λ c. get_section_key c == key) (rendered_claims F T claims)
    pub filled :
        All
          (λ s.
            (s.claims ≡ map entry (claims_of s.section_key (rendered_claims F T claims)))
            × (s.claim_count ≡ length s.claims))
          sections

  section_keys :
      (d : Sections) (ks : List String)
      → map (λ s. s.section_key) (map (rendered_section F T d) ks) ≡ ks
  section_keys d [] = refl
  section_keys d (k ∷ ks) = ap (λ l. k ∷ l) (section_keys d ks)

  sections-filled :
      (claims : List Claim) (ks : List String)
      → All
          (λ s.
            (s.claims ≡ map entry (claims_of s.section_key claims))
            × (s.claim_count ≡ length s.claims))
          (map (rendered_section F T (section_entries claims [])) ks)
  unfolding section_of get
  sections-filled claims [] = tt
  sections-filled claims (k ∷ ks) =
      ((section_of-section_entries claims [] k, refl), sections-filled claims ks)

  length-rendered_claims :
      (claims : List Claim) → length (rendered_claims F T claims) ≤ length claims
  unfolding select
  length-rendered_claims [] = omega arith
  length-rendered_claims (c ∷ cs) = ground (arith, length-rendered_claims cs)

  -- The rendered report has one section for each section that a claim which is not blocked names, and
  -- no other; it has, in the order of the report, an entry for each such claim that names it, and
  -- counts them. The passed and the failed claims add up to the total.
  pub render-IsComplete :
      (run_meta : RunMeta) (round_no : ℤ) (rendered_at : ℕ) (claims : List Claim)
      → IsComplete claims (render F T run_meta round_no rendered_at claims).sections
        × ((render F T run_meta round_no rendered_at claims).passed_claims
              + (render F T run_meta round_no rendered_at claims).failed_claims
            ≡ (render F T run_meta round_no rendered_at claims).total_claims)
  unfolding render get
  render-IsComplete run_meta round_no rendered_at claims =
      let shown = rendered_claims F T claims in
      let d = section_entries shown [] in
      let same = section_keys d (sorted_section_keys d) in
      (
        record {
          once =
              subst IsUnique (sym same)
                (sorted_section_keys-IsUnique d (section_entries-IsUnique shown [] tt));
          named = λ key.
              ap (λ ks. knows ks key) same
              ∙ sorted_section_keys-knows d key
              ∙ has-section_entries shown [] key;
          filled = sections-filled shown (sorted_section_keys d);
        },
        omega (arith, length-rendered_claims claims),
      )
