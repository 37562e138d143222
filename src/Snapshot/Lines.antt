-- ===== src/Snapshot/Lines.antt =====
-- snapshot.py of the application: the rows of a table as lines of text, and `str.splitlines`.
use Prim.Native.Char.{code}
use Prim.Native.String.{String, ◌++◌}
use mathlib.Core.Path.{◌≡◌, refl, sym, ap, ◌∙◌}
use mathlib.Core.Bool.{Bool, true, false, ◌&&◌, ◌||◌}
use mathlib.Core.List.{List, [], ◌∷◌}
use mathlib.Core.Logic.{inl, inr}
use text.Mathlib.Text.{◌==◌ as ◌=s=◌}
use text.Mathlib.TextLemmas.{nil-append, cons-append, append-nil, append_assoc}
use younggeul.Prelude.{ℕ, ◌==◌, leb, codes, all, not, All, Bool-cases, join, if◌then◌else◌}

-- The code points that end a line: 10 to 13, 28 to 30, 133, 8232 and 8233.
abbrev pub is_break : ℕ → Bool
is_break c =
    (leb 10 c && leb c 13) || (leb 28 c && leb c 30) || (c == 133) || (c == 8232) || (c == 8233)

abbrev pub last_line : String → List String
last_line line = if line =s= "" then [] else line ∷ []

-- The lines from a current one on; a line feed right after a carriage return belongs to it.
unfoldable pub lines_from : Bool → String → String → List String
lines_from after_cr line String.[] = last_line line
lines_from after_cr line (String.◌∷◌ c s) =
    let skipped = lines_from false line s in
    let ended = lines_from (code c == 13) "" s in
    let longer = lines_from false (line ++ String.◌∷◌ c String.[]) s in
    if after_cr && (code c == 10)
    then skipped
    else if is_break (code c)
    then line ∷ ended
    else longer

-- `text.splitlines()`
unfoldable pub splitlines : String → List String
unfolding lines_from
splitlines s = lines_from false "" s

-- `b"\n".join(lines) + b"\n"`, and nothing for no lines
abbrev pub jsonl_bytes : List String → String
jsonl_bytes [] = ""
jsonl_bytes (l ∷ ls) = join "\n" (l ∷ ls) ++ "\n"

-- A text without the end of a line.
abbrev pub IsLine : String → Type 0
IsLine s = all (λ c. not (is_break c)) (codes s) ≡ true

broken : false ≡ true → ⊥
broken h = cc

line-first :
    (l line rest : String)
    → IsLine l
    → lines_from false line (l ++ ("\n" ++ rest)) ≡ (line ++ l) ∷ lines_from false "" rest
unfolding lines_from all
line-first String.[] line rest h =
    let whole : ("" ++ ("\n" ++ rest)) ≡ String.◌∷◌ "\n" rest =
      nil-append _ ∙ cons-append "\n" "" rest ∙ ap (String.◌∷◌ "\n") (nil-append rest) in
    ap (lines_from false line) whole
    ∙ ap (λ t. t ∷ lines_from false "" rest) (sym (append-nil line))
line-first (String.◌∷◌ c l) line rest h = elim (Bool-cases (is_break (code c))) [
  | inl e ↦ absurd (broken (rw e at h))
  | inr e ↦
      let grown : (line ++ String.◌∷◌ c String.[]) ++ l ≡ line ++ String.◌∷◌ c l =
        append_assoc line (String.◌∷◌ c String.[]) l
        ∙ ap (λ t. line ++ t) (cons-append c String.[] l ∙ ap (String.◌∷◌ c) (nil-append l)) in
      ap (lines_from false line) (cons-append c l ("\n" ++ rest))
      ∙ rw e (line-first l (line ++ String.◌∷◌ c String.[]) rest (rw e at h))
      ∙ ap (λ t. t ∷ lines_from false "" rest) grown
]

joined_lines :
    (l : String) (ls : List String) → jsonl_bytes (l ∷ ls) ≡ l ++ ("\n" ++ jsonl_bytes ls)
unfolding join
joined_lines l [] = ap (λ t. l ++ t) (sym (append-nil "\n"))
joined_lines l (k ∷ ls) =
    append_assoc l ("\n" ++ join "\n" (k ∷ ls)) "\n"
    ∙ ap (λ t. l ++ t) (append_assoc "\n" (join "\n" (k ∷ ls)) "\n")

-- The lines of the bytes are the lines that were written, where none has the end of a line in it.
pub splitlines-jsonl_bytes : (ls : List String) → All IsLine ls → splitlines (jsonl_bytes ls) ≡ ls
unfolding splitlines
splitlines-jsonl_bytes [] h = refl
splitlines-jsonl_bytes (l ∷ ls) h =
    ap (lines_from false "") (joined_lines l ls)
    ∙ line-first l "" (jsonl_bytes ls) h.0
    ∙ ap (λ t. t ∷ lines_from false "" (jsonl_bytes ls)) (nil-append l)
    ∙ ap (λ ks. l ∷ ks) (splitlines-jsonl_bytes ls h.1)
