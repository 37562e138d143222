-- ===== src/Events/InFile.antt =====
-- `FileEventStore` implements the log, for events whose JSON text is one line and reads back.
use mathlib.Core.Path.{◌≡◌, refl, sym, ◌∙◌, ap}
use mathlib.Core.Bool.{true, false}
use mathlib.Core.Logic.{inl, inr}
use mathlib.Core.Option.{Option, none, some}
use mathlib.Core.List.{List, [], ◌∷◌, ◌++◌}
use text.Mathlib.Text.{◌==◌}
use text.Mathlib.TextEquality.{eq_iff}
use younggeul.Prelude.{
  ℕ, String, get, has, sorted, get-set_item, get-without, length, All, All-append, Bool-cases,
  Option-cases,
}
use younggeul.Errors.{ok}
use younggeul.Events.{Event, Operation, append, clear, Log, log_step, step, by_time}
use younggeul.Events.File
use younggeul.Events.File.{
  count_of, Codec, Files, file_store, content, line_feed, is_line_feed, longer, lines, strip,
  lstrip, rstrip, kept, is_space, parse_line, parse, load, get_events, get_events_by_type, count,
}
use younggeul.Events.Refine.{Implements, AllowedOperation}

append_assoc : (xs ys zs : List ℕ) → (xs ++ ys) ++ zs ≡ xs ++ (ys ++ zs)
append_assoc [] ys zs = refl
append_assoc (x ∷ xs) ys zs = ap (λ (l : List ℕ). x ∷ l) (append_assoc xs ys zs)

abbrev IsInLine : ℕ → Type 0
IsInLine c = is_line_feed c ≡ false

-- The first line of a text ends with the first line feed.
lines-append :
    (line text : List ℕ)
    → All IsInLine line
    → lines (line ++ line_feed ∷ text) ≡ (line ++ line_feed ∷ []) ∷ lines text
unfolding lines
lines-append [] text a = refl
lines-append (c ∷ line) text a = rw (a.0, lines-append line text a.1) refl

-- A text that starts with `{` and ends with `}` is what `strip` leaves of its line.
rstrip-append : (text : List ℕ) → rstrip (text ++ b'}' ∷ line_feed ∷ []) ≡ text ++ b'}' ∷ []
unfolding rstrip is_space
rstrip-append [] = refl
rstrip-append (c ∷ []) = refl
rstrip-append (c ∷ d ∷ text) = rw (rstrip-append (d ∷ text)) refl

kept_more : (text : List ℕ) → kept b'{' (text ++ b'}' ∷ []) ≡ b'{' ∷ text ++ b'}' ∷ []
unfolding is_space
kept_more [] = refl
kept_more (c ∷ text) = refl

module _ (Payload : Type 0) (codec : Codec Payload) where
  -- The JSON text of the event is an object on one line, and reads back as the event.
  pub record IsEncoded (e : Event Payload) : Type 0 where
    pub body : List ℕ
    pub text : codec.encode e ≡ b'{' ∷ body ++ b'}' ∷ []
    pub one_line : All IsInLine (codec.encode e)
    pub round : codec.decode (codec.encode e) ≡ ok e

  strip-line :
      (e : Event Payload) → IsEncoded e → strip (codec.encode e ++ line_feed ∷ []) ≡ codec.encode e
  unfolding strip lstrip is_space rstrip
  strip-line e v = rw v.text (
      ap (kept b'{')
        (ap rstrip (append_assoc v.body (b'}' ∷ []) (line_feed ∷ [])) ∙ rstrip-append v.body)
      ∙ kept_more v.body)

  abbrev written : List (Event Payload) → List ℕ
  written [] = []
  written (e ∷ es) = codec.encode e ++ line_feed ∷ written es

  written-append :
      (es : List (Event Payload)) (e : Event Payload)
      → written (es ++ e ∷ []) ≡ written es ++ (codec.encode e ++ line_feed ∷ [])
  written-append [] e = refl
  written-append (x ∷ es) e = rw (written-append es e) (
      sym
        (append_assoc (codec.encode x) (line_feed ∷ written es) (codec.encode e ++ line_feed ∷ [])))

  parse_line-encoded :
      (e : Event Payload) (es : List (Event Payload))
      → IsEncoded e
      → parse_line Payload codec (codec.encode e) (ok es) ≡ ok (e ∷ es)
  unfolding parse_line
  parse_line-encoded e es v =
      let read : codec.decode (b'{' ∷ v.body ++ b'}' ∷ []) ≡ ok e = rw v.text at v.round in
      rw (v.text, read) refl

  parse-written :
      (es : List (Event Payload))
      → All IsEncoded es
      → parse Payload codec (lines (written es)) ≡ ok es
  unfolding parse lines
  parse-written [] a = refl
  parse-written (e ∷ es) a =
      rw
        (
          lines-append (codec.encode e) (written es) a.0.one_line,
          strip-line e a.0,
          parse-written es a.1,
        )
        (parse_line-encoded e es a.0)

  length-lines :
      (es : List (Event Payload)) → All IsEncoded es → length (lines (written es)) ≡ length es
  unfolding lines
  length-lines [] a = refl
  length-lines (e ∷ es) a =
      rw (lines-append (codec.encode e) (written es) a.0.one_line, length-lines es a.1) refl

  -- A run with events has a file of their lines; a run without a file has no events.
  OfRun : Option (List ℕ) → List (Event Payload) → Type 0
  OfRun none es = es ≡ []
  OfRun (some text) es = text ≡ written es

  record Holds (s : Files Payload codec) (log : Log Payload) : Type 0 where
    pub encoded : (id : String) → All IsEncoded (log id)
    pub of_run : (id : String) → OfRun (get s id) (log id)

  content-written :
      (file : Option (List ℕ)) (es : List (Event Payload))
      → OfRun file es
      → content Payload codec file ≡ written es
  unfolding OfRun
  content-written none es h = rw h refl
  content-written (some text) es h = h

  module _ (s : Files Payload codec) (log : Log Payload) (h : Holds s log) where
    append_step :
        (e : Event Payload)
        → IsEncoded e
        → Holds
            (step Payload (file_store Payload codec) s (append e))
            (log_step Payload log (append e))
    unfolding OfRun step log_step File.append
    append_step e v = record {
      encoded = λ id. elim (Bool-cases (e.run_id == id)) [
        | inl k ↦ rw k (All-append IsEncoded (log id) (e ∷ []) (h.encoded id) (v, tt))
        | inr k ↦ rw k (h.encoded id)
      ];
      of_run = λ id. elim (Bool-cases (e.run_id == id)) [
        | inl k ↦
            let same : e.run_id ≡ id = (eq_iff e.run_id id).0 k in
            rw (get-set_item, k)
              (ap (λ (t : List ℕ). t ++ (codec.encode e ++ line_feed ∷ []))
                  (content-written (get s e.run_id) (log e.run_id) (h.of_run e.run_id)
                    ∙ ap (λ i. written (log i)) same)
                ∙ sym (written-append (log id) e))
        | inr k ↦ rw (get-set_item, k) (h.of_run id)
      ];
    }

    cleared : (j id : String) → (j == id) ≡ true → OfRun (get (File.clear Payload codec s j) id) []
    unfolding OfRun File.clear
    cleared j id k = elim (Option-cases (get s j)) [
      | inl none_yet ↦ let same : j ≡ id = (eq_iff j id).0 k in rw (none_yet, ← same, none_yet) refl
      | inr (text, there) ↦ rw (there, get-without, k) refl
    ]

    clear_step :
        (j : String)
        → Holds
            (step Payload (file_store Payload codec) s (clear j))
            (log_step Payload log (clear j))
    unfolding OfRun step log_step File.clear
    clear_step j = record {
      encoded = λ id. elim (Bool-cases (j == id)) [ inl k ↦ rw k tt | inr k ↦ rw k (h.encoded id) ];
      of_run = λ id. elim (Bool-cases (j == id)) [
        | inl k ↦ rw k (cleared j id k)
        | inr k ↦ rw k (elim (Bool-cases (has s j)) [
          | inl there ↦ rw (there, get-without, k) (h.of_run id)
          | inr gone ↦ rw gone (h.of_run id)
        ])
      ];
    }

  reads :
      (file : Option (List ℕ)) (es : List (Event Payload))
      → All IsEncoded es
      → OfRun file es
      → load Payload codec file ≡ ok (by_time Payload es)
  unfolding OfRun load sorted
  reads none es a h = rw h refl
  reads (some text) es a h = rw (h, parse-written es a) refl

  counted :
      (file : Option (List ℕ)) (es : List (Event Payload))
      → All IsEncoded es
      → OfRun file es
      → count_of file ≡ length es
  unfolding OfRun count_of
  counted none es a h = rw h refl
  counted (some text) es a h = rw (h, length-lines es a) refl

  Holds-step :
      (s : Files Payload codec) (log : Log Payload) (o : Operation Payload)
      → AllowedOperation Payload IsEncoded o
      → Holds s log
      → Holds (step Payload (file_store Payload codec) s o) (log_step Payload log o)
  Holds-step s log (append e) a h = append_step s log h e a
  Holds-step s log (clear j) a h = clear_step s log h j

  pub file_implements : Implements Payload IsEncoded (file_store Payload codec)
  unfolding OfRun get_events get_events_by_type count get
  file_implements = record {
    holds = Holds;
    begins = record { encoded = λ id. tt; of_run = λ id. refl };
    steps = Holds-step;
    gets = λ s log id h. reads (get s id) (log id) (h.encoded id) (h.of_run id);
    gets_by_type =
        λ s log id event_type h. rw (reads (get s id) (log id) (h.encoded id) (h.of_run id)) refl;
    counts = λ s log id h. counted (get s id) (log id) (h.encoded id) (h.of_run id);
  }
