-- ===== src/Events/File.antt =====
-- simulation/event_store.py, `FileEventStore`: one file of JSON lines for each run. A file is its
-- code points, and a run's file is looked up by the run's id, which its name contains. The JSON
-- text of an event and its reading are parameters; reading splits at the line feeds, since JSON text
-- has no carriage return of its own. The ids are file names that are distinct for distinct ids.
use mathlib.Core.Bool.{Bool, ◌&&◌, ◌||◌}
use mathlib.Core.Option.{Option, none, some}
use mathlib.Core.List.{List, [], ◌∷◌, ◌++◌}
use younggeul.Prelude.{
  ℕ, leb, ◌==◌, String, Dict, get, has, set_item, without, length, if◌then◌else◌,
}
use younggeul.Errors.{Result, ok, ◌>>=◌}
use younggeul.Events.{Event, EventStore, by_time, of_type}

abbrev pub line_feed : ℕ
line_feed = 10

abbrev pub is_line_feed : ℕ → Bool
is_line_feed c = c == line_feed

-- The first line goes on with the character.
abbrev pub longer : ℕ → List (List ℕ) → List (List ℕ)
longer c [] = (c ∷ []) ∷ []
longer c (line ∷ rest) = (c ∷ line) ∷ rest

-- `for line in file`: the lines with their line feeds, and what stands after the last one.
unfoldable pub lines : List ℕ → List (List ℕ)
lines [] = []
lines (c ∷ text) =
    let rest = lines text in if is_line_feed c then (c ∷ []) ∷ rest else longer c rest

-- `str.isspace`
unfoldable pub is_space : ℕ → Bool
is_space c =
    (leb 9 c && leb c 13)
    || (leb 28 c && leb c 32)
    || c == 133
    || c == 160
    || c == 5760
    || (leb 8192 c && leb c 8202)
    || c == 8232
    || c == 8233
    || c == 8239
    || c == 8287
    || c == 12288

unfoldable pub lstrip : List ℕ → List ℕ
lstrip [] = []
lstrip (c ∷ text) = let rest = lstrip text in if is_space c then rest else c ∷ text

-- A space in front of a rest that is kept is kept.
abbrev pub kept : ℕ → List ℕ → List ℕ
kept c [] = if is_space c then [] else c ∷ []
kept c (d ∷ text) = c ∷ d ∷ text

unfoldable pub rstrip : List ℕ → List ℕ
rstrip [] = []
rstrip (c ∷ text) = kept c (rstrip text)

unfoldable pub strip : List ℕ → List ℕ
unfolding lstrip rstrip
strip text = rstrip (lstrip text)

-- `model_dump_json`, and `json.loads` with `model_validate`.
pub record Codec (Payload : Type 0) : Type 0 where
  pub encode : Event Payload → List ℕ
  pub decode : List ℕ → Result (Event Payload)

-- `if not run_path.exists(): return 0`
unfoldable pub count_of : Option (List ℕ) → ℕ
count_of none = 0
count_of (some text) = length (lines text)

module _ (Payload : Type 0) (codec : Codec Payload) where
  abbrev pub Files : Type 0
  Files = Dict (List ℕ)

  abbrev pub content : Option (List ℕ) → List ℕ
  content none = []
  content (some text) = text

  -- A file that is opened with "a" is made if it is not there.
  unfoldable pub append : Files → Event Payload → Files
  append s e = set_item s e.run_id (content (get s e.run_id) ++ (codec.encode e ++ line_feed ∷ []))

  -- A line of the file, stripped: a blank one is passed over.
  unfoldable pub parse_line : List ℕ → Result (List (Event Payload)) → Result (List (Event Payload))
  parse_line [] others = others
  parse_line (c ∷ text) others = do e ← codec.decode (c ∷ text); events ← others; ok (e ∷ events)

  -- The loop over the lines.
  unfoldable pub parse : List (List ℕ) → Result (List (Event Payload))
  unfolding parse_line
  parse [] = ok []
  parse (line ∷ rest) = parse_line (strip line) (parse rest)

  -- `if not run_path.exists(): return []`
  unfoldable pub load : Option (List ℕ) → Result (List (Event Payload))
  load none = ok []
  load (some text) = do events ← parse (lines text); ok (by_time Payload events)

  unfoldable pub get_events : Files → String → Result (List (Event Payload))
  get_events s run_id = load (get s run_id)

  unfoldable pub get_events_by_type : Files → String → String → Result (List (Event Payload))
  unfolding get_events
  get_events_by_type s run_id event_type = do
    events ← get_events s run_id
    ok (of_type Payload event_type events)

  unfoldable pub count : Files → String → ℕ
  count s run_id = count_of (get s run_id)

  unfoldable pub clear : Files → String → Files
  clear s run_id = if has s run_id then without s run_id else s

  abbrev pub file_store : EventStore Payload
  file_store = record {
    State = Files;
    empty = [];
    append = append;
    clear = clear;
    get_events = get_events;
    get_events_by_type = get_events_by_type;
    count = count;
  }
