-- ===== src/Web/Sse/Wire/EventSource.antt =====
-- The client: how an `EventSource` reads a stream, as the HTML standard has it. Of a stream's
-- fields only `event` and `data` matter to what it hands on.
use corrupt_cv.Common.{
  Bool, false, ◌&&◌, List, [], ◌∷◌, ◌++◌, map, Option, none, some, Text, codes, text_eq, select,
  ◌==◌, is_empty, if◌then◌else◌,
}
use corrupt_cv.Strings.{split, join, cut}
use corrupt_cv.Web.Status.{StatusUpdate}
use corrupt_cv.Web.Sse.Json.Reader.{read_update}

-- A line ends at "\n", "\r" or "\r\n": each becomes "\n". The flag says that a "\r" stands before.
unfoldable pub unify_ends : Bool → Text → Text
unify_ends behind_cr [] = []
unify_ends behind_cr (c ∷ s) =
    let rest = unify_ends (c == 13) s in
    if c == 13 then 10 ∷ rest else if behind_cr && c == 10 then rest else c ∷ rest

-- An event under construction: its type and the lines of its data.
pub record Buffer : Type 0 where
  pub kind : Text
  pub lines : List Text

abbrev pub empty : Buffer
empty = record { kind = []; lines = [] }

pub record Event : Type 0 where
  pub kind : Text
  pub payload : Text

-- A blank line hands the event on, if there is data.
abbrev pub dispatch : Buffer → List Event
dispatch b =
    if is_empty b.lines
    then []
    else record {
      kind = if is_empty b.kind then codes "message" else b.kind;
      payload = join 10 b.lines;
    }
      ∷ []

-- One space behind the colon does not count.
abbrev pub trim_one : Text → Text
trim_one [] = []
trim_one (c ∷ s) = if c == b' ' then s else c ∷ s

-- Fields of other names are ignored, comments among them: their name is empty.
unfoldable pub set_field : Buffer → Text → Text → Buffer
unfolding text_eq
set_field b name value =
    if text_eq name (codes "event")
    then record b { kind = value }
    else if text_eq name (codes "data")
    then record b { lines = b.lines ++ value ∷ [] }
    else b

-- A line without a colon is a name.
abbrev pub read_field : Buffer → Text → Option (Text × Text) → Buffer
read_field b line none = set_field b line []
read_field b line (some (name, value)) = set_field b name (trim_one value)

unfoldable pub read_line : Buffer → Text → Buffer × List Event
unfolding cut
read_line b [] = (empty, dispatch b)
read_line b (c ∷ line) = (read_field b (c ∷ line) (cut b':' (c ∷ line)), [])

-- What stands behind the last end of a line is not complete, and is dropped with its event.
unfoldable pub read_lines : Buffer → List Text → List Event
read_lines b [] = []
read_lines b (line ∷ []) = []
read_lines b (line ∷ next ∷ lines) =
    let (b', events) = read_line b line in events ++ read_lines b' (next ∷ lines)

unfoldable pub read_stream : Text → List Event
unfolding unify_ends read_lines
read_stream s = read_lines empty (split 10 (unify_ends false s))

-- The listener of job.js: the data of events of type "status" is parsed; `none` is an error.
unfoldable pub parse_updates : List Event → List (Option StatusUpdate)
unfolding text_eq
parse_updates events =
    map (λ (e : Event). read_update e.payload)
      (select (λ (e : Event). text_eq e.kind (codes "status")) events)

unfoldable pub received : Text → List (Option StatusUpdate)
unfolding read_stream parse_updates
received s = parse_updates (read_stream s)
