-- ===== src/Web/Sse/Json/Reader.antt =====
-- A reader of the JSON of an update: the keys may come in any order, and a string may hold every
-- escape but pairs of surrogates.
use corrupt_cv.Common.{
  ℕ, zero, suc, ◌+◌, ◌*◌, ◌||◌, true, false, List, [], ◌∷◌, Option, none, some, Text, codes,
  text_eq, ltb, ◌==◌, is_empty, if◌then◌else◌,
}
use corrupt_cv.Session.Hex.{undigit}
use corrupt_cv.Store.Rows.{Status, pending, rendering, completed, failed}
use corrupt_cv.Web.Status.{StatusUpdate}
use corrupt_cv.Web.Sse.Json.{quote, backslash}

-- Where a reader stands in a string: among characters, behind a backslash, or in the digits of
-- `\u`, of which so many follow.
pub data Mode : Type 0 where
  plain escaped : Mode
  unicode : (left value : ℕ) → Mode

-- What was read, and what is left.
abbrev pub Read {ℓ} : Type ℓ → Type ℓ
Read A = Option (A × Text)

abbrev pub keep : ℕ → Read Text → Read Text
keep c none = none
keep c (some (s, rest)) = some (c ∷ s, rest)

unfoldable pub unescape : ℕ → Option ℕ
unescape c =
    if c == quote || c == backslash || c == b'/'
    then some c
    else if c == b'b'
    then some 8
    else if c == b'f'
    then some 12
    else if c == b'n'
    then some 10
    else if c == b'r'
    then some 13
    else if c == b't'
    then some 9
    else none

unfoldable pub read_string : Mode → Text → Read Text
unfolding unescape undigit
read_string mode [] = none
read_string plain (c ∷ s) = elim (c == quote) [
  | true ↦ some ([], s)
  | false ↦ elim (c == backslash) [
    | true ↦ read_string escaped s
    | false ↦ elim (ltb c 0x20) [ true ↦ none | false ↦ keep c (read_string plain s) ]
  ]
]
read_string escaped (c ∷ s) = elim (c == b'u') [
  | true ↦ read_string (unicode 3 0) s
  | false ↦ elim (unescape c) [ none ↦ none | some d ↦ keep d (read_string plain s) ]
]
read_string (unicode zero value) (c ∷ s) = elim (undigit c) [
  | none ↦ none
  | some d ↦ keep (value * 16 + d) (read_string plain s)
]
read_string (unicode (suc left) value) (c ∷ s) = elim (undigit c) [
  | none ↦ none
  | some d ↦ read_string (unicode left (value * 16 + d)) s
]

-- What follows a literal that a text starts with.
unfoldable pub strip : Text → Text → Option Text
strip [] s = some s
strip (c ∷ prefix) [] = none
strip (c ∷ prefix) (d ∷ s) = let rest = strip prefix s in if d == c then rest else none

infixl 5 ◌>>=◌
abbrev pub ◌>>=◌ {ℓ κ} : {A : Type ℓ} {B : Type κ} → Option A → (A → Option B) → Option B
none >>= f = none
some a >>= f = f a

abbrev pub present : Read Text → Read (Option Text)
present none = none
present (some (s, rest)) = some (some s, rest)

abbrev pub absent : Option Text → Read (Option Text)
absent none = none
absent (some rest) = some (none, rest)

-- A string or null.
unfoldable pub read_nullable : Text → Read (Option Text)
unfolding read_string strip
read_nullable [] = none
read_nullable (c ∷ s) =
    if c == quote then present (read_string plain s) else absent (strip (codes "null") (c ∷ s))

unfoldable pub read_member : Text → Read (Text × Option Text)
unfolding strip read_nullable
read_member s = do
  s ← strip (quote ∷ []) s
  key ← read_string plain s
  s ← strip (codes ":") key.1
  value ← read_nullable s
  some ((key.0, value.0), value.1)

-- The value at a key; a key that is missing is an error.
unfoldable pub lookup : Text → List (Text × Option Text) → Option (Option Text)
unfolding text_eq
lookup key [] = none
lookup key ((k, v) ∷ ms) = if text_eq k key then some v else lookup key ms

unfoldable pub read_status : Option Text → Option Status
unfolding text_eq
read_status none = none
read_status (some s) =
    if text_eq s (codes "pending")
    then some pending
    else if text_eq s (codes "rendering")
    then some rendering
    else if text_eq s (codes "completed")
    then some completed
    else if text_eq s (codes "failed")
    then some failed
    else none

unfoldable pub update_of : List (Text × Option Text) → Option StatusUpdate
unfolding lookup read_status
update_of ms = do
  value ← lookup (codes "status") ms
  status ← read_status value
  error ← lookup (codes "error") ms
  url ← lookup (codes "download_url") ms
  some (record { status = status; error = error; download_url = url })

-- An object of three members, and nothing behind it.
unfoldable pub read_update : Text → Option StatusUpdate
unfolding update_of strip
read_update s = do
  s ← strip (codes "{") s
  a ← read_member s
  s ← strip (codes ",") a.1
  b ← read_member s
  s ← strip (codes ",") b.1
  c ← read_member s
  s ← strip (codes "}") c.1
  if is_empty s then update_of (a.0 ∷ b.0 ∷ c.0 ∷ []) else none
