-- ===== src/Web/Sse/Json.antt =====
-- `json.Marshal` of a `StatusUpdate`.
pub mod Reader
pub mod RoundTrip
pub mod Printable
use corrupt_cv.Common.{
  ℕ, All, All-append, Option-cases, Bool, ◌<◌, ◌≤◌, String, zero, suc, ◌+◌, ◌-◌, ◌*◌, ◌/◌, ◌%◌, ◌≡◌,
  refl, ap, ◌∙◌, ◌&&◌, ◌||◌, true, false, List, [], ◌∷◌, ◌++◌, Option, none, some, arith, Text,
  codes, append_assoc, text_eq, ltb, leb, ◌==◌, is_empty, if◌then◌else◌, inl, inr, Bool-cases,
}
use corrupt_cv.Session.Hex.{digit, undigit, undigit-digit}
use corrupt_cv.Store.Rows.{Status, pending, rendering, completed, failed}
use corrupt_cv.Web.Status.{StatusUpdate}

abbrev quote : ℕ
quote = 0x22

abbrev backslash : ℕ
backslash = 0x5c

-- The letter that stands for a rune behind a backslash.
letter : ℕ → Option ℕ
letter c =
    if c == quote || c == backslash
    then some c
    else if c == 8
    then some b'b'
    else if c == 12
    then some b'f'
    else if c == 10
    then some b'n'
    else if c == 13
    then some b'r'
    else if c == 9
    then some b't'
    else none

-- Control characters, and those of HTML.
is_unsafe : ℕ → Bool
is_unsafe c = ltb c 0x20 || c == b'<' || c == b'>' || c == b'&'

-- A rune without a letter; the two line separators of Unicode are escaped too.
escape_other : ℕ → Text
unfolding digit is_unsafe
escape_other c =
    if is_unsafe c
    then backslash ∷ b'u' ∷ b'0' ∷ b'0' ∷ digit (c / 16) ∷ digit (c % 16) ∷ []
    else if c == 0x2028 || c == 0x2029
    then backslash ∷ b'u' ∷ b'2' ∷ b'0' ∷ b'2' ∷ digit (c % 16) ∷ []
    else c ∷ []

abbrev escape_by : ℕ → Option ℕ → Text
escape_by c (some e) = backslash ∷ e ∷ []
escape_by c none = escape_other c

-- A rune of a Go string as `json.Marshal` writes it.
escape_rune : ℕ → Text
unfolding letter escape_other
escape_rune c = escape_by c (letter c)

escape : Text → Text
unfolding escape_rune
escape [] = []
escape (c ∷ s) = escape_rune c ++ escape s

abbrev json_string : Text → Text
json_string s = quote ∷ (escape s ++ quote ∷ [])

-- A `*string`.
abbrev json_nullable : Option Text → Text
json_nullable none = codes "null"
json_nullable (some s) = json_string s

-- The value of `Status`, as the table has it.
abbrev pub status_text : Status → Text
status_text pending = codes "pending"
status_text rendering = codes "rendering"
status_text completed = codes "completed"
status_text failed = codes "failed"

abbrev member : String → Text → Text
member key value = json_string (codes key) ++ b':' ∷ value

-- The keys are those of the field tags; there is no `omitempty`.
unfoldable pub marshal_update : StatusUpdate → Text
unfolding escape
marshal_update u =
    b'{'
    ∷ (member "status" (json_string (status_text u.status))
        ++ b','
          ∷ (member "error" (json_nullable u.error)
              ++ b',' ∷ (member "download_url" (json_nullable u.download_url) ++ b'}' ∷ [])))
