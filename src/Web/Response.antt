-- ===== src/Web/Response.antt =====
-- What a handler answers with, and the rejections that metrics.go counts.
use corrupt_cv.Common.{
  ℕ, ◌+◌, ◌-◌, ◌/◌, ◌%◌, Bool, ◌&&◌, ◌||◌, [], ◌∷◌, ◌++◌, Text, Bytes, codes, leb, ltb, ◌==◌,
  if◌then◌else◌,
}

pub data Response : Type 0 where
  text : (status : ℕ) → Text → Response
  see_other : (location : Text) → Response

abbrev pub internal_error : Response
internal_error = text 500 (codes "internal error")

pub data Reason : Type 0 where
  empty_description unknown_model missing_api_key no_profile job_too_long career_too_long
        incomplete_profile :
      Reason

-- The bytes of a rune in UTF-8.
unfoldable pub utf8 : ℕ → Bytes
utf8 c =
    if leb c 0x7f
    then c ∷ []
    else if leb c 0x7ff
    then (0xc0 + c / 64) ∷ (0x80 + c % 64) ∷ []
    else if leb c 0xffff
    then (0xe0 + c / 4096) ∷ (0x80 + c / 64 % 64) ∷ (0x80 + c % 64) ∷ []
    else (0xf0 + c / 262144) ∷ (0x80 + c / 4096 % 64) ∷ (0x80 + c / 64 % 64) ∷ (0x80 + c % 64) ∷ []

abbrev upper_hex : ℕ → ℕ
upper_hex d = if ltb d 10 then b'0' + d else b'A' + (d - 10)

abbrev percent : Bytes → Text
percent [] = []
percent (b ∷ bs) = b'%' ∷ upper_hex (b / 16) ∷ upper_hex (b % 16) ∷ percent bs

abbrev is_unreserved : ℕ → Bool
is_unreserved c =
    leb b'a' c && leb c b'z'
    || leb b'A' c && leb c b'Z'
    || leb b'0' c && leb c b'9'
    || c == b'-'
    || c == b'_'
    || c == b'.'
    || c == b'~'

-- `url.QueryEscape`
unfoldable pub query_escape : Text → Text
unfolding utf8
query_escape [] = []
query_escape (c ∷ s) =
    (if is_unreserved c then c ∷ [] else if c == 32 then b'+' ∷ [] else percent (utf8 c))
    ++ query_escape s

-- `redirectWithError`
unfoldable pub redirect_with_error : Text → Response
unfolding query_escape
redirect_with_error msg = see_other (codes "/?error=" ++ query_escape msg)
