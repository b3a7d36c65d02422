-- ===== src/Web/Limits.antt =====
-- services/gateway/internal/web/limits.go. `len` of a Go string counts bytes.
use corrupt_cv.Common.{
  ℕ, ◌*◌, ◌≤◌, ◌<◌, ◌≡◌, ◌↔◌, [], ◌∷◌, Option, none, some, arith, Text, codes, All, ltb, length,
  if◌then◌else◌,
}
use corrupt_cv.Strings.{byte_length, width}
use corrupt_cv.Web.Response.{Response, text}

abbrev pub max_career_text_chars : ℕ
max_career_text_chars = 100000

abbrev pub max_job_description_chars : ℕ
max_job_description_chars = 20000

pub data SizeError : Type 0 where
  job_description_too_long career_text_too_long : SizeError

-- `validateJobSizes`; `none` is nil.
unfoldable pub validate_job_sizes : (job_description career_text : Text) → Option SizeError
validate_job_sizes job_description career_text =
    if ltb max_job_description_chars (byte_length job_description)
    then some job_description_too_long
    else if ltb max_career_text_chars (byte_length career_text)
    then some career_text_too_long
    else none

-- How the parsing of a form ends: `http.MaxBytesError` is `too_large`.
pub data FormError : Type 0 where
  too_large malformed : FormError

-- `limitRequestBody`; `none` is `c.Next()`.
unfoldable pub limit_request_body : Option FormError → Option Response
limit_request_body none = none
limit_request_body (some too_large) = some (text 413 (codes "request body too large"))
limit_request_body (some malformed) = some (text 400 (codes "malformed form body"))

-- The caps are met, in bytes, exactly when the job is let through, and a description that is too long is
-- reported before a career text that is.
pub validate_job_sizes_iff :
    (d c : Text)
    → ((validate_job_sizes d c ≡ none) ↔ ((byte_length d ≤ 20000) × (byte_length c ≤ 100000)))
      × ((validate_job_sizes d c ≡ some job_description_too_long) ↔ (20000 < byte_length d))
unfolding validate_job_sizes
validate_job_sizes_iff d c = (ground arith, ground arith)

-- Runes past U+007F take two bytes or more.
wide-byte_length : (t : Text) → All (λ c. 0x7f < c) t → 2 * length t ≤ byte_length t
unfolding byte_length
wide-byte_length [] _ = omega arith
wide-byte_length (c ∷ s) (wide, h) =
    let two : 2 ≤ width c = ground arith in omega (arith, two, wide-byte_length s h)

-- A description of more than 10,000 characters, none of them ASCII, is refused, though the cap
-- that the visitor is told is 20,000 characters.
pub validate_job_sizes_wide :
    (d c : Text)
    → All (λ r. 0x7f < r) d
    → 10000 < length d
    → validate_job_sizes d c ≡ some job_description_too_long
validate_job_sizes_wide d c wide long =
    (validate_job_sizes_iff d c).1.1 (omega (arith, wide-byte_length d wide))
