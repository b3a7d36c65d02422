-- ===== src/Web/Sse/Json/Printable.antt =====
-- JSON fits on one line.
use corrupt_cv.Common.{
  ℕ, All, All-append, Option-cases, ◌≤◌, String, ◌/◌, ◌%◌, ◌≡◌, [], ◌∷◌, ◌++◌, Option, none, some,
  arith, Text, codes, inl, inr,
}
use corrupt_cv.Session.Hex.{digit}
use corrupt_cv.Web.Status.{StatusUpdate}
use corrupt_cv.Web.Sse.Json.{
  letter, is_unsafe, escape_other, escape_rune, escape, json_nullable, status_text, member,
  marshal_update,
}

-- No rune is a control character, the ends of lines among them.
abbrev pub IsPrintable : Text → Type 0
IsPrintable = All (λ c. 0x20 ≤ c)

digit_bound : (d : ℕ) → 0x20 ≤ digit d
unfolding digit
digit_bound d = ground arith

letter_bound : (c e : ℕ) → letter c ≡ some e → 0x20 ≤ e
unfolding letter
letter_bound c e h = ground arith

escape_other-IsPrintable : (c : ℕ) → IsPrintable (escape_other c)
unfolding escape_other is_unsafe
escape_other-IsPrintable c = ground (arith, digit_bound (c / 16), digit_bound (c % 16))

escape_rune-IsPrintable : (c : ℕ) → IsPrintable (escape_rune c)
unfolding escape_rune
escape_rune-IsPrintable c = elim (Option-cases (letter c)) [
  | inl e ↦ rw e (escape_other-IsPrintable c)
  | inr (d, e) ↦ rw e (omega arith, (letter_bound c d e, tt))
]

escape-IsPrintable : (s : Text) → IsPrintable (escape s)
unfolding escape
escape-IsPrintable [] = tt
escape-IsPrintable (c ∷ s) =
    All-append _ (escape_rune c) (escape s) (escape_rune-IsPrintable c) (escape-IsPrintable s)

json_nullable-IsPrintable : (v : Option Text) → IsPrintable (json_nullable v)
json_nullable-IsPrintable none = ground arith
json_nullable-IsPrintable (some s) =
    (omega arith, All-append _ (escape s) _ (escape-IsPrintable s) (omega arith, tt))

member-IsPrintable :
    (key : String) (v : Option Text) (rest : Text)
    → IsPrintable rest
    → IsPrintable (member key (json_nullable v) ++ rest)
member-IsPrintable key v rest h =
    All-append _ (member key (json_nullable v)) rest
      (All-append _ (json_nullable (some (codes key))) _
        (json_nullable-IsPrintable (some (codes key))) (omega arith, json_nullable-IsPrintable v))
      h

pub marshal_update-IsPrintable : (u : StatusUpdate) → IsPrintable (marshal_update u)
unfolding marshal_update
marshal_update-IsPrintable u = (
  omega arith,
  member-IsPrintable "status" (some (status_text u.status)) _ (
    omega arith,
    member-IsPrintable "error" u.error _
        (omega arith, member-IsPrintable "download_url" u.download_url _ (omega arith, tt)),
  ),
)
