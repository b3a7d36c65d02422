-- ===== src/Web/Sse/Json/RoundTrip.antt =====
-- What was marshalled is read back.
use corrupt_cv.Common.{
  ℕ, Option-cases, ◌<◌, ◌≤◌, String, ◌+◌, ◌*◌, ◌/◌, ◌%◌, ◌≡◌, refl, ap, ◌∙◌, ◌||◌, false, [], ◌∷◌,
  ◌++◌, Option, none, some, arith, Text, codes, append_assoc, ltb, ◌==◌, inl, inr, Bool-cases,
}
use corrupt_cv.Session.Hex.{digit, undigit-digit}
use corrupt_cv.Store.Rows.{Status, pending, rendering, completed, failed}
use corrupt_cv.Web.Status.{StatusUpdate}
use corrupt_cv.Web.Sse.Json.{
  quote, backslash, letter, is_unsafe, escape_other, escape_by, escape_rune, escape, json_nullable,
  status_text, member, marshal_update,
}
use corrupt_cv.Web.Sse.Json.Reader.{
  plain, keep, unescape, read_string, present, read_nullable, read_member, read_status, read_update,
}

-- Letters are read back.
letter-unescape : (c e : ℕ) → letter c ≡ some e → (unescape e ≡ some c) × ((e == b'u') ≡ false)
unfolding letter unescape
letter-unescape c e h = ground arith

no_letter : (c : ℕ) → letter c ≡ none → ((c == quote) ≡ false) × ((c == backslash) ≡ false)
unfolding letter
no_letter c h = ground arith

module _ (rest : Text) where
  read-plain :
      (c : ℕ)
      → (c == quote) ≡ false
      → (c == backslash) ≡ false
      → ltb c 0x20 ≡ false
      → read_string plain (c ∷ rest) ≡ keep c (read_string plain rest)
  unfolding read_string
  read-plain c q b l = rw (q, read_string) (rw (b, read_string) (rw (l, read_string) refl))

  read-letter :
      (c e : ℕ)
      → letter c ≡ some e
      → read_string plain (backslash ∷ e ∷ rest) ≡ keep c (read_string plain rest)
  unfolding read_string
  read-letter c e h =
      let (back, other) = letter-unescape c e h in
      rw (other, read_string) (rw (back, read_string) refl)

  -- Four digits.
  read-unicode :
      (a b c d : ℕ)
      → a < 16
      → b < 16
      → c < 16
      → d < 16
      → read_string plain (backslash ∷ b'u' ∷ digit a ∷ digit b ∷ digit c ∷ digit d ∷ rest)
        ≡ keep ((((0 * 16 + a) * 16 + b) * 16 + c) * 16 + d) (read_string plain rest)
  unfolding read_string
  read-unicode a b c d p q r s =
      rw (undigit-digit a p, read_string)
        (rw (undigit-digit b q, read_string)
          (rw (undigit-digit c r, read_string) (rw (undigit-digit d s, read_string) refl)))

  read-latin :
      (c : ℕ)
      → c < 0x100
      → read_string plain (backslash ∷ b'u' ∷ b'0' ∷ b'0' ∷ digit (c / 16) ∷ digit (c % 16) ∷ rest)
        ≡ keep c (read_string plain rest)
  unfolding digit
  read-latin c small =
      read-unicode 0 0 (c / 16) (c % 16) (omega arith) (omega arith) (omega arith) (omega arith)
      ∙ ap (λ n. keep n (read_string plain rest))
          (let whole : (((0 * 16 + 0) * 16 + 0) * 16 + c / 16) * 16 + c % 16 ≡ c = omega arith in
            whole)

  read-separator :
      (c : ℕ)
      → 0x2020 ≤ c
      → c < 0x2030
      → read_string plain (backslash ∷ b'u' ∷ b'2' ∷ b'0' ∷ b'2' ∷ digit (c % 16) ∷ rest)
        ≡ keep c (read_string plain rest)
  unfolding digit
  read-separator c low high =
      read-unicode 2 0 2 (c % 16) (omega arith) (omega arith) (omega arith) (omega arith)
      ∙ ap (λ n. keep n (read_string plain rest))
          (let whole : (((0 * 16 + 2) * 16 + 0) * 16 + 2) * 16 + c % 16 ≡ c = omega arith in whole)

  read-escape_other :
      (c : ℕ)
      → letter c ≡ none
      → read_string plain (escape_other c ++ rest) ≡ keep c (read_string plain rest)
  unfolding escape_other is_unsafe
  read-escape_other c h = elim (Bool-cases (is_unsafe c)) [
    | inl e ↦ rw e (read-latin c (ground arith))
    | inr e ↦ elim (Bool-cases (c == 0x2028 || c == 0x2029)) [
      | inl sep ↦ rw (e, sep) (read-separator c (ground arith) (ground arith))
      | inr other ↦ let (q, b) = no_letter c h in rw (e, other) (read-plain c q b (ground arith))
    ]
  ]

  read-escape_rune :
      (c : ℕ) → read_string plain (escape_rune c ++ rest) ≡ keep c (read_string plain rest)
  unfolding escape_rune
  read-escape_rune c = elim (Option-cases (letter c)) [
    | inl e ↦ ap (λ o. read_string plain (escape_by c o ++ rest)) e ∙ read-escape_other c e
    | inr (d, e) ↦ ap (λ o. read_string plain (escape_by c o ++ rest)) e ∙ read-letter c d e
  ]

read-escape : (s rest : Text) → read_string plain (escape s ++ quote ∷ rest) ≡ some (s, rest)
unfolding escape
read-escape [] rest = unfold read_string in refl
read-escape (c ∷ s) rest =
    ap (read_string plain) (append_assoc (escape_rune c) (escape s) (quote ∷ rest))
    ∙ read-escape_rune (escape s ++ quote ∷ rest) c
    ∙ ap (keep c) (read-escape s rest)

read-json_nullable :
    (v : Option Text) (rest : Text) → read_nullable (json_nullable v ++ rest) ≡ some (v, rest)
unfolding read_nullable
read-json_nullable none rest = refl
read-json_nullable (some s) rest =
    ap (λ t. present (read_string plain t)) (append_assoc (escape s) (quote ∷ []) rest)
    ∙ ap present (read-escape s rest)

read-member :
    (key : String) (v : Option Text) (rest : Text)
    → read_member (member key (json_nullable v) ++ rest) ≡ some ((codes key, v), rest)
unfolding read_member
read-member key v rest = simp (append_assoc, read-escape, read-json_nullable)

status_text-read : (s : Status) → read_status (some (status_text s)) ≡ some s
unfolding read_status
status_text-read pending = refl
status_text-read rendering = refl
status_text-read completed = refl
status_text-read failed = refl

-- What `json.Marshal` makes of an update is read back as the update.
pub marshal_update-read : (u : StatusUpdate) → read_update (marshal_update u) ≡ some u
unfolding read_update marshal_update
marshal_update-read u =
    let last = b'}' ∷ [] in
    let second = b',' ∷ (member "download_url" (json_nullable u.download_url) ++ last) in
    let first = b',' ∷ (member "error" (json_nullable u.error) ++ second) in
    rw (read-member "status" (some (status_text u.status)) first) (
      rw (read-member "error" u.error second)
        (rw (read-member "download_url" u.download_url last) (rw (status_text-read u.status) refl)))
