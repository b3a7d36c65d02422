-- ===== src/Session/Hex.antt =====
-- Go's encoding/hex, as far as the cookie uses it.
use corrupt_cv.Common.{
  ℕ, ◌+◌, ◌-◌, ◌*◌, ◌/◌, ◌%◌, ◌<◌, ◌≡◌, refl, ap, ◌∙◌, ◌&&◌, [], ◌∷◌, Option, none, some, arith,
  Text, Bytes, All, leb, ltb, if◌then◌else◌,
}

abbrev pub IsBytes : Bytes → Type 0
IsBytes = All (λ b. b < 256)

unfoldable pub digit : ℕ → ℕ
digit d = if ltb d 10 then b'0' + d else b'a' + (d - 10)

-- `fromHexChar`: both cases.
unfoldable pub undigit : ℕ → Option ℕ
undigit c =
    if leb b'0' c && leb c b'9'
    then some (c - b'0')
    else if leb b'a' c && leb c b'f'
    then some (c - b'a' + 10)
    else if leb b'A' c && leb c b'F'
    then some (c - b'A' + 10)
    else none

-- `hex.EncodeToString`
unfoldable pub hex_encode : Bytes → Text
unfolding digit
hex_encode [] = []
hex_encode (b ∷ bs) = digit (b / 16) ∷ digit (b % 16) ∷ hex_encode bs

abbrev push : Option ℕ → Option ℕ → Option Bytes → Option Bytes
push (some h) (some l) (some bs) = some ((h * 16 + l) ∷ bs)
push _ _ _ = none

-- `hex.DecodeString`; `none` is an error: an odd length or a byte that is no digit.
unfoldable pub hex_decode : Text → Option Bytes
unfolding undigit
hex_decode [] = some []
hex_decode (c ∷ []) = none
hex_decode (c ∷ d ∷ s) = push (undigit c) (undigit d) (hex_decode s)

pub undigit-digit : (d : ℕ) → d < 16 → undigit (digit d) ≡ some d
unfolding digit undigit
undigit-digit d h = ground arith

-- The digits of one byte and of the rest, put together again.
push-some :
    {h l : Option ℕ} {rest : Option Bytes} (b : ℕ) (bs : Bytes)
    → h ≡ some (b / 16)
    → l ≡ some (b % 16)
    → rest ≡ some bs
    → push h l rest ≡ some (b ∷ bs)
push-some b bs high low later =
    (λ i. push (high i) (low i) (later i))
    ∙ ap (λ x. some (x ∷ bs)) (let whole : b / 16 * 16 + b % 16 ≡ b = omega arith in whole)

-- Decoding gives back the bytes that were encoded.
pub encode-decode : (bs : Bytes) → IsBytes bs → hex_decode (hex_encode bs) ≡ some bs
unfolding hex_encode hex_decode
encode-decode [] _ = refl
encode-decode (b ∷ bs) (small, rest) =
    push-some b bs (undigit-digit (b / 16) (omega arith)) (undigit-digit (b % 16) (omega arith))
      (encode-decode bs rest)
