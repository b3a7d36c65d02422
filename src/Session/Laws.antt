-- ===== src/Session/Laws.antt =====
-- What a signed cookie proves.
use corrupt_cv.Common.{
  ◌≢◌, ◌≡◌, ◌↔◌, refl, ap, ◌∙◌, Bool, true, [], ◌∷◌, ◌++◌, Option, none, some, arith, Text, Bytes,
  text_eq_iff, text_eq_refl, is_empty, if◌then◌else◌,
}
use corrupt_cv.Strings.{Lacks, cut}
use corrupt_cv.Strings.Laws.{cut-append_sep, cut_sound}
use corrupt_cv.Session.{
  Crypto, hex_encode, hex_decode, encode-decode, sign, check_mac, check_cut, verify, visit,
  verified, Cookie, middleware,
}

module _ (crypto : Crypto) (secret : Text) where
  open crypto use {hmac, is_uuid}

  check_mac_sound :
      (i : Text) (o : Option Bytes) (id : Text)
      → check_mac crypto secret i o ≡ some id
      → (i ≡ id) × (o ≡ some (hmac secret i))
  check_mac_sound i none id h = cc
  check_mac_sound i (some sig) id h = ground (arith, text_eq_iff sig (hmac secret i))

  check_cut_sound :
      (o : Option (Text × Text)) (id : Text)
      → check_cut crypto secret o ≡ some id
      → (sig : Text) × (o ≡ some (id, sig))
        × (hex_decode sig ≡ some (hmac secret id))
        × (is_uuid id ≡ true)
        × (id ≢ [])
  check_cut_sound none id h = cc
  check_cut_sound (some (i, sig)) id h =
      let (accepted, uuid, filled) = check_id i (hex_decode sig) h in
      let (same, decoded) = check_mac_sound i (hex_decode sig) id accepted in
      (
        sig,
        ap (λ (t : Text). some (t, sig)) same,
        rw (← same) decoded,
        rw (← same) uuid,
        rw (← same) filled,
      )
    where
      check_id :
          (i : Text) (o : Option Bytes)
          → (if is_empty i then none else if is_uuid i then check_mac crypto secret i o else none)
            ≡ some id
          → (check_mac crypto secret i o ≡ some id) × (is_uuid i ≡ true) × (i ≢ [])
      check_id [] o e = cc
      check_id (c ∷ i) o e = (ground arith, ground arith, ground arith)

  check_cut_complete :
      (id sig : Text)
      → hex_decode sig ≡ some (hmac secret id)
      → is_uuid id ≡ true
      → id ≢ []
      → check_cut crypto secret (some (id, sig)) ≡ some id
  check_cut_complete [] sig decoded uuid filled = absurd (filled refl)
  check_cut_complete (c ∷ id) sig decoded uuid filled =
      rw (uuid, decoded) (rw (text_eq_refl (hmac secret (c ∷ id))) refl)

-- `Verify` accepts a value for an id exactly when the value is the id, a dot, and hex digits of
-- the id's HMAC, and the id is not empty, holds no dot, and passes `uuid.Parse`.
pub verify_iff :
    (crypto : Crypto) (secret value id : Text)
    → (verify crypto secret value ≡ some id) ↔ (
        (sig : Text) × (value ≡ id ++ b'.' ∷ sig)
        × (hex_decode sig ≡ some (crypto.hmac secret id))
        × (crypto.is_uuid id ≡ true)
        × (id ≢ [])
        × Lacks b'.' id)
unfolding verify
verify_iff crypto secret value id = (
  (λ h.
      let (sig, parts, decoded, uuid, filled) =
        check_cut_sound crypto secret (cut b'.' value) id h in
      let (spelled, plain) = cut_sound b'.' value id sig parts in
      (sig, spelled, decoded, uuid, filled, plain)),
  (λ h.
      let (sig, spelled, decoded, uuid, filled, plain) = h in
      ap (λ v. check_cut crypto secret (cut b'.' v)) spelled
      ∙ ap (check_cut crypto secret) (cut-append_sep b'.' id sig plain)
      ∙ check_cut_complete crypto secret id sig decoded uuid filled),
)

-- A signed id that passes `uuid.Parse`, is not empty and holds no dot is accepted by `Verify`.
pub verify-sign :
    (crypto : Crypto) (secret id : Text)
    → crypto.is_uuid id ≡ true
    → id ≢ []
    → Lacks b'.' id
    → verify crypto secret (sign crypto secret id) ≡ some id
unfolding sign
verify-sign crypto secret id uuid filled plain = (verify_iff crypto secret _ id).1 (
  hex_encode (crypto.hmac secret id),
  refl,
  encode-decode _ (crypto.hmac_bytes secret id),
  uuid,
  filled,
  plain,
)

-- If a visitor is given a cookie, for a new id that passes `uuid.Parse`, is not empty and holds no dot
-- (as the text of a new UUID), then with that cookie the next
-- request has the same id and is given no other cookie.
pub middleware_returning :
    (crypto : Crypto) (secret : Text) (secure secure' : Bool) (fresh fresh' : Text) (c : Cookie)
    (cookie : Option Text)
    → crypto.is_uuid fresh ≡ true
    → fresh ≢ []
    → Lacks b'.' fresh
    → (middleware crypto secret secure fresh cookie).1 ≡ some c
    → middleware crypto secret secure' fresh' (some c.value)
      ≡ ((middleware crypto secret secure fresh cookie).0, none)
unfolding middleware
middleware_returning crypto secret secure secure' fresh fresh' c cookie uuid filled plain issued =
    go (verified crypto secret cookie) issued
  where
    go :
        (o : Option Text)
        → (visit crypto secret secure fresh o).1 ≡ some c
        → visit crypto secret secure' fresh' (verify crypto secret c.value)
          ≡ ((visit crypto secret secure fresh o).0, none)
    go (some id) e = cc
    go none e =
        let same : c.value ≡ sign crypto secret fresh = ground arith in
        rw (same, verify-sign crypto secret fresh uuid filled plain) refl
