-- ===== src/Session.antt =====
-- services/gateway/internal/session/session.go: the signed cookie of an anonymous visitor.
-- `Crypto` stands for HMAC-SHA256 and for the uuid package.
pub mod Hex
pub mod Laws
pub use Hex.{encode-decode, IsBytes}
unfoldable pub use Hex.{hex_encode, hex_decode}
use corrupt_cv.Common.{
  ℕ, ◌*◌, ◌<◌, ◌≡◌, ◌≢◌, Bool, true, false, not, ◌&&◌, List, [], ◌∷◌, ◌++◌, Option, none, some,
  Text, Bytes, All, codes, text_eq, is_empty, if◌then◌else◌,
}
use corrupt_cv.Strings.{Lacks, cut}

pub record Crypto : Type 0 where
  -- `hmac.New(sha256.New, secret)`, `Write([]byte(id))`, `Sum(nil)`
  pub hmac : Text → Text → Bytes
  pub hmac_bytes : (secret id : Text) → IsBytes (hmac secret id)
  -- `uuid.Parse` returns no error
  pub is_uuid : Text → Bool

abbrev pub cookie_name : Text
cookie_name = codes "cv_visitor"

abbrev pub cookie_max_age : ℕ
cookie_max_age = 365 * 24 * 60 * 60

pub record Cookie : Type 0 where
  pub name : Text
  pub value : Text
  pub max_age : ℕ
  pub path : Text
  pub secure : Bool
  pub http_only : Bool
  pub same_site_lax : Bool

module _ (crypto : Crypto) (secret : Text) where
  open crypto use {hmac, is_uuid}

  unfoldable pub sign : Text → Text
  unfolding hex_encode
  sign id = id ++ b'.' ∷ hex_encode (hmac secret id)

  -- `hmac.Equal` compares bytes.
  abbrev pub check_mac : Text → Option Bytes → Option Text
  check_mac id none = none
  check_mac id (some sig) = if text_eq sig (hmac secret id) then some id else none

  abbrev pub check_cut : Option (Text × Text) → Option Text
  check_cut none = none
  check_cut (some (id, sig_hex)) =
      if is_empty id then none else if is_uuid id then check_mac id (hex_decode sig_hex) else none

  -- `none` is `("", false)`.
  unfoldable pub verify : Text → Option Text
  unfolding cut hex_decode
  verify value = check_cut (cut b'.' value)

  -- The visitor id that `Middleware` sets, and the cookie that it issues. `cookie` is the value
  -- of the request's cookie, unescaped; `fresh` is `uuid.NewString()`.
  abbrev pub visit : Bool → Text → Option Text → Text × Option Cookie
  visit secure fresh (some id) = (id, none)
  visit secure fresh none = (
    fresh,
    some record {
      name = cookie_name;
      value = sign fresh;
      max_age = cookie_max_age;
      path = codes "/";
      secure = secure;
      http_only = true;
      same_site_lax = true;
    },
  )

  abbrev pub verified : Option Text → Option Text
  verified none = none
  verified (some value) = verify value

  unfoldable pub middleware : (secure : Bool) → (fresh : Text) → Option Text → Text × Option Cookie
  unfolding verify sign
  middleware secure fresh cookie = visit secure fresh (verified cookie)
