-- ===== src/S3.antt =====
-- services/gateway/internal/s3/s3.go: `New`, `Put` and `Get`. What the SDK answers to a call of its
-- client is a parameter.
use corrupt_cv.Common.{Bool, Text, Bytes}
use corrupt_cv.Web.JobAccess.{Object, Fetched, found, missing, unreachable}

-- The settings that the client of the SDK is built with; the credentials are static.
pub record Sdk : Type 0 where
  pub region : Text
  pub base_endpoint : Text
  pub access_key_id : Text
  pub secret_key : Text
  pub use_path_style : Bool

pub record Config : Type 0 where
  pub endpoint : Text
  pub region : Text
  pub bucket : Text
  pub access_key_id : Text
  pub secret_key : Text
  pub use_path_style : Bool

pub record Client : Type 0 where
  pub s3 : Sdk
  pub bucket : Text

-- `New`
unfoldable pub new : Config → Client
new cfg = record {
  s3 = record {
    region = cfg.region;
    base_endpoint = cfg.endpoint;
    access_key_id = cfg.access_key_id;
    secret_key = cfg.secret_key;
    use_path_style = cfg.use_path_style;
  };
  bucket = cfg.bucket;
}

-- The answer to `GetObject`.
pub data Output : Type 0 where
  output : Object → Output
  no_such_key no_such_bucket other_error : Output

-- The calls of the SDK; `put_object` is whether it returns no error.
pub record Aws : Type 0 where
  pub put_object : Sdk → (bucket key : Text) → Bytes → Bool
  pub get_object : Sdk → (bucket key : Text) → Output

-- `Put`: whether it returns nil.
unfoldable pub put : Aws → Client → (key : Text) → Bytes → Bool
put aws c key data_put = aws.put_object c.s3 c.bucket key data_put

abbrev pub fetched : Output → Fetched
fetched (output object) = found object
fetched no_such_key = missing
fetched no_such_bucket = missing
fetched other_error = unreachable

-- `Get`
unfoldable pub get : Aws → Client → (key : Text) → Fetched
get aws c key = fetched (aws.get_object c.s3 c.bucket key)
