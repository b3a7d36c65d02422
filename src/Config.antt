-- ===== src/Config.antt =====
-- services/gateway/internal/config/config.go. `parse` is `env.Parse`: from the tags of the fields
-- and the environment, the settings or an error.
use corrupt_cv.Common.{
  Bool, not, ◌||◌, List, [], ◌∷◌, Option, none, some, Text, codes, text_eq, if◌then◌else◌,
}
use corrupt_cv.Common.Int.{ℤ}

abbrev pub default_session_secret : Text
default_session_secret = codes "6c6f63616c2d6465762d6f6e6c792d736563726574"

pub record Config : Type 0 where
  pub app_addr : Text
  pub ops_addr : Text
  pub nats_url : Text
  pub database_url : Text
  pub valkey_url : Text
  pub session_secret : Text
  pub cookie_secure : Bool
  pub dev_mode : Bool
  pub max_body_bytes : ℤ
  pub model_catalog_path : Text
  pub s3_endpoint : Text
  pub s3_region : Text
  pub s3_bucket : Text
  pub s3_access_key_id : Text
  pub s3_secret_key : Text
  pub s3_use_path_style : Bool
  pub log_level : Text

-- The tags `env` and `envDefault` of a field.
pub record Tag : Type 0 where
  pub env : Text
  pub env_default : Text

-- The tags, in the order of the fields.
abbrev pub tags : List Tag
tags =
    record { env = codes "APP_ADDR"; env_default = codes ":8080" }
    ∷ record { env = codes "OPS_ADDR"; env_default = codes ":9090" }
    ∷ record { env = codes "NATS_URL"; env_default = codes "nats://localhost:4222" }
    ∷ record {
      env = codes "DATABASE_URL";
      env_default = codes "postgres://cv:cv@localhost:5432/cv?sslmode=disable";
    }
    ∷ record { env = codes "VALKEY_URL"; env_default = codes "valkey://localhost:6379" }
    ∷ record { env = codes "SESSION_SECRET"; env_default = default_session_secret }
    ∷ record { env = codes "COOKIE_SECURE"; env_default = codes "false" }
    ∷ record { env = codes "DEV_MODE"; env_default = codes "false" }
    ∷ record { env = codes "MAX_BODY_BYTES"; env_default = codes "262144" }
    ∷ record { env = codes "MODEL_CATALOG_PATH"; env_default = codes "configs/model-catalog.yaml" }
    ∷ record { env = codes "S3_ENDPOINT"; env_default = codes "http://localhost:8081" }
    ∷ record { env = codes "S3_REGION"; env_default = codes "us-east-1" }
    ∷ record { env = codes "S3_BUCKET"; env_default = codes "cv" }
    ∷ record { env = codes "S3_ACCESS_KEY_ID"; env_default = codes "test:tester" }
    ∷ record { env = codes "S3_SECRET_ACCESS_KEY"; env_default = codes "testing" }
    ∷ record { env = codes "S3_USE_PATH_STYLE"; env_default = codes "true" }
    ∷ record { env = codes "LOG_LEVEL"; env_default = codes "INFO" }
    ∷ []

-- What the environment has for a variable.
abbrev pub Environment : Type 0
Environment = Text → Option Text

-- `Load`; `none` is an error.
unfoldable pub load : (List Tag → Environment → Option Config) → Environment → Option Config
load parse environment = parse tags environment

-- `InsecureSecretWarning`; `none` is `("", false)`.
unfoldable pub insecure_secret_warning : Config → Option Text
insecure_secret_warning c =
    if c.dev_mode || not (text_eq c.session_secret default_session_secret)
    then none
    else some (
        codes
          "SESSION_SECRET is the built-in development secret; set a unique secret before exposing this gateway")
