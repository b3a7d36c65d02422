-- ===== src/Ops.antt =====
-- services/gateway/internal/ops/ops.go: the readiness probe, with the probe of object storage of
-- internal/s3/s3.go.
use corrupt_cv.Common.{
  ℕ, ◌≡◌, Bool, false, not, ◌&&◌, List, [], ◌∷◌, ◌++◌, Option, none, some, arith, Text, codes, find,
  if◌then◌else◌,
}

-- What the handler meets: the flag of `Readiness`, the state of the NATS connection, and whether
-- each call returns no error.
pub record Dependencies : Type 0 where
  pub provisioned : Bool
  pub nats_connected : Bool
  pub postgres_ping : Bool
  pub valkey_ping : Bool
  pub object_put : Bool
  pub object_get : Bool
  pub object_close : Bool

-- `HeadBucket`: whether it returns nil.
unfoldable pub head_bucket : Dependencies → Bool
head_bucket d = if d.object_put then if d.object_get then d.object_close else false else false

-- `http.Error` ends its text with a newline.
abbrev pub http_error : Text → ℕ × Text
http_error msg = (503, msg ++ 10 ∷ [])

-- The code and the body that `GET /readyz` answers.
unfoldable pub readyz : Dependencies → ℕ × Text
unfolding head_bucket
readyz d =
    if not d.provisioned
    then http_error (codes "provisioning incomplete")
    else if not d.nats_connected
    then http_error (codes "nats not connected")
    else if not d.postgres_ping
    then http_error (codes "postgres unreachable")
    else if not d.valkey_ping
    then http_error (codes "valkey unreachable")
    else if not (head_bucket d)
    then http_error (codes "object storage unreachable")
    else (200, codes "ready")

-- The dependencies in the order of their probes, with the names that the answer gives them.
abbrev pub checks : Dependencies → List (Bool × Text)
checks d =
    (d.provisioned, codes "provisioning incomplete")
    ∷ (d.nats_connected, codes "nats not connected")
    ∷ (d.postgres_ping, codes "postgres unreachable")
    ∷ (d.valkey_ping, codes "valkey unreachable")
    ∷ (d.object_put && (d.object_get && d.object_close), codes "object storage unreachable")
    ∷ []

abbrev pub verdict : Option (Bool × Text) → ℕ × Text
verdict none = (200, codes "ready")
verdict (some check) = (503, check.1 ++ 10 ∷ [])

-- The answer names the first dependency that fails, in a line, and is 200 if none does.
pub readyz-verdict :
    (d : Dependencies) → readyz d ≡ verdict (find (λ (c : Bool × Text). not c.0) (checks d))
unfolding readyz head_bucket
readyz-verdict d = ground arith
