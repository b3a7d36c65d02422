-- ===== src/Web/ApiKeys.antt =====
-- services/gateway/internal/apikeys/apikeys.go: the hand-off of an API key through Valkey.
use corrupt_cv.Common.{ℕ, Bool, true, false, List, [], ◌∷◌, ◌++◌, Text, codes}
use corrupt_cv.Store.Query.{Link, up, refused, lost}

abbrev pub ttl_seconds : ℕ
ttl_seconds = 900

-- `SET key value EX seconds`
pub record SetCommand : Type 0 where
  pub key : Text
  pub value : Text
  pub ex_seconds : ℕ

-- `key`
unfoldable pub key : Text → Text
key job = codes "cv:apikey:" ++ job

unfoldable pub put_command : Text → Text → SetCommand
unfolding key
put_command job api_key = record { key = key job; value = api_key; ex_seconds = ttl_seconds }

-- `Put`: whether it returns no error, and the commands that Valkey runs.
unfoldable pub put : Link → Text → Text → Bool × List SetCommand
unfolding put_command
put up job api_key = (true, put_command job api_key ∷ [])
put refused job api_key = (false, [])
put lost job api_key = (false, put_command job api_key ∷ [])
