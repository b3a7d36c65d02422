-- ===== src/Telemetry/Setup.antt =====
-- telemetry.go: `Setup` and the shutdown that it returns. What the OpenTelemetry SDK does is a
-- parameter: whether its constructors and its shutdowns return an error.
pub mod Stopped
use corrupt_cv.Common.{
  Bool, true, false, not, ◌&&◌, List, [], ◌∷◌, ◌++◌, map, Option, none, some, Text, codes, is_empty,
  if◌then◌else◌,
}

pub data Provider : Type 0 where
  traces metrics logs : Provider

-- What is done to the process, in its order. `installed` makes a provider the global one.
pub data Step : Type 0 where
  started installed stopped : Provider → Step
  propagator : Step

pub record Sdk : Type 0 where
  -- The variables OTEL_EXPORTER_OTLP_ENDPOINT and OTEL_SERVICE_NAME; an unset one is empty.
  pub endpoint : Text
  pub service_name : Text
  -- `resource.Merge` for a service name
  pub resource_ok : Text → Bool
  pub exporter_ok : Provider → Bool
  pub stop_ok : Provider → Bool

-- `Enabled`
unfoldable pub enabled : Sdk → Bool
enabled sdk = not (is_empty sdk.endpoint)

-- `newResource`, of which only the error matters.
unfoldable pub new_resource : Sdk → Bool
new_resource sdk =
    sdk.resource_ok (if is_empty sdk.service_name then codes "gateway" else sdk.service_name)

-- The loop `for i := len(shutdowns) - 1; i >= 0; i--`, on the reversed list.
abbrev pub stop_each : Sdk → List Provider → Bool × List Step
stop_each sdk [] = (true, [])
stop_each sdk (p ∷ ps) =
    let (ok, steps) = stop_each sdk ps in (sdk.stop_ok p && ok, stopped p ∷ steps)

abbrev pub backwards : List Provider → List Provider
backwards [] = []
backwards (p ∷ ps) = backwards ps ++ p ∷ []

-- The shutdown: whether it returns nil, and what it does. An error ends nothing early.
unfoldable pub shutdown : Sdk → List Provider → Bool × List Step
shutdown sdk shutdowns = stop_each sdk (backwards shutdowns)

-- The providers that the returned function shuts down, or `none` for an error.
abbrev pub Outcome : Type 0
Outcome = Option (List Provider) × List Step

-- One of the three parts: an exporter that fails shuts down what is there.
abbrev pub install :
    Sdk → Provider → List Provider → List Step → (List Provider → List Step → Outcome) → Outcome
install sdk p shutdowns steps next =
    if sdk.exporter_ok p
    then next (shutdowns ++ p ∷ []) (steps ++ started p ∷ installed p ∷ [])
    else (none, steps ++ (shutdown sdk shutdowns).1)

-- `Setup`
unfoldable pub setup : Sdk → Outcome
unfolding enabled new_resource shutdown
setup sdk =
    if not (enabled sdk)
    then (some [], [])
    else if not (new_resource sdk)
    then (none, [])
    else install sdk traces [] [] λ ps steps.
      install sdk metrics ps steps
        λ ps steps. install sdk logs ps steps λ ps steps. (some ps, steps ++ propagator ∷ [])
