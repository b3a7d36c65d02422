-- ===== src/Boot.antt =====
-- services/gateway/cmd/gateway/main.go: what `run` does to the process and to its connections,
-- for every outcome of its calls. `defer` is the act behind the rest.
pub mod Machine
pub mod Ends
pub mod Order
use corrupt_cv.Common.{
  ℕ, ◌*◌, Bool, true, false, ◌&&◌, ◌||◌, List, [], ◌∷◌, ◌++◌, map, Option, none, some, Text, codes,
  text_eq, if◌then◌else◌,
}
use corrupt_cv.Config.{Config, insecure_secret_warning}
use corrupt_cv.Telemetry.Setup.{Provider, Step, Sdk, enabled, shutdown, Outcome, setup}
use corrupt_cv.Jetstream.Provision.{Request, provision, Asked}
use corrupt_cv.Jobs.Lifecycle
use corrupt_cv.Jobs.Lifecycle.{Handles, new_handles, start, stop}

pub data Level : Type 0 where
  debug info warn error : Level

-- The `switch` of `newLogger`, on the level in upper case.
abbrev pub level_of : Text → Level
level_of upper =
    if text_eq upper (codes "DEBUG")
    then debug
    else if text_eq upper (codes "WARN") || text_eq upper (codes "WARNING")
    then warn
    else if text_eq upper (codes "ERROR")
    then error
    else info

-- The handlers that a record is given to: JSON on stdout, and the bridge to OpenTelemetry.
pub data LogHandler : Type 0 where
  json_handler : Level → LogHandler
  otel_bridge : LogHandler

-- `newLogger`; `to_upper` is `strings.ToUpper`.
unfoldable pub new_logger :
    (to_upper : Text → Text) → (level : Text) → (otel : Bool) → List LogHandler
new_logger to_upper level otel =
    json_handler (level_of (to_upper level)) ∷ (if otel then otel_bridge ∷ [] else [])

-- In microseconds.
pub record HttpServer : Type 0 where
  pub addr : Text
  pub read_header_timeout : ℕ
  pub idle_timeout : ℕ

abbrev pub server_at : Text → HttpServer
server_at addr = record {
  addr = addr;
  read_header_timeout = 10 * 1000000;
  idle_timeout = 120 * 1000000;
}

-- `newServers`; their handlers are left out.
unfoldable pub new_servers : Config → HttpServer × HttpServer
new_servers cfg = (server_at cfg.app_addr, server_at cfg.ops_addr)

pub data Conn : Type 0 where
  postgres valkey nats : Conn

pub data Act : Type 0 where
  notify stop_notify : Act
  telemetry : Step → Act
  set_default : List LogHandler → Act
  log_warning : Text → Act
  opened closed : Conn → Act
  request : Request → Act
  seed set_provisioned : Act
  runner : Lifecycle.Act → Act
  listen_app listen_ops : HttpServer → Act
  -- with whether the call returned no error; an error is only logged
  shutdown_app shutdown_ops drain_nats : (good : Bool) → Act

-- In which order the three goroutines of the errgroup have connected.
pub data Arrival : Type 0 where
  pvn pnv vpn vnp npv nvp : Arrival

-- What the `select` meets: an error of a server, or the signal.
pub data Awaited : Type 0 where
  server_error signalled : Awaited

-- The outcomes of the calls; a `Bool` says that there is no error.
pub record Calls : Type 0 where
  pub load : Option Config
  pub sdk : Sdk
  pub to_upper : Text → Text
  pub parse_database_url : Bool
  pub new_pool : Bool
  pub ping : Bool
  pub parse_valkey_url : Bool
  pub new_client : Bool
  pub connect_nats : Bool
  pub arrival : Arrival
  pub new_jetstream : Bool
  pub answers : Request → Bool
  pub load_catalog : Bool
  pub seed_catalog : Bool
  pub runner_calls : Lifecycle.Calls
  pub awaited : Awaited
  pub shutdown_app_ok : Bool
  pub shutdown_ops_ok : Bool
  pub drain_nats_ok : Bool

-- Whether nil is returned, and what is done.
abbrev pub Run : Type 0
Run = Bool × List Act

abbrev pub fails : Run
fails = (false, [])

unfoldable pub does : List Act → Run → Run
does acts (good, later) = (good, acts ++ later)

unfoldable pub deferred : List Act → Run → Run
deferred acts (good, before) = (good, before ++ acts)

abbrev pub if_open : Bool → Act → List Act
if_open false act = []
if_open true act = act ∷ []

abbrev pub conns : Arrival → List Conn
conns pvn = postgres ∷ valkey ∷ nats ∷ []
conns pnv = postgres ∷ nats ∷ valkey ∷ []
conns vpn = valkey ∷ postgres ∷ nats ∷ []
conns vnp = valkey ∷ nats ∷ postgres ∷ []
conns npv = nats ∷ postgres ∷ valkey ∷ []
conns nvp = nats ∷ valkey ∷ postgres ∷ []

-- What is opened by the goroutines, of which some may fail.
abbrev pub arrive : (p v n : Bool) → List Conn → List Act
arrive p v n [] = []
arrive p v n (postgres ∷ cs) = if_open p (opened postgres) ++ arrive p v n cs
arrive p v n (valkey ∷ cs) = if_open v (opened valkey) ++ arrive p v n cs
arrive p v n (nats ∷ cs) = if_open n (opened nats) ++ arrive p v n cs

-- Whatever did connect is closed.
abbrev pub close_opened : (p v n : Bool) → List Act
close_opened p v n =
    if_open p (closed postgres) ++ (if_open v (closed valkey) ++ if_open n (closed nats))

abbrev pub warning : Option Text → List Act
warning none = []
warning (some text) = log_warning text ∷ []

module _ (calls : Calls) where
  -- From the listeners on; the deferred `runner.Stop` finds the fields as the body left them.
  abbrev pub await : Handles → Awaited → Run
  await h server_error = (false, map runner (stop calls.runner_calls h).1)
  await h signalled =
      let (h', stops) = stop calls.runner_calls h in
      (
        true,
        shutdown_app calls.shutdown_app_ok
            ∷ shutdown_ops calls.shutdown_ops_ok
            ∷ (map runner stops
                ++ (drain_nats calls.drain_nats_ok ∷ map runner (stop calls.runner_calls h').1)),
      )

  abbrev pub with_runner : Config → Bool × Handles × List Lifecycle.Act → Run
  with_runner cfg (false, h, acts) = does (map runner acts) fails
  with_runner cfg (true, h, acts) =
      let (app, ops) = new_servers cfg in
      does (map runner acts) (does (listen_app app ∷ listen_ops ops ∷ []) (await h calls.awaited))

  abbrev pub with_catalog : Config → Run
  with_catalog cfg =
      if calls.load_catalog
      then does (seed ∷ []) (
          if calls.seed_catalog
          then does (set_provisioned ∷ []) (with_runner cfg (start calls.runner_calls new_handles))
          else fails)
      else fails

  abbrev pub with_provision : Config → Asked → Run
  with_provision cfg (false, requests) = does (map request requests) fails
  with_provision cfg (true, requests) = does (map request requests) (with_catalog cfg)

  abbrev pub with_connections : Config → Run
  with_connections cfg =
      if calls.new_jetstream then with_provision cfg (provision calls.answers) else fails

  -- Which connections there are when the errgroup is done: a pool that does not answer is one.
  abbrev pub is_open : Conn → Bool
  is_open postgres = calls.parse_database_url && calls.new_pool
  is_open valkey = calls.parse_valkey_url && calls.new_client
  is_open nats = calls.connect_nats

  -- `g.Wait` and what follows it.
  abbrev pub after_wait : Config → (p ping v n : Bool) → Run
  after_wait cfg p ping v n =
      if p && ping && (v && n)
      then deferred (closed postgres ∷ [])
          (deferred (closed valkey ∷ []) (deferred (closed nats ∷ []) (with_connections cfg)))
      else (false, close_opened p v n)

  abbrev pub connect : Config → Run
  connect cfg =
      does (arrive (is_open postgres) (is_open valkey) (is_open nats) (conns calls.arrival))
        (after_wait cfg (is_open postgres) calls.ping (is_open valkey) (is_open nats))

  abbrev pub with_telemetry : Config → Outcome → Run
  with_telemetry cfg (none, steps) = does (map telemetry steps) fails
  with_telemetry cfg (some providers, steps) = does (map telemetry steps) (
      deferred (map telemetry (shutdown calls.sdk providers).1) (
        does
          (set_default (new_logger calls.to_upper cfg.log_level (enabled calls.sdk))
            ∷ warning (insecure_secret_warning cfg))
          (connect cfg)))

  abbrev pub with_config : Option Config → Run
  with_config none = fails
  with_config (some cfg) =
      does (notify ∷ []) (deferred (stop_notify ∷ []) (with_telemetry cfg (setup calls.sdk)))

-- `run`
unfoldable pub run : Calls → Run
unfolding insecure_secret_warning new_logger new_servers enabled setup shutdown provision start stop
run calls = with_config calls calls.load

-- `main`: the exit code of the process, and what was done.
unfoldable pub main : Calls → ℕ × List Act
unfolding run
main calls = let (good, acts) = run calls in ((if good then 0 else 1), acts)
