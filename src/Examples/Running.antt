-- ===== src/Examples/Running.antt =====
-- Telemetry, the runner and the whole gateway from boot to shutdown.
use corrupt_cv.Common.{◌≡◌, true, false, [], ◌∷◌, some, codes}
use corrupt_cv.Common.Int.{pos}
use corrupt_cv.Config.{Config, default_session_secret}
use corrupt_cv.Telemetry.Setup.{Provider, traces, metrics, logs, stopped, Sdk, shutdown, setup}
use corrupt_cv.Telemetry.Setup.Stopped.{IsStopped, setup-IsStopped}
use corrupt_cv.Jobs.Lifecycle
use corrupt_cv.Jobs.Lifecycle.{new_handles, start, IsTidy, start-IsTidy}
use corrupt_cv.Boot.{vpn, signalled, Calls, run}
use corrupt_cv.Boot.Machine.{nothing_yet}
use corrupt_cv.Boot.Ends.{Ends}
use corrupt_cv.Boot.Order.{is_fine, run-Ends}

abbrev sdk : Sdk
sdk = record {
  endpoint = codes "http://collector:4318";
  service_name = [];
  resource_ok = λ name. true;
  exporter_ok = λ (p : Provider). elim p [ traces ↦ true | metrics ↦ true | logs ↦ false ];
  stop_ok = λ p. false;
}

setup-IsStopped_example :
    IsStopped sdk (setup sdk)
    × ((shutdown sdk (traces ∷ metrics ∷ logs ∷ [])).1
        ≡ stopped logs ∷ stopped metrics ∷ stopped traces ∷ [])
setup-IsStopped_example = setup-IsStopped sdk

abbrev no_advisories : Lifecycle.Calls
no_advisories = record {
  bind_ok = λ name. true;
  consume_ok = true;
  subscribe_ok = false;
  drained_in_time = false;
  advisory_drain_ok = true;
}

abbrev advised : Lifecycle.Calls
advised = record no_advisories { subscribe_ok = true }

start-IsTidy_example : IsTidy advised (start advised new_handles)
start-IsTidy_example = start-IsTidy advised

abbrev cfg : Config
cfg = record {
  app_addr = codes ":8080";
  ops_addr = codes ":9090";
  nats_url = codes "nats://localhost:4222";
  database_url = codes "postgres://cv:cv@localhost:5432/cv?sslmode=disable";
  valkey_url = codes "valkey://localhost:6379";
  session_secret = default_session_secret;
  cookie_secure = false;
  dev_mode = false;
  max_body_bytes = pos 262144;
  model_catalog_path = codes "configs/model-catalog.yaml";
  s3_endpoint = codes "http://localhost:8081";
  s3_region = codes "us-east-1";
  s3_bucket = codes "cv";
  s3_access_key_id = codes "test:tester";
  s3_secret_key = codes "testing";
  s3_use_path_style = true;
  log_level = codes "INFO";
}

abbrev calls : Calls
calls = record {
  load = some cfg;
  sdk = record sdk { endpoint = [] };
  to_upper = λ t. t;
  parse_database_url = true;
  new_pool = true;
  ping = true;
  parse_valkey_url = true;
  new_client = true;
  connect_nats = true;
  arrival = vpn;
  new_jetstream = true;
  answers = λ r. true;
  load_catalog = true;
  seed_catalog = true;
  runner_calls = advised;
  awaited = signalled;
  shutdown_app_ok = false;
  shutdown_ops_ok = true;
  drain_nats_ok = true;
}

run-Ends_example : Ends calls nothing_yet false false false (is_fine calls) (run calls)
run-Ends_example = run-Ends calls
