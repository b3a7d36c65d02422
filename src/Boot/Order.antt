-- ===== src/Boot/Order.antt =====
-- The order of what `run` does.
use corrupt_cv.Common.{
  not, ◌≡◌, refl, ap, if◌then◌else◌, Bool, true, false, ◌&&◌, Option, none, some, inl, inr,
  Bool-cases, is_some,
}
use corrupt_cv.Config.{Config, insecure_secret_warning}
use corrupt_cv.Telemetry.Setup.{shutdown, Outcome, setup}
use corrupt_cv.Jetstream.Provision.{provision, Asked}
use corrupt_cv.Jetstream.Provision.{consumer_gateway_evt}
use corrupt_cv.Jobs.Lifecycle
use corrupt_cv.Jobs.Lifecycle.{
  consume, stop_loop, drain_loop, subscribe, drain_advisory, go_sweep, Handles, new_handles, start,
  stop,
}
use corrupt_cv.Boot.{
  postgres, valkey, nats, Awaited, server_error, signalled, Calls, await, with_runner, with_catalog,
  with_provision, with_connections, is_open, after_wait, connect, with_telemetry, with_config, run,
  main,
}
use corrupt_cv.Boot.Machine.{
  state, nothing_yet, telemetry-replay, request-replay, warning-replay, arrive-replay,
  close_opened-replay,
}
use corrupt_cv.Boot.Ends.{Ends, does-Ends, deferred-Ends, if-Ends, error-Ends}

-- Which calls have to be answered for nil.
abbrev is_signalled : Awaited → Bool
is_signalled server_error = false
is_signalled signalled = true

abbrev runner_fine : Calls → Lifecycle.Calls → Bool
runner_fine calls c =
    c.bind_ok consumer_gateway_evt
    && (c.consume_ok && (c.subscribe_ok && is_signalled calls.awaited))

abbrev catalog_fine : Calls → Bool
catalog_fine calls =
    calls.load_catalog && (calls.seed_catalog && runner_fine calls calls.runner_calls)

abbrev stream_fine : Calls → Bool
stream_fine calls = calls.new_jetstream && ((provision calls.answers).0 && catalog_fine calls)

abbrev connections_fine : Calls → Bool
connections_fine calls =
    (is_open calls postgres && calls.ping && (is_open calls valkey && is_open calls nats))
    && stream_fine calls

abbrev pub is_fine : Calls → Bool
is_fine calls = is_some calls.load && (is_some (setup calls.sdk).0 && connections_fine calls)

module _ {calls : Calls} where
  await-Ends :
      (a : Awaited)
      → calls.awaited ≡ a
      → Ends calls
          (state true true true true true true true true)
          true
          true
          true
          (is_signalled a)
          (await calls (record { consume_ctx = true; advisory = true; stopped = false }) a)
  unfolding stop
  await-Ends server_error e = error-Ends {provisioned = true} {app = true} {ops = true} refl
  await-Ends signalled e = record {
    undrained = not calls.drain_nats_ok;
    provisioned = true;
    app = false;
    ops = false;
    accepted = refl;
    result = refl;
    means = inr (e, refl, refl, refl);
  }

  with_runner-Ends :
      (cfg : Config) (c : Lifecycle.Calls)
      → Ends calls
          (state true true true true false false false false)
          true
          true
          true
          (runner_fine calls c)
          (with_runner calls cfg (start c new_handles))
  unfolding start
  with_runner-Ends cfg c = elim (Bool-cases (c.bind_ok consumer_gateway_evt)) [
    | inr e ↦ rw e (does-Ends _ _ refl (error-Ends refl))
    | inl e ↦ rw e (elim (Bool-cases c.consume_ok) [
      | inr e ↦ rw e (does-Ends _ _ refl (error-Ends refl))
      | inl e ↦ rw e (elim (Bool-cases c.subscribe_ok) [
        | inr e ↦ rw e (does-Ends _ _ refl (error-Ends refl))
        | inl e ↦ rw e (does-Ends _ _ refl (does-Ends _ _ refl (await-Ends calls.awaited refl)))
      ])
    ])
  ]

  with_catalog-Ends :
      (cfg : Config)
      → Ends calls
          (state true true true false false false false false)
          true
          true
          true
          (catalog_fine calls)
          (with_catalog calls cfg)
  with_catalog-Ends cfg =
      if-Ends _ _ _
        (does-Ends _ _ refl (
          if-Ends _ _ _ (does-Ends _ _ refl (with_runner-Ends cfg calls.runner_calls))
            (error-Ends refl)))
        (error-Ends refl)

  with_provision-Ends :
      (cfg : Config) (asked : Asked)
      → Ends calls
          (state true true true false false false false false)
          true
          true
          true
          (asked.0 && catalog_fine calls)
          (with_provision calls cfg asked)
  with_provision-Ends cfg (false, requests) =
      does-Ends _ _ (request-replay requests) (error-Ends refl)
  with_provision-Ends cfg (true, requests) =
      does-Ends _ _ (request-replay requests) (with_catalog-Ends cfg)

  with_connections-Ends :
      (cfg : Config)
      → Ends calls
          (state true true true false false false false false)
          true
          true
          true
          (stream_fine calls)
          (with_connections calls cfg)
  with_connections-Ends cfg =
      if-Ends _ _ _ (with_provision-Ends cfg (provision calls.answers)) (error-Ends refl)

  after_wait-Ends :
      (cfg : Config) (p ping v n : Bool)
      → Ends calls
          (state p v n false false false false false)
          false
          false
          false
          ((p && ping && (v && n)) && stream_fine calls)
          (after_wait calls cfg p ping v n)
  after_wait-Ends cfg false ping v n = error-Ends (close_opened-replay false v n)
  after_wait-Ends cfg true false v n = error-Ends (close_opened-replay true v n)
  after_wait-Ends cfg true true false n = error-Ends (close_opened-replay true false n)
  after_wait-Ends cfg true true true false = error-Ends (close_opened-replay true true false)
  after_wait-Ends cfg true true true true =
      deferred-Ends _ _ {n = false} (λ undrained provisioned app ops. refl)
        (deferred-Ends _ _ {n = false} (λ undrained provisioned app ops. refl)
          (deferred-Ends _ _ {n = true} (λ undrained provisioned app ops. refl)
            (with_connections-Ends cfg)))

  connect-Ends :
      (cfg : Config)
      → Ends calls nothing_yet false false false (connections_fine calls) (connect calls cfg)
  connect-Ends cfg =
      does-Ends _ _ (arrive-replay _ _ _ calls.arrival) (after_wait-Ends cfg _ calls.ping _ _)

  with_telemetry-Ends :
      (cfg : Config) (outcome : Outcome)
      → Ends calls nothing_yet false false false
          (is_some outcome.0 && connections_fine calls)
          (with_telemetry calls cfg outcome)
  with_telemetry-Ends cfg (none, steps) =
      does-Ends _ _ (telemetry-replay steps false false false) (error-Ends refl)
  with_telemetry-Ends cfg (some providers, steps) =
      does-Ends _ _ (telemetry-replay steps false false false) (
        deferred-Ends _ _ {n = false}
          (λ undrained. telemetry-replay (shutdown calls.sdk providers).1)
          (does-Ends _ _ (warning-replay (insecure_secret_warning cfg)) (connect-Ends cfg)))

  with_config-Ends :
      (o : Option Config)
      → Ends calls nothing_yet false false false
          (is_some o && (is_some (setup calls.sdk).0 && connections_fine calls))
          (with_config calls o)
  with_config-Ends none = error-Ends refl
  with_config-Ends (some cfg) = does-Ends _ _ refl (
      deferred-Ends _ _ (λ undrained provisioned app ops. refl)
        (with_telemetry-Ends cfg (setup calls.sdk)))

-- For every outcome of the calls, each act of `run` comes when it can: telemetry is set up before
-- the first connection and shut down behind the last; the stream is provisioned over an open
-- connection; the consume loop and then the servers start when the catalog is served; the
-- connections to the database and to NATS are closed, and that to NATS drained, only behind the calls
-- that drain the consume loop and the watch for advisories, over in time or not (what is then still
-- handled goes on beside the closing); the other two connections are never closed twice or unopened.
-- In the end no connection is open, and the loop and the watch, where started, were told to end. Nil
-- is returned exactly when every call up to the servers goes well and a signal comes, whatever
-- becomes of the shutdowns and drains, and then the catalog was served and no server listens.
pub run-Ends :
    (calls : Calls) → Ends calls nothing_yet false false false (is_fine calls) (run calls)
unfolding run
run-Ends calls = with_config-Ends calls.load

-- The exit code says whether all went well.
pub main_exit : (calls : Calls) → (main calls).0 ≡ (if is_fine calls then 0 else 1)
unfolding main
main_exit calls = ap (λ (good : Bool). if good then 0 else 1) (run-Ends calls).result
