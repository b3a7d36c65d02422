-- ===== src/Boot/Machine.antt =====
-- A machine that knows which act of `run` needs what.
use mathlib.Core.Path.{fun_ext}
use corrupt_cv.Common.{
  ◌≡◌, refl, ap, ◌∙◌, Bool, true, false, not, ◌&&◌, ◌||◌, List, [], ◌∷◌, ◌++◌, map, Option, none,
  some, Text, if◌then◌else◌,
}
use corrupt_cv.Telemetry.Setup.{Step}
use corrupt_cv.Jetstream.Provision.{Request}
use corrupt_cv.Jobs.Lifecycle.{consume, stop_loop, drain_loop, subscribe, drain_advisory, go_sweep}
use corrupt_cv.Boot.{
  postgres, valkey, nats, Act, notify, stop_notify, telemetry, set_default, log_warning, opened,
  closed, request, seed, set_provisioned, runner, listen_app, listen_ops, shutdown_app,
  shutdown_ops, drain_nats, Arrival, pvn, pnv, vpn, vnp, npv, nvp, if_open, close_opened, conns,
  arrive, warning,
}

-- Which connections are open (to NATS: open and not draining), whether the catalog is served,
-- whether the consume loop and the watch run and are not yet told to end, and which servers listen.
-- A loop or a server that is told to end may still be busy with what it has when its time is over.
pub record State : Type 0 where
  pub postgres : Bool
  pub valkey : Bool
  pub nats : Bool
  pub provisioned : Bool
  pub looping : Bool
  pub watching : Bool
  pub app : Bool
  pub ops : Bool

abbrev provided : Bool → State → Option State
provided good s = if good then some s else none

abbrev is_disconnected : State → Bool
is_disconnected s = not (s.postgres || (s.valkey || s.nats))

abbrev is_quiet : State → Bool
is_quiet s = not (s.looping || s.watching)

abbrev is_serving : State → Bool
is_serving s = s.postgres && (s.valkey && (s.nats && (s.provisioned && s.looping)))

-- `none` is an act that comes too early or too late. A connection to NATS that a drain closes may be
-- closed again: that does nothing.
abbrev pub step : Act → State → Option State
step notify s = provided (is_disconnected s) s
step stop_notify s = provided (is_disconnected s) s
step (telemetry t) s = provided (is_disconnected s) s
step (set_default handlers) s = provided (is_disconnected s) s
step (log_warning text) s = some s
step (opened postgres) s = provided (not s.postgres) (record s { postgres = true })
step (opened valkey) s = provided (not s.valkey) (record s { valkey = true })
step (opened nats) s = provided (not s.nats) (record s { nats = true })
step (closed postgres) s = provided (s.postgres && is_quiet s) (record s { postgres = false })
step (closed valkey) s = provided s.valkey (record s { valkey = false })
step (closed nats) s = provided (is_quiet s) (record s { nats = false })
step (request r) s = provided s.nats s
step seed s = provided s.nats s
step set_provisioned s = provided s.nats (record s { provisioned = true })
step (runner (consume consumer)) s =
    provided (s.postgres && (s.nats && (s.provisioned && not s.looping)))
      (record s { looping = true })
step (runner stop_loop) s = provided (s.nats && s.looping) (record s { looping = false })
step (runner (drain_loop in_time)) s = provided (s.nats && s.looping) (record s { looping = false })
step (runner (subscribe subject queue)) s =
    provided (s.nats && not s.watching) (record s { watching = true })
step (runner (drain_advisory good)) s =
    provided (s.nats && s.watching) (record s { watching = false })
step (runner go_sweep) s = provided s.postgres s
step (listen_app server) s = provided (is_serving s) (record s { app = true })
step (listen_ops server) s = provided (is_serving s) (record s { ops = true })
step (shutdown_app good) s = provided s.app (record s { app = false })
step (shutdown_ops good) s = provided s.ops (record s { ops = false })
step (drain_nats good) s = provided (s.nats && is_quiet s) (record s { nats = not good })

abbrev pub then_replay : (State → Option State) → Option State → Option State
then_replay f none = none
then_replay f (some s) = f s

-- The state after some acts.
abbrev pub replay : List Act → State → Option State
replay [] s = some s
replay (a ∷ acts) s = then_replay (replay acts) (step a s)

abbrev pub state : (postgres valkey nats provisioned looping watching app ops : Bool) → State
state p v n provisioned looping watching app ops = record {
  postgres = p;
  valkey = v;
  nats = n;
  provisioned = provisioned;
  looping = looping;
  watching = watching;
  app = app;
  ops = ops;
}

abbrev pub nothing_yet : State
nothing_yet = state false false false false false false false false

then_replay-then :
    (f g : State → Option State) (o : Option State)
    → then_replay (λ s. then_replay g (f s)) o ≡ then_replay g (then_replay f o)
then_replay-then f g none = refl
then_replay-then f g (some s) = refl

pub replay-append :
    (acts later : List Act) (s : State)
    → replay (acts ++ later) s ≡ then_replay (replay later) (replay acts s)
replay-append [] later s = refl
replay-append (a ∷ acts) later s =
    ap (λ f. then_replay f (step a s)) (fun_ext (replay-append acts later))
    ∙ then_replay-then (replay acts) (replay later) (step a s)

pub telemetry-replay :
    (steps : List Step) (provisioned app ops : Bool)
    → replay (map telemetry steps) (state false false false provisioned false false app ops)
      ≡ some (state false false false provisioned false false app ops)
telemetry-replay [] provisioned app ops = refl
telemetry-replay (t ∷ ts) provisioned app ops = telemetry-replay ts provisioned app ops

pub request-replay :
    (requests : List Request)
    → replay (map request requests) (state true true true false false false false false)
      ≡ some (state true true true false false false false false)
request-replay [] = refl
request-replay (r ∷ rs) = request-replay rs

pub warning-replay : (o : Option Text) → replay (warning o) nothing_yet ≡ some nothing_yet
warning-replay none = refl
warning-replay (some text) = refl

postgres-replay :
    (p v n : Bool) (acts : List Act)
    → replay (if_open p (opened postgres) ++ acts) (state false v n false false false false false)
      ≡ replay acts (state p v n false false false false false)
postgres-replay false v n acts = refl
postgres-replay true v n acts = refl

valkey-replay :
    (p v n : Bool) (acts : List Act)
    → replay (if_open v (opened valkey) ++ acts) (state p false n false false false false false)
      ≡ replay acts (state p v n false false false false false)
valkey-replay p false n acts = refl
valkey-replay p true n acts = refl

nats-replay :
    (p v n : Bool) (acts : List Act)
    → replay (if_open n (opened nats) ++ acts) (state p v false false false false false false)
      ≡ replay acts (state p v n false false false false false)
nats-replay p v false acts = refl
nats-replay p v true acts = refl

-- In whichever order they came: these are the connections that are open.
pub arrive-replay :
    (p v n : Bool) (a : Arrival)
    → replay (arrive p v n (conns a)) nothing_yet ≡ some (state p v n false false false false false)
arrive-replay p v n pvn =
    postgres-replay p false false _ ∙ valkey-replay p v false _ ∙ nats-replay p v n _
arrive-replay p v n pnv =
    postgres-replay p false false _ ∙ nats-replay p false n _ ∙ valkey-replay p v n _
arrive-replay p v n vpn =
    valkey-replay false v false _ ∙ postgres-replay p v false _ ∙ nats-replay p v n _
arrive-replay p v n vnp =
    valkey-replay false v false _ ∙ nats-replay false v n _ ∙ postgres-replay p v n _
arrive-replay p v n npv =
    nats-replay false false n _ ∙ postgres-replay p false n _ ∙ valkey-replay p v n _
arrive-replay p v n nvp =
    nats-replay false false n _ ∙ valkey-replay false v n _ ∙ postgres-replay p v n _

pub close_opened-replay :
    (p v n : Bool)
    → replay (close_opened p v n) (state p v n false false false false false) ≡ some nothing_yet
close_opened-replay false false false = refl
close_opened-replay false false true = refl
close_opened-replay false true false = refl
close_opened-replay false true true = refl
close_opened-replay true false false = refl
close_opened-replay true false true = refl
close_opened-replay true true false = refl
close_opened-replay true true true = refl
