-- ===== src/Jobs/Lifecycle.antt =====
-- `Start` and `Stop` of the runner, and `recordBacklog`. Which calls of the NATS client return no
-- error is a parameter.
use corrupt_cv.Common.{
  ℕ, ◌-◌, ◌^◌, ◌≡◌, refl, Bool, true, false, not, ◌&&◌, List, [], ◌∷◌, ◌++◌, Text, codes, ltb,
  if◌then◌else◌, inl, inr, Bool-cases,
}
use corrupt_cv.Common.Int.{ℤ, pos, negsuc}
use corrupt_cv.Jetstream.Subject.{stream_name}
use corrupt_cv.Jetstream.Provision.{consumer_gateway_evt, consumer_ai_proc, consumer_cv_gen}

abbrev pub advisory_subject : Text
advisory_subject =
    codes "$JS.EVENT.ADVISORY.CONSUMER.MAX_DELIVERIES." ++ (stream_name ++ codes ".>")

abbrev pub advisory_queue_group : Text
advisory_queue_group = codes "cvgen-advisories"

-- What is done to the process. `drain_loop` is the drain and the wait for it, with whether the loop
-- closed within the five seconds; `drain_advisory` has whether its call returned no error.
pub data Act : Type 0 where
  consume : (consumer : Text) → Act
  stop_loop : Act
  drain_loop : (in_time : Bool) → Act
  subscribe : (subject queue : Text) → Act
  drain_advisory : (good : Bool) → Act
  go_sweep : Act

pub record Calls : Type 0 where
  pub bind_ok : (consumer : Text) → Bool
  pub consume_ok : Bool
  pub subscribe_ok : Bool
  pub drained_in_time : Bool
  pub advisory_drain_ok : Bool

-- `consumeCtx` and `advisory` are not nil; `stopOnce` is done.
pub record Handles : Type 0 where
  pub consume_ctx : Bool
  pub advisory : Bool
  pub stopped : Bool

abbrev pub new_handles : Handles
new_handles = record { consume_ctx = false; advisory = false; stopped = false }

-- `subscribeAdvisory`: nothing is done if it fails.
unfoldable pub subscribe_advisory : Calls → Bool × List Act
subscribe_advisory calls =
    if calls.subscribe_ok
    then (true, subscribe advisory_subject advisory_queue_group ∷ [])
    else (false, [])

abbrev pub watch : Bool × List Act → Handles → Bool × Handles × List Act
watch (false, acts) h = (false, h, consume consumer_gateway_evt ∷ acts ++ stop_loop ∷ [])
watch (true, acts) h =
    (true, record h { advisory = true }, consume consumer_gateway_evt ∷ acts ++ go_sweep ∷ [])

-- `Start`: whether it returns no error, the fields and what is done.
unfoldable pub start : Calls → Handles → Bool × Handles × List Act
unfolding subscribe_advisory
start calls h =
    if not (calls.bind_ok consumer_gateway_evt)
    then (false, h, [])
    else if not calls.consume_ok
    then (false, h, [])
    else watch (subscribe_advisory calls) (record h { consume_ctx = true })

-- `Stop`; it goes on whatever becomes of the drains.
unfoldable pub stop : Calls → Handles → Handles × List Act
stop calls h = if h.stopped then (h, []) else (
  record h { stopped = true },
  (if h.consume_ctx then drain_loop calls.drained_in_time ∷ [] else [])
      ++ (if h.advisory then drain_advisory calls.advisory_drain_ok ∷ [] else []),
)

-- What may go on in the background: handlers of the consume loop, new deliveries of advisories (of
-- those that are there a drain lets the rest be handled, for which nobody waits), and the sweeper.
pub record Background : Type 0 where
  pub looping : Bool
  pub watching : Bool
  pub sweeping : Bool

abbrev pub act : Act → Background → Background
act (consume consumer) b = record b { looping = true }
act stop_loop b = record b { looping = false }
act (drain_loop in_time) b = record b { looping = b.looping && not in_time }
act (subscribe subject queue) b = record b { watching = true }
act (drain_advisory good) b = record b { watching = b.watching && not good }
act go_sweep b = record b { sweeping = true }

abbrev pub act_all : List Act → Background → Background
act_all [] b = b
act_all (a ∷ acts) b = act_all acts (act a b)

abbrev pub background : (looping watching sweeping : Bool) → Background
background looping watching sweeping = record {
  looping = looping;
  watching = watching;
  sweeping = sweeping;
}

-- What is left behind by the first start, by whether it returned an error, and by stops after it.
abbrev pub IsTidy : Calls → Bool × Handles × List Act → Type 0
IsTidy calls (false, h, acts) =
    act_all acts (background false false false) ≡ background false false false
IsTidy calls (true, h, acts) =
    let (h', stops) = stop calls h in
    (act_all acts (background false false false) ≡ background true true true)
    × (act_all stops (background true true true)
        ≡ background (not calls.drained_in_time) (not calls.advisory_drain_ok) true)
    × (stop calls h' ≡ (h', []))

-- A first start that returns an error leaves nothing going on in the background. One that returns
-- none starts the consume loop, the watch for advisories and the sweeper. Then a stop ends the loop
-- exactly if it closes within five seconds, and the delivery of advisories exactly if the call that
-- drains it returns no error; it leaves the sweeper; and a second stop does nothing, also where the
-- first left something.
pub start-IsTidy : (calls : Calls) → IsTidy calls (start calls new_handles)
unfolding start stop
start-IsTidy calls = elim (Bool-cases (calls.bind_ok consumer_gateway_evt)) [
  | inr e ↦ rw e refl
  | inl e ↦ rw e (elim (Bool-cases calls.consume_ok) [
    | inr e ↦ rw e refl
    | inl e ↦ rw e (elim (Bool-cases calls.subscribe_ok) [
      | inr e ↦ rw e refl
      | inl e ↦ rw e (refl, refl, refl)
    ])
  ])
]

-- `int64` of an unsigned integer of 64 bits
abbrev pub to_int64 : ℕ → ℤ
to_int64 n = if ltb n (2 ^ 63) then pos n else negsuc (2 ^ 64 - 1 - n)

-- `CachedInfo` of a consumer
pub record ConsumerInfo : Type 0 where
  pub num_pending : ℕ
  pub num_ack_pending : ℤ

pub data Lookup : Type 0 where
  lookup_failed no_info : Lookup
  info : ConsumerInfo → Lookup

-- A record of one of the two gauges.
pub data Backlog : Type 0 where
  cons_pending cons_ack_pending : (consumer : Text) → ℤ → Backlog

abbrev pub record_each : (Text → Lookup) → List Text → List Backlog
record_each lookup [] = []
record_each lookup (name ∷ names) = elim (lookup name) [
  | info i ↦
      cons_pending name (to_int64 i.num_pending)
      ∷ cons_ack_pending name i.num_ack_pending
      ∷ record_each lookup names
  | _ ↦ record_each lookup names
]

-- `recordBacklog`
unfoldable pub record_backlog : (Text → Lookup) → List Backlog
record_backlog lookup =
    record_each lookup (consumer_gateway_evt ∷ consumer_ai_proc ∷ consumer_cv_gen ∷ [])
