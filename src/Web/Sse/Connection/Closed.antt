-- ===== src/Web/Sse/Connection/Closed.antt =====
-- What of all that a connection opens is left when its handler returns.
use corrupt_cv.Common.{
  not, ◌&&◌, ◌≡◌, ◌≢◌, refl, ap, ◌∙◌, Bool, true, false, List, [], ◌∷◌, ◌++◌, map, Option, none,
  some, Text, if◌then◌else◌, inl, inr, Bool-cases, text_eq, text_eq_refl,
}
use corrupt_cv.Events.{Codec}
use corrupt_cv.Store.Rows.{Job}
use corrupt_cv.Jetstream.Subject.{stream_name}
use corrupt_cv.Jetstream.Provision.{
  Request, ordered_consumer, delete_consumer, job_request, ordered_job_consumer,
  delete_ordered_consumer,
}
use corrupt_cv.Web.Status.{is_terminal, status_rank}
use corrupt_cv.Web.Sse.{Signal, Frame, loop}
use corrupt_cv.Web.Sse.Connection.{
  answered, Effect, count_stream, connect, disconnect, wrote, asked, start_consuming,
  stop_consuming, start_heartbeat, stop_heartbeat, World, consuming, subscribing, writing,
  serve_events,
}

-- What is open, the last thing opened first.
pub data Open : Type 0 where
  connection consume_loop ticker : Open
  consumer : (name : Text) → Open
  -- on the server, behind a deletion that failed
  left_behind : (name : Text) → Open

-- What a request does on the server to a connection with such a consumer name.
abbrev pub request : (name : Text) → Request → Bool → List Open → Option (List Open)
request name (ordered_consumer stream cfg) good open_now =
    some (if good then consumer name ∷ open_now else open_now)
request name (delete_consumer stream n) good (consumer m ∷ open_now) =
    if text_eq n m then some (if good then open_now else open_now ++ left_behind m ∷ []) else none
request name (delete_consumer stream n) good _ = none
request name _ good open_now = none

-- An effect on what is open; `none` if it closes what is not the last thing opened, or uses what is not
-- open.
abbrev pub act : (name : Text) → Effect → List Open → Option (List Open)
act name count_stream open_now = some open_now
act name connect open_now = some (connection ∷ open_now)
act name disconnect (connection ∷ open_now) = some open_now
act name disconnect _ = none
act name (wrote f) [] = none
act name (wrote f) (o ∷ open_now) = some (o ∷ open_now)
act name (asked r good) open_now = request name r good open_now
act name start_consuming (consumer n ∷ open_now) = some (consume_loop ∷ consumer n ∷ open_now)
act name start_consuming _ = none
act name stop_consuming (consume_loop ∷ open_now) = some open_now
act name stop_consuming _ = none
act name start_heartbeat open_now = some (ticker ∷ open_now)
act name stop_heartbeat (ticker ∷ open_now) = some open_now
act name stop_heartbeat _ = none

abbrev then_do : Option (List Open) → (List Open → Option (List Open)) → Option (List Open)
then_do none f = none
then_do (some o) f = f o

abbrev pub run : (name : Text) → List Effect → List Open → Option (List Open)
run name [] open_now = some open_now
run name (e ∷ es) open_now = then_do (act name e open_now) (run name es)

run-append :
    (name : Text) (xs ys : List Effect) (o : List Open)
    → run name (xs ++ ys) o ≡ then_do (run name xs o) (run name ys)
run-append name [] ys o = refl
run-append name (x ∷ xs) ys o =
    elim (act name x o)
      as (λ r. then_do r (run name (xs ++ ys)) ≡ then_do (then_do r (run name xs)) (run name ys)) [
        | none ↦ refl
        | some o' ↦ run-append name xs ys o'
      ]

pub run-then :
    (name : Text) (xs ys : List Effect) (o : List Open) {o' o'' : List Open}
    → run name xs o ≡ some o'
    → run name ys o' ≡ some o''
    → run name (xs ++ ys) o ≡ some o''
run-then name xs ys o first second =
    run-append name xs ys o ∙ ap (λ r. then_do r (run name ys)) first ∙ second

run-wrote :
    (name : Text) (fs : List Frame) (o : Open) (os : List Open)
    → run name (map wrote fs) (o ∷ os) ≡ some (o ∷ os)
run-wrote name [] o os = refl
run-wrote name (f ∷ fs) o os = run-wrote name fs o os

-- What the deletion leaves.
abbrev after_delete : (Request → Bool) → Text → List Open
after_delete answers name =
    if not (answers (delete_consumer stream_name name)) then left_behind name ∷ [] else []

run-delete :
    (answers : Request → Bool) (name : Text)
    → name ≢ []
    → run name
        (answered answers (delete_ordered_consumer answers name))
        (consumer name ∷ connection ∷ [])
      ≡ some (connection ∷ after_delete answers name)
unfolding delete_ordered_consumer
run-delete answers [] named = absurd (named refl)
run-delete answers (c ∷ n) named =
    elim (Bool-cases (answers (delete_consumer stream_name (c ∷ n)))) [
      | inl e ↦ rw e (rw (text_eq_refl (c ∷ n)) (rw e refl))
      | inr e ↦ rw e (rw (text_eq_refl (c ∷ n)) (rw e refl))
    ]

-- What the handler leaves: the consumer, exactly if it was created and its deletion failed.
abbrev pub left_over : World → Job → (first_write : Bool) → List Open
left_over world job first_write =
    if first_write
      && (not (is_terminal job.status)
          && (world.answers (job_request job.id)
              && not (world.answers (delete_consumer stream_name world.name))))
    then left_behind world.name ∷ []
    else []

module _ (codec : Codec) (world : World) (job : Job) (named : world.name ≢ []) where
  open world use {answers, name, starts}

  -- A part of the handler that leaves open what was open.
  abbrev Neutral : List Effect → List Open → Type 0
  Neutral es o = run name es o ≡ some o

  abbrev under : List Open
  under = consumer name ∷ connection ∷ []

  consuming-Neutral : (ss : List Signal) → Neutral (consuming codec world job ss) under
  consuming-Neutral ss = elim (Bool-cases starts) [
    | inl e ↦
        let fs = (loop codec job.id (status_rank job.status) ss).frames in
        rw e (
          run-then name (map wrote fs) (stop_heartbeat ∷ stop_consuming ∷ [])
            (ticker ∷ consume_loop ∷ under) (run-wrote name fs ticker (consume_loop ∷ under)) refl)
    | inr e ↦ rw e refl
  ]

  run-subscribing :
      (ss : List Signal)
      → run name (subscribing codec world job ss) (connection ∷ [])
        ≡ some (
            connection
            ∷ (if answers (job_request job.id) && not (answers (delete_consumer stream_name name))
                then left_behind name ∷ []
                else []))
  unfolding ordered_job_consumer
  run-subscribing ss = elim (Bool-cases (answers (job_request job.id))) [
    | inl e ↦ rw e (
        rw e (
          run-then name (consuming codec world job ss)
            (answered answers (delete_ordered_consumer answers name)) under (consuming-Neutral ss)
            (run-delete answers name named)))
    | inr e ↦ rw e (rw e refl)
  ]

  run-writing :
      (first_write : Bool) (ss : List Signal)
      → run name (writing codec world job first_write ss) (connection ∷ [])
        ≡ some (connection ∷ left_over world job first_write)
  run-writing false ss = refl
  run-writing true ss = elim (Bool-cases (is_terminal job.status)) [
    | inl e ↦ rw e refl
    | inr e ↦ rw e (run-subscribing ss)
  ]

-- The whole handler.
pub run-serve_events :
    (codec : Codec) (world : World) (job : Job) (first_write : Bool) (ss : List Signal)
    → world.name ≢ []
    → run world.name (serve_events codec world job first_write ss) []
      ≡ some (left_over world job first_write)
unfolding serve_events
run-serve_events codec world job first_write ss named =
    run-then world.name (writing codec world job first_write ss) (disconnect ∷ []) (connection ∷ [])
      (run-writing codec world job named first_write ss) refl
