-- ===== src/Web/Sse/Connection.antt =====
-- `handleJobEvents` with what it opens and closes: the gauge of open streams, the ordered consumer
-- on the server, the consume loop and the heartbeat's ticker.
pub mod Closed
pub mod Written
pub mod Active
use corrupt_cv.Common.{
  ◌≡◌, ◌≢◌, refl, ap, ◌∙◌, Bool, true, false, ◌&&◌, List, [], ◌∷◌, ◌++◌, map, append_assoc, Option,
  none, some, arith, Text, is_empty, if◌then◌else◌, inl, inr, Bool-cases, text_eq, text_eq_refl,
}
use corrupt_cv.Events.{Codec}
use corrupt_cv.Store.Rows.{Job}
use corrupt_cv.Jetstream.Provision.{Request, Asked, ordered_job_consumer, delete_ordered_consumer}
use corrupt_cv.Web.Status.{is_terminal, status_rank, status_from_job}
use corrupt_cv.Web.Sse.{Signal, Frame, status, loop, handle_job_events}

pub data Effect : Type 0 where
  -- `sseStreams.Add(1)`, and `sseConnections.Add` of 1 and of -1
  count_stream connect disconnect : Effect
  wrote : Frame → Effect
  -- a request to the server, and its answer
  asked : Request → (good : Bool) → Effect
  start_consuming stop_consuming start_heartbeat stop_heartbeat : Effect

-- What the outside decides: the server's answers, the name of the consumer, and whether the
-- consume loop starts.
pub record World : Type 0 where
  pub answers : Request → Bool
  pub name : Text
  pub starts : Bool

abbrev pub answered : (Request → Bool) → Asked → List Effect
answered answers (good, rs) = map (λ r. asked r (answers r)) rs

module _ (codec : Codec) (world : World) (job : Job) where
  open world use {answers, name, starts}

  abbrev consuming : List Signal → List Effect
  consuming ss =
      if starts
      then start_consuming
        ∷ start_heartbeat
        ∷ (map wrote (loop codec job.id (status_rank job.status) ss).frames
            ++ stop_heartbeat ∷ stop_consuming ∷ [])
      else []

  -- The deferred calls run in the reverse order.
  abbrev subscribing : List Signal → List Effect
  subscribing ss =
      let created = ordered_job_consumer answers job.id in
      answered answers created
      ++ (if created.0
          then consuming ss ++ answered answers (delete_ordered_consumer answers name)
          else [])

  abbrev writing : (first_write : Bool) → List Signal → List Effect
  writing false ss = []
  writing true ss =
      wrote (status (status_from_job job)) ∷ (if is_terminal job.status then [] else subscribing ss)

  unfoldable pub serve_events : (first_write : Bool) → List Signal → List Effect
  unfolding ordered_job_consumer delete_ordered_consumer loop status_from_job
  serve_events first_write ss = count_stream ∷ connect ∷ (writing first_write ss ++ disconnect ∷ [])
