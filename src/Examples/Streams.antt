-- ===== src/Examples/Streams.antt =====
-- A client's stream.
use corrupt_cv.Common.{
  ℕ, ◌≤◌, ◌≡◌, ◌↔◌, refl, List, [], ◌∷◌, some, arith, codes, text_eq, true, length,
}
use corrupt_cv.Strings.{split}
use corrupt_cv.Store.Rows.{pending, rendering, failed}
use corrupt_cv.Store.Query.{up}
use corrupt_cv.Jetstream.Subject.{parse_subject}
use corrupt_cv.Jobs.Runner.{Msg, handle_msg}
use corrupt_cv.Jobs.Fact.{structured, rendered, failed_processing, status_in}
use corrupt_cv.Jobs.Spec.{consume}
use corrupt_cv.Web.Status.{is_terminal}
use corrupt_cv.Web.Sse.{Signal, done, heartbeat, message, finished, handle_job_events}
use corrupt_cv.Web.Sse.Facts.{States}
use corrupt_cv.Web.Sse.Order.{
  statuses, Ascends, last_status, handle_job_events-Ascends, handle_job_events-finished_iff,
}
use corrupt_cv.Web.Sse.Sync.{arriving, messages, handle_job_events-consume, late_failure}
use corrupt_cv.Examples.Data.{
  codec, new_job, structured_job, runner_with, structured_msg, rendered_msg, failed_msg,
}

structured_msg-States : States codec (codes "j") structured_msg structured
unfolding parse_subject split text_eq
structured_msg-States = (codes "j", codes "structured", refl, refl, refl)

rendered_msg-States : States codec (codes "j") rendered_msg rendered
unfolding parse_subject split text_eq
rendered_msg-States = (codes "j", codes "rendered", refl, refl, refl)

failed_msg-States : States codec (codes "j") failed_msg failed_processing
unfolding parse_subject split text_eq
failed_msg-States = (codes "j", codes "failed", refl, refl, refl)

abbrev both : List (ℕ × Msg)
both = (10, structured_msg) ∷ (20, rendered_msg) ∷ []

handle_job_events-consume_example :
    status_in (codes "j") (consume codec both (runner_with new_job)).db.jobs
    ≡ some (
        last_status pending
          (handle_job_events codec new_job true true (arriving (messages both))).frames)
unfolding text_eq
handle_job_events-consume_example =
    handle_job_events-consume codec new_job both (runner_with new_job) refl (
      structured,
      structured_msg-States,
      (λ e. ground arith),
      (rendered, rendered_msg-States, (λ e. ground arith), tt),
    )

late_failure_example :
    ((handle_job_events codec structured_job true true (message failed_msg true ∷ [])).exit
      ≡ finished)
    × (last_status rendering
          (handle_job_events codec structured_job true true (message failed_msg true ∷ [])).frames
        ≡ failed)
    × (status_in
          (codes "j")
          (handle_msg codec up 10 failed_msg (runner_with structured_job)).0.db.jobs
        ≡ some rendering)
unfolding text_eq
late_failure_example =
    late_failure codec 10 structured_job failed_msg [] (runner_with structured_job) refl refl
      failed_msg-States

abbrev replayed : List Signal
replayed =
    heartbeat true
    ∷ message structured_msg true
    ∷ message structured_msg true
    ∷ message rendered_msg true
    ∷ message failed_msg true
    ∷ done
    ∷ []

handle_job_events-Ascends_example :
    Ascends (statuses (handle_job_events codec new_job true true replayed).frames)
    × (length (statuses (handle_job_events codec new_job true true replayed).frames) ≤ 3)
handle_job_events-Ascends_example = handle_job_events-Ascends codec new_job true true replayed

handle_job_events-finished_iff_example :
    ((handle_job_events codec new_job true true replayed).exit ≡ finished) ↔ (
      is_terminal (last_status pending (handle_job_events codec new_job true true replayed).frames)
      ≡ true)
handle_job_events-finished_iff_example = handle_job_events-finished_iff codec new_job true replayed
