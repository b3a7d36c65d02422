-- ===== src/Web/Sse/Connection/Written.antt =====
-- Without what it opens and closes, a connection is the handler of Web/Sse.
use corrupt_cv.Common.{
  ◌≡◌, refl, ap, ◌∙◌, Bool, true, false, List, [], ◌∷◌, ◌++◌, map, append-nil, ◌&&◌, arith,
  if◌then◌else◌, inl, inr, Bool-cases,
}
use corrupt_cv.Events.{Codec}
use corrupt_cv.Store.Rows.{Job}
use corrupt_cv.Jetstream.Provision.{
  Request, job_request, ordered_job_consumer, delete_ordered_consumer,
}
use corrupt_cv.Web.Status.{is_terminal, status_rank, status_from_job}
use corrupt_cv.Web.Sse.{Signal, Frame, status, loop, consumer_failed, leave, handle_job_events}
use corrupt_cv.Web.Sse.Connection.{
  answered, Effect, disconnect, wrote, asked, World, consuming, subscribing, writing, serve_events,
}

-- The frames among the effects.
abbrev pub written : List Effect → List Frame
written [] = []
written (wrote f ∷ es) = f ∷ written es
written (_ ∷ es) = written es

written-append : (xs ys : List Effect) → written (xs ++ ys) ≡ written xs ++ written ys
written-append [] ys = refl
written-append (wrote f ∷ xs) ys = ap (λ fs. f ∷ fs) (written-append xs ys)
written-append (_ ∷ xs) ys = written-append xs ys

written-wrote : (fs : List Frame) → written (map wrote fs) ≡ fs
written-wrote [] = refl
written-wrote (f ∷ fs) = ap (λ gs. f ∷ gs) (written-wrote fs)

written-requests :
    (answers : Request → Bool) (rs : List Request)
    → written (map (λ r. asked r (answers r)) rs) ≡ []
written-requests answers [] = refl
written-requests answers (r ∷ rs) = written-requests answers rs

module _ (codec : Codec) (world : World) (job : Job) where
  open world use {answers, name, starts}

  -- Whether the handler gets to its loop.
  abbrev pub subscribed : Bool
  subscribed = (ordered_job_consumer answers job.id).0 && starts

  written-consuming :
      (ss : List Signal)
      → written (consuming codec world job ss)
        ≡ (if starts then (loop codec job.id (status_rank job.status) ss).frames else [])
  written-consuming ss = elim (Bool-cases starts) [
    | inl e ↦
        let fs = (loop codec job.id (status_rank job.status) ss).frames in
        rw e
          (written-append (map wrote fs) _ ∙ ap (λ gs. gs ++ []) (written-wrote fs) ∙ append-nil fs)
    | inr e ↦ rw e refl
  ]

  pub written-subscribing :
      (ss : List Signal)
      → written (subscribing codec world job ss)
        ≡ (if subscribed
            then loop codec job.id (status_rank job.status) ss
            else leave consumer_failed).frames
  unfolding ordered_job_consumer
  written-subscribing ss = elim (Bool-cases (answers (job_request job.id))) [
    | inl e ↦
        let deletes = delete_ordered_consumer answers name in
        rw e (
          rw e (
            written-append (consuming codec world job ss) (answered answers deletes)
            ∙ (λ i. written-consuming ss i ++ written-requests answers deletes.1 i)
            ∙ append-nil _
            ∙ ground arith))
    | inr e ↦ rw e refl
  ]

-- Without its effects, this is the handler.
pub written-serve_events :
    (codec : Codec) (world : World) (job : Job) (first_write : Bool) (ss : List Signal)
    → written (serve_events codec world job first_write ss)
      ≡ (handle_job_events codec job first_write (subscribed codec world job) ss).frames
unfolding serve_events handle_job_events
written-serve_events codec world job false ss = refl
written-serve_events codec world job true ss =
    written-append (writing codec world job true ss) (disconnect ∷ [])
    ∙ append-nil _
    ∙ ap (λ fs. status (status_from_job job) ∷ fs)
        (elim (Bool-cases (is_terminal job.status)) [
          | inl e ↦ rw e refl
          | inr e ↦ rw e (written-subscribing codec world job ss)
        ])
