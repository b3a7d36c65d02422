-- ===== src/Web/Sse/Facts.antt =====
-- What a message that states a fact means to the stream and to the table.
use corrupt_cv.Common.{
  ◌≡◌, refl, Option, none, some, arith, Text, Bytes, text_eq, text_eq_refl, inl, inr, Bool-cases,
  Option-cases,
}
use mathlib.Core.Option
use corrupt_cv.Events.{Codec, JobStructured, JobRendered, JobFailed, JobStage, processing}
use corrupt_cv.Store.Rows.{Status, pending, rendering, completed, failed}
use corrupt_cv.Jetstream.Subject.{
  parse_subject, event_requested, event_structured, event_rendered, event_failed,
}
use corrupt_cv.Jobs.Runner.{Msg}
use corrupt_cv.Jobs.Fact.{
  Fact, requested, structured, rendered, failed_processing, failed_later, next, event_fact,
  structured_fact, document_fact, stage_fact, message_effect,
}
use corrupt_cv.Web.Status.{
  StatusUpdate, map_event, Mapped, update, plain, completed_update, failed_update,
}
use corrupt_cv.Web.Sse.{incoming, known}

-- The status that the stream shows for a fact.
abbrev pub shown : Fact → Status
shown requested = pending
shown structured = rendering
shown rendered = completed
shown failed_processing = failed
shown failed_later = failed

-- A mapped event that shows a fact.
abbrev Shows : Mapped → Fact → Type 0
Shows m fact = (u : StatusUpdate) × (known m ≡ some u) × (u.status ≡ shown fact)

module _ (codec : Codec) (fact : Fact) where
  structured-Shows :
      (o : Option JobStructured)
      → structured_fact codec o ≡ some fact
      → Shows (update (plain rendering)) fact
  structured-Shows none h = cc
  structured-Shows (some ev) h = document (codec.cv_json ev.cv) h
    where
      document :
          (json : Option Text)
          → document_fact codec json ≡ some fact
          → Shows (update (plain rendering)) fact
      document none h = cc
      document (some json) h = elim (Option-cases (codec.jsonb json)) [
        | inl e ↦ absurd (ground arith)
        | inr (t, e) ↦ (plain rendering, refl, ground arith)
      ]

  rendered-Shows :
      (job : Text) (o : Option JobRendered)
      → Option.map (λ ev. rendered) o ≡ some fact
      → Shows (update (completed_update job)) fact
  rendered-Shows job none h = cc
  rendered-Shows job (some ev) h = (completed_update job, refl, ground arith)

  stage_shown : (stage : JobStage) → stage_fact stage ≡ fact → failed ≡ shown fact
  stage_shown processing h = ground arith
  stage_shown _ h = ground arith

  failed-Shows :
      (o : Option JobFailed)
      → Option.map (λ (ev : JobFailed). stage_fact ev.stage) o ≡ some fact
      → Shows (failed_update o) fact
  failed-Shows none h = cc
  failed-Shows (some ev) h = (
    record { status = failed; error = some ev.error; download_url = none },
    refl,
    stage_shown ev.stage (ground arith),
  )

  -- Whenever the projection reads a fact in a payload, the stream maps the event to its status.
  map_event-Shows :
      (job event : Text) (payload : Bytes)
      → event_fact codec event payload ≡ some fact
      → Shows (map_event codec job event payload) fact
  unfolding map_event
  map_event-Shows job event payload h = elim (Bool-cases (text_eq event event_requested)) [
    | inl e ↦ rw e (plain pending, refl, ground arith)
    | inr e ↦
        let h = rw e at h in
        rw e (elim (Bool-cases (text_eq event event_structured)) [
          | inl e ↦ rw e (structured-Shows (codec.structured payload) (rw e at h))
          | inr e ↦
              let h = rw e at h in
              rw e (elim (Bool-cases (text_eq event event_rendered)) [
                | inl e ↦ rw e (rendered-Shows job (codec.rendered payload) (rw e at h))
                | inr e ↦
                    let h = rw e at h in
                    rw e (elim (Bool-cases (text_eq event event_failed)) [
                      | inl e ↦ rw e (failed-Shows (codec.failed payload) (rw e at h))
                      | inr e ↦ absurd (ground arith)
                    ])
              ])
        ])
  ]

-- A message about `job`, by the id that the database reads in its subject, that states a fact.
abbrev pub States : Codec → Text → Msg → Fact → Type 0
States codec job msg fact =
    (name event : Text) × (parse_subject msg.subject ≡ some (name, event))
    × (codec.uuid name ≡ some job)
    × (event_fact codec event msg.payload ≡ some fact)

-- The update that it means to the stream, and what it does to the table.
pub incoming-shows :
    (codec : Codec) (job : Text) (msg : Msg) (fact : Fact)
    → States codec job msg fact
    → (u : StatusUpdate) × (incoming codec job msg ≡ some u) × (u.status ≡ shown fact)
incoming-shows codec job msg fact (name, event, parsed, read, states) =
    let (u, same, seen) = map_event-Shows codec fact job event msg.payload states in
    (u, rw (parsed, incoming) same, seen)

pub message_effect-next :
    (codec : Codec) (job : Text) (msg : Msg) (fact : Fact) (s : Status)
    → States codec job msg fact
    → message_effect codec msg job s ≡ next fact s
message_effect-next codec job msg fact s (name, event, parsed, read, states) =
    rw (parsed, message_effect) (rw (states, read, text_eq_refl job) refl)
