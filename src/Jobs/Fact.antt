-- ===== src/Jobs/Fact.antt =====
-- What the projection promises, without tables: each message is a fact about one job, and a fact
-- moves a status.
use mathlib.Core.Option
use corrupt_cv.Common.{
  ℕ, List, [], ◌∷◌, Option, none, some, Text, Bytes, text_eq, find, if◌then◌else◌,
}
use corrupt_cv.Events.{JobStage, processing, JobStructured, JobFailed, Codec}
use corrupt_cv.Store.Rows.{Status, pending, rendering, completed, failed, Job}
use corrupt_cv.Store.Terminal.{has_id}
use corrupt_cv.Jetstream.Subject.{
  parse_subject, event_requested, event_structured, event_rendered, event_failed,
}
use corrupt_cv.Jobs.Runner.{Msg}

pub data Fact : Type 0 where
  requested structured rendered failed_processing failed_later : Fact

-- The status of a job after a fact.
abbrev pub next : Fact → Status → Status
next structured pending = rendering
next rendered pending = completed
next rendered rendering = completed
next failed_processing pending = failed
next failed_later pending = failed
next failed_later rendering = failed
next _ s = s

-- Which fact a message states, if it is well formed.
abbrev pub document_fact : Codec → Option Text → Option Fact
document_fact codec none = none
document_fact codec (some json) = Option.map (λ t. structured) (codec.jsonb json)

abbrev pub structured_fact : Codec → Option JobStructured → Option Fact
structured_fact codec none = none
structured_fact codec (some ev) = document_fact codec (codec.cv_json ev.cv)

abbrev pub stage_fact : JobStage → Fact
stage_fact processing = failed_processing
stage_fact _ = failed_later

abbrev pub event_fact : Codec → Text → Bytes → Option Fact
event_fact codec event payload =
    if text_eq event event_requested
    then some requested
    else if text_eq event event_structured
    then structured_fact codec (codec.structured payload)
    else if text_eq event event_rendered
    then Option.map (λ ev. rendered) (codec.rendered payload)
    else if text_eq event event_failed
    then Option.map (λ (ev : JobFailed). stage_fact ev.stage) (codec.failed payload)
    else none

abbrev pub status_in : Text → List Job → Option Status
status_in job rows = Option.map (λ (j : Job). j.status) (find (has_id job) rows)

-- A fact about `id`, seen by `job`.
abbrev pub effect : Option Fact → Text → Text → Status → Status
effect none id job s = s
effect (some fact) id job s = if text_eq id job then next fact s else s

-- The same of a fact whose subject has an id, by the uuid that the database reads in it.
abbrev pub effect_at : Option Fact → Option Text → Text → Status → Status
effect_at fact none job s = s
effect_at fact (some id) job s = effect fact id job s

-- What a message does to the status of a job.
abbrev pub message_effect : Codec → Msg → Text → Status → Status
message_effect codec msg job s = elim (parse_subject msg.subject) [
  | none ↦ s
  | some (id, event) ↦ effect_at (event_fact codec event msg.payload) (codec.uuid id) job s
]

abbrev pub project : Codec → Text → List (ℕ × Msg) → Status → Status
project codec job [] s = s
project codec job ((now, msg) ∷ ms) s = project codec job ms (message_effect codec msg job s)
