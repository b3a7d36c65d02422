-- ===== src/Web/Status.antt =====
-- The status payload of sse.go. A status is one of the four of the table, so that the `default`
-- of `statusRank` has no case here.
use corrupt_cv.Common.{
  ℕ, Bool, true, false, ◌++◌, Option, none, some, Text, Bytes, codes, text_eq, if◌then◌else◌,
}
use corrupt_cv.Events.{JobFailed, Codec}
use corrupt_cv.Store.Rows.{Status, pending, rendering, completed, failed, Job}
use corrupt_cv.Jetstream.Subject.{event_requested, event_structured, event_rendered, event_failed}

pub record StatusUpdate : Type 0 where
  pub status : Status
  pub error : Option Text
  pub download_url : Option Text

-- `u.Status == "completed" || u.Status == "failed"`
abbrev pub is_terminal : Status → Bool
is_terminal completed = true
is_terminal failed = true
is_terminal _ = false

abbrev pub status_rank : Status → ℕ
status_rank pending = 0
status_rank rendering = 1
status_rank completed = 2
status_rank failed = 2

-- `fmt.Sprintf("/jobs/%s/download", jobID)`
abbrev pub download_url : Text → Text
download_url job = codes "/jobs/" ++ (job ++ codes "/download")

abbrev is_completed : Status → Bool
is_completed completed = true
is_completed _ = false

-- `StatusFromJob`
unfoldable pub status_from_job : Job → StatusUpdate
status_from_job j = record {
  status = j.status;
  error = j.error;
  download_url = if is_completed j.status then some (download_url j.id) else none;
}

-- The results of `MapEvent`: `(u, true, nil)`, `(_, false, nil)`, `(_, true, err)`.
pub data Mapped : Type 0 where
  update : StatusUpdate → Mapped
  unknown malformed : Mapped

abbrev pub plain : Status → StatusUpdate
plain s = record { status = s; error = none; download_url = none }

abbrev pub completed_update : Text → StatusUpdate
completed_update job = record {
  status = completed;
  error = none;
  download_url = some (download_url job);
}

abbrev pub failed_update : Option JobFailed → Mapped
failed_update none = malformed
failed_update (some ev) =
    update (record { status = failed; error = some ev.error; download_url = none })

-- `MapEvent`
unfoldable pub map_event : Codec → Text → Text → Bytes → Mapped
map_event codec job event payload =
    if text_eq event event_requested
    then update (plain pending)
    else if text_eq event event_structured
    then update (plain rendering)
    else if text_eq event event_rendered
    then update (completed_update job)
    else if text_eq event event_failed
    then failed_update (codec.failed payload)
    else unknown
