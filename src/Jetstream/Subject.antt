-- ===== src/Jetstream/Subject.antt =====
-- Subjects and dedup ids of job events.
use corrupt_cv.Common.{
  ◌≡◌, ◌↔◌, refl, ap, sym, ◌∙◌, List, [], ◌∷◌, ◌++◌, Option, none, some, arith, Text, codes, All,
  text_eq, text_eq_iff, if◌then◌else◌,
}
use mathlib.Core.Path.{subst}
use corrupt_cv.Strings.{Lacks, split, join}
use corrupt_cv.Strings.Laws.{
  split-append_sep, split_of_Lacks, join-split, split-Lacks, append_sep_injective,
}

abbrev pub stream_name : Text
stream_name = codes "CV_EVENTS"

abbrev pub event_requested : Text
event_requested = codes "requested"

abbrev pub event_structured : Text
event_structured = codes "structured"

abbrev pub event_rendered : Text
event_rendered = codes "rendered"

abbrev pub event_failed : Text
event_failed = codes "failed"

-- `fmt.Sprintf("cv.%s.%s", jobID, event)`
unfoldable pub subject : Text → Text → Text
subject job event = codes "cv" ++ b'.' ∷ (job ++ b'.' ∷ event)

-- `fmt.Sprintf("%s:%s", jobID, event)`
unfoldable pub msg_id : Text → Text → Text
msg_id job event = job ++ b':' ∷ event

-- The test `len(parts) != 3` is the pattern.
abbrev of_parts : List Text → Option (Text × Text)
of_parts (prefix ∷ job ∷ event ∷ []) =
    if text_eq prefix (codes "cv") then some (job, event) else none
of_parts _ = none

unfoldable pub parse_subject : Text → Option (Text × Text)
unfolding split
parse_subject s = of_parts (split b'.' s)

-- Parsing gives back the job and the event of a subject, if neither holds a dot.
pub parse_subject-subject :
    (job event : Text)
    → Lacks b'.' job
    → Lacks b'.' event
    → parse_subject (subject job event) ≡ some (job, event)
unfolding subject parse_subject text_eq
parse_subject-subject job event hj he =
    rw (split-append_sep b'.' job event hj, split_of_Lacks b'.' event he) refl

of_parts_sound :
    (parts : List Text) (job event : Text)
    → of_parts parts ≡ some (job, event)
    → parts ≡ codes "cv" ∷ job ∷ event ∷ []
of_parts_sound (prefix ∷ j ∷ e ∷ []) job event h = ground (arith, text_eq_iff prefix (codes "cv"))
of_parts_sound [] job event h = cc
of_parts_sound _ job event h = ground arith

-- A parsed subject is the subject of its parts, which hold no dot.
pub subject-parse_subject :
    (s job event : Text)
    → parse_subject s ≡ some (job, event)
    → (subject job event ≡ s) × Lacks b'.' job × Lacks b'.' event
unfolding subject parse_subject join
subject-parse_subject s job event h =
    let parts : split b'.' s ≡ codes "cv" ∷ job ∷ event ∷ [] =
      of_parts_sound (split b'.' s) job event h in
    let lacking = subst (All (Lacks b'.')) parts (split-Lacks b'.' s) in
    (ap (join b'.') (sym parts) ∙ join-split b'.' s, lacking.1.0, lacking.1.1.0)

-- A text parses to a job and an event exactly when it is the subject of the two and neither holds
-- a dot: subjects and parses are inverse, and nothing else is accepted.
pub parse_subject_iff :
    (s job event : Text)
    → (parse_subject s ≡ some (job, event))
      ↔ ((subject job event ≡ s) × Lacks b'.' job × Lacks b'.' event)
parse_subject_iff s job event = (
  subject-parse_subject s job event,
  λ (spelt, hj, he). ap parse_subject (sym spelt) ∙ parse_subject-subject job event hj he,
)

-- Jobs whose ids hold no colon never share a dedup id, nor do two events of one job.
pub msg_id_injective :
    (job event job' event' : Text)
    → Lacks b':' job
    → Lacks b':' job'
    → msg_id job event ≡ msg_id job' event'
    → (job ≡ job') × (event ≡ event')
unfolding msg_id
msg_id_injective job event job' event' h h' e =
    append_sep_injective b':' job job' event event' h h' e
