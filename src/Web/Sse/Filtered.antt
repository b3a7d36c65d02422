-- ===== src/Web/Sse/Filtered.antt =====
-- What the server gives a client of all that is on the stream. `matches filter subject` is whether
-- the server's filter selects a subject.
use corrupt_cv.Common.{
  All, Option, none, ℕ, ◌≡◌, ◌≢◌, ◌↔◌, refl, sym, ap, ◌∙◌, Bool, true, false, List, [], ◌∷◌, ◌++◌,
  some, arith, Text, codes, select, text_eq, text_eq_iff, inl, inr, Bool-cases, Option-cases,
}
use corrupt_cv.Strings.{Lacks}
use corrupt_cv.Events.{Codec}
use corrupt_cv.Store.Rows.{Status, Job}
use corrupt_cv.Jetstream.Subject.{subject, parse_subject, subject-parse_subject}
use corrupt_cv.Jetstream.Provision.{job_filter}
use corrupt_cv.Jobs.Runner.{Msg, Runner}
use corrupt_cv.Jobs.Fact.{effect_at, event_fact, message_effect, project, status_in}
use corrupt_cv.Jobs.Spec.{consume, consume-refines}
use mathlib.Core.Option
use corrupt_cv.Web.Sse.{handle_job_events}
use corrupt_cv.Web.Sse.Order.{last_status}
use corrupt_cv.Web.Sse.Sync.{
  IsOrderly, arriving, projected, messages, project-projected, handler-projected,
}

-- A filter that ends in ".>" and has no other wildcard selects the subjects that start like it and
-- go on behind the dot.
abbrev pub IsFilter : (Text → Text → Bool) → Type 0
IsFilter matches =
    (prefix s : Text)
    → Lacks b'*' prefix
    → Lacks b'>' prefix
    → (matches (prefix ++ codes ".>") s ≡ true)
      ↔ ((rest : Text) × (rest ≢ []) × (s ≡ prefix ++ b'.' ∷ rest))

-- The subject spells the job's id as the database shows it, if it has that id at all.
abbrev pub IsSpelt : Codec → Text → Msg → Type 0
IsSpelt codec job msg =
    (name event : Text)
    → parse_subject msg.subject ≡ some (name, event)
    → codec.uuid name ≡ some job
    → name ≡ job

-- The messages that the ordered consumer of a job is given.
abbrev pub served : (Text → Text → Bool) → Text → List Msg → List Msg
served matches job ms = select (λ (msg : Msg). matches (job_filter job) msg.subject) ms

module _ (codec : Codec) (matches : Text → Text → Bool) (law : IsFilter matches) (job : Text)
    (star : Lacks b'*' job) (tail : Lacks b'>' job) where
  selects : (event : Text) → event ≢ [] → matches (job_filter job) (subject job event) ≡ true
  unfolding job_filter subject
  selects event some_event =
      (law (codes "cv." ++ job) (subject job event)
          (ground arith, (ground arith, (ground arith, star)))
          (ground arith, (ground arith, (ground arith, tail)))).1
        (event, some_event, refl)

  -- No event without a name states a fact.
  aside :
      (name event : Text) (msg : Msg) (s : Status) (o : Option Text)
      → (o ≡ some job → name ≡ job)
      → matches (job_filter job) (subject name event) ≡ false
      → effect_at (event_fact codec event msg.payload) o job s ≡ s
  unfolding text_eq
  aside name event msg s none spelt other = refl
  aside name [] msg s (some id) spelt other = refl
  aside name (c ∷ event) msg s (some id) spelt other = elim (Bool-cases (text_eq id job)) [
    | inl e ↦
        let same : name ≡ job = spelt (ap some ((text_eq_iff id job).0 e)) in
        let chosen = selects (c ∷ event) (ground arith) in
        absurd (ground (arith, ap (λ i. matches (job_filter job) (subject i (c ∷ event))) same))
    | inr e ↦ ground arith
  ]

  -- A message that is not selected does not touch the job.
  passes_by :
      (msg : Msg) (s : Status)
      → IsSpelt codec job msg
      → matches (job_filter job) msg.subject ≡ false
      → message_effect codec msg job s ≡ s
  passes_by msg s spelt other = elim (Option-cases (parse_subject msg.subject)) [
    | inl e ↦ rw (e, message_effect) refl
    | inr ((name, event), e) ↦
        let spelling = (subject-parse_subject msg.subject name event e).0 in
        rw (e, message_effect)
          (aside name event msg s (codec.uuid name) (spelt name event e) (rw spelling other))
  ]

  projected-served :
      (ms : List Msg) (s : Status)
      → All (IsSpelt codec job) ms
      → projected codec job ms s ≡ projected codec job (served matches job ms) s
  projected-served [] s spelt = refl
  projected-served (msg ∷ ms) s (this, rest) =
      elim (Bool-cases (matches (job_filter job) msg.subject)) [
        | inl e ↦ rw e (projected-served ms (message_effect codec msg job s) rest)
        | inr e ↦ rw e (rw (passes_by msg s this e) (projected-served ms s rest))
      ]

-- Many jobs share the stream. A client that is given of it only what the filter of its ordered consumer selects, and a
-- runner that consumes the whole stream from the same status, end with the same status of the
-- client's job, if what the client is given is orderly, all writes to the client succeed, the database
-- answers, the job's id holds no wildcard, and every subject of the stream that has the job's id spells
-- it as the database shows it. (A subject in another spelling changes the row, and the filter does not
-- select it.)
pub served-consume :
    (codec : Codec) (matches : Text → Text → Bool) (j : Job) (ms : List (ℕ × Msg)) (r : Runner)
    → IsFilter matches
    → Lacks b'*' j.id
    → Lacks b'>' j.id
    → All (IsSpelt codec j.id) (messages ms)
    → status_in j.id r.db.jobs ≡ some j.status
    → IsOrderly codec j.id j.status (served matches j.id (messages ms))
    → status_in j.id (consume codec ms r).db.jobs
      ≡ some (
          last_status j.status
            (handle_job_events codec j true true
              (arriving (served matches j.id (messages ms)))).frames)
served-consume codec matches j ms r law star tail spelt found orderly =
    consume-refines codec ms r j.id
    ∙ ap (Option.map (project codec j.id ms)) found
    ∙ ap some (
        project-projected codec j.id ms j.status
        ∙ projected-served codec matches law j.id star tail (messages ms) j.status spelt
        ∙ sym (handler-projected codec j (served matches j.id (messages ms)) orderly))
