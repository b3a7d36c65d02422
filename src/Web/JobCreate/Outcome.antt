-- ===== src/Web/JobCreate/Outcome.antt =====
-- How a submission ends.
use mathlib.Core.Option
use corrupt_cv.Common.{Option, ◌≡◌, ◌⊎◌, inl, inr, refl, List, [], ◌∷◌, ◌++◌, some, Text, Bytes}
use corrupt_cv.Strings.{trim_space}
use corrupt_cv.Events.{JobRequested}
use corrupt_cv.Store.Rows.{failed, Profile}
use corrupt_cv.Store.Query.{up, lost}
use corrupt_cv.Jobs.Fact.{status_in}
use corrupt_cv.Catalog.Load.{Catalog}
use corrupt_cv.Jetstream.Subject.{subject, event_requested}
use corrupt_cv.Jetstream.Publish.{OutMsg}
use corrupt_cv.Web.Response.{Response}
use corrupt_cv.Web.JobCreate.Checks.{IsAccepted, create_trimmed_rule}
use corrupt_cv.Web.JobCreate.{Env, Form, Effect, set_key, publish, World, handle_job_create}

-- Either the submission passed every check, or the tables, Valkey, the stream and the count of
-- created jobs are as before.
pub handle_job_create-IsAccepted :
    (env : Env) (cat : Catalog) (visitor : Text) (form : Form) (w : World)
    → let w' = (handle_job_create env cat visitor form w).1 in
      ((profile : Profile) × (info : Bytes) × IsAccepted env cat visitor
          (trim_space form.job_description)
          (trim_space form.model_key)
          (trim_space form.api_key)
          w.db
          profile
          info)
      ⊎ ((w'.db ≡ w.db) × (w'.effects ≡ w.effects) × (w'.jobs_created ≡ w.jobs_created))
unfolding handle_job_create
handle_job_create-IsAccepted env cat visitor form w =
    let d = trim_space form.job_description in
    let m = trim_space form.model_key in
    let k = trim_space form.api_key in
    create_trimmed_rule env cat visitor d m k w
      (λ out.
        ((profile : Profile) × (info : Bytes) × IsAccepted env cat visitor d m k w.db profile info)
        ⊎ ((out.1.db ≡ w.db) × (out.1.effects ≡ w.effects) × (out.1.jobs_created ≡ w.jobs_created)))
      (λ answer counts. inr (refl, refl, refl))
      (λ profile info accepted. inl (profile, info, accepted))

-- The message of a job: on its subject for requested events, with a payload that encodes an event
-- of the job.
abbrev pub IsRequest : (JobRequested → Option Bytes) → Text → OutMsg → Type 0
IsRequest marshal job m =
    (ev : JobRequested) × (ev.job_id ≡ job)
    × (marshal ev ≡ some m.payload)
    × (m.subject ≡ subject job event_requested)

-- The job's message is the first that is published among the effects.
abbrev pub Published : (JobRequested → Option Bytes) → Text → List Effect → Type 0
Published marshal job [] = ⊥
Published marshal job (publish m ∷ es) = IsRequest marshal job m
Published marshal job (set_key c ∷ es) = Published marshal job es

-- The job has failed, or its event follows the effects of `before`.
abbrev pub IsSettled : (JobRequested → Option Bytes) → Text → List Effect → World → Type 0
IsSettled marshal job before w =
    (status_in job w.db.jobs ≡ some failed)
    ⊎ ((new : List Effect) × (w.effects ≡ before ++ new) × Published marshal job new)

-- How the tables and the stream are left: the tables as before; with the job, if the answer to its
-- insertion is lost, and then nothing else is done; or settled.
abbrev pub Ended : Env → (before after : World) → Type 0
Ended env w w' =
    (w'.db ≡ w.db)
    ⊎ (((env.create_link ≡ lost) × (w'.effects ≡ w.effects) × (w'.jobs_created ≡ w.jobs_created))
        ⊎ IsSettled env.marshal env.fresh w.effects w')

module _ (env : Env) (answers : env.fail_link ≡ up) where
  module _ (cat : Catalog) (visitor d m k : Text) (w : World) where
    abbrev Ends : Response × World → Type 0
    Ends out = Ended env w out.1
