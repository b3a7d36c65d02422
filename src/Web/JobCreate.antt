-- ===== src/Web/JobCreate.antt =====
-- `handleJobCreate` of handlers.go. `Env` is what the request meets outside the gateway: one link
-- for each call, the clock, the id that the database generates, and the codecs. The commands to
-- Valkey and the messages to the stream are listed in the order in which they take effect.
pub mod Checks
pub mod Handoff
pub mod Outcome
pub mod Own
pub mod Success
pub mod Phases
use corrupt_cv.Common.{
  ℕ, Bool, true, false, not, ◌&&◌, ◌||◌, List, [], ◌∷◌, ◌++◌, map, Option, none, some, Text, Bytes,
  codes, is_empty, if◌then◌else◌,
}
use corrupt_cv.Strings.{trim_space}
use corrupt_cv.Events.{JobRequested}
use corrupt_cv.Store.Rows.{Profile, Db}
use corrupt_cv.Store.Query.{
  Link, Error, not_found, broken, Result, ok, err, get_profile, create_job, mark_failed,
}
use corrupt_cv.Catalog.Load.{Provider, fake, ModelCatalogEntry, Catalog, get}
use corrupt_cv.Jetstream.Publish.{OutMsg, publish_job_requested}
use corrupt_cv.Web.ApiKeys.{SetCommand, put}
use corrupt_cv.Web.Response.{
  Response, text, see_other, internal_error, Reason, empty_description, unknown_model,
  missing_api_key, no_profile, job_too_long, career_too_long, incomplete_profile,
  redirect_with_error,
}
use corrupt_cv.Web.Limits.{
  SizeError, job_description_too_long, career_text_too_long, validate_job_sizes,
}

pub record Env : Type 0 where
  pub now : ℕ
  pub fresh : Text
  pub profile_link : Link
  pub create_link : Link
  pub key_link : Link
  pub publish_link : Link
  pub fail_link : Link
  -- `protojson.Unmarshal` into PersonalInfo, `proto.Marshal`, and the injected trace context
  pub decode_info : Text → Option Bytes
  pub marshal : JobRequested → Option Bytes
  pub pairs : List (Text × Text)

pub record Form : Type 0 where
  pub job_description : Text
  pub model_key : Text
  pub api_key : Text

pub data Effect : Type 0 where
  set_key : SetCommand → Effect
  publish : OutMsg → Effect

pub record World : Type 0 where
  pub db : Db
  pub effects : List Effect
  pub jobs_created : List Text
  pub jobs_rejected : List Reason

abbrev pub is_fake : Provider → Bool
is_fake fake = true
is_fake _ = false

-- `len(profile.PersonalInfo) == 0`
abbrev pub has_no_info : Option Text → Bool
has_no_info none = true
has_no_info (some info) = is_empty info

abbrev pub count_rejected : Reason → World → World
count_rejected reason w = record w { jobs_rejected = reason ∷ w.jobs_rejected }

-- `rejectJob`
abbrev pub reject_job : Reason → Text → World → Response × World
reject_job reason msg w = (redirect_with_error msg, count_rejected reason w)

-- `"/jobs/"+jobID`
abbrev pub job_page : Text → Response
job_page job = see_other (codes "/jobs/" ++ job)

module _ (env : Env) where
  abbrev pub fail_job : Text → Text → World → World
  fail_job job reason w = record w { db = (mark_failed env.fail_link env.now job reason w.db).1 }

  -- From the publishing on.
  abbrev pub after_publish : Text → Bool × List OutMsg → World → Response × World
  after_publish job (true, msgs) w =
      (job_page job, record w { effects = w.effects ++ map publish msgs })
  after_publish job (false, msgs) w = (
    job_page job,
    fail_job job (codes "could not enqueue job")
        (record w { effects = w.effects ++ map publish msgs }),
  )

  abbrev pub publish_event : JobRequested → World → Response × World
  publish_event ev w =
      after_publish ev.job_id (publish_job_requested env.marshal env.pairs env.publish_link ev) w

  -- From the hand-off of the key on.
  abbrev pub after_put : JobRequested → Bool × List SetCommand → World → Response × World
  after_put ev (true, sets) w =
      publish_event ev (record w { effects = w.effects ++ map set_key sets })
  after_put ev (false, sets) w = (
    job_page ev.job_id,
    fail_job ev.job_id (codes "could not hand off API key")
        (record w { effects = w.effects ++ map set_key sets }),
  )

  abbrev pub hand_off : Text → JobRequested → World → Response × World
  hand_off api_key ev w =
      if is_empty api_key
      then publish_event ev w
      else after_put ev (put env.key_link ev.job_id api_key) w

module _ (env : Env) (cat : Catalog) (visitor : Text)
    (job_description model_key api_key : Text) where
  abbrev pub requested_event : Text → Profile → Bytes → JobRequested
  requested_event job profile info = record {
    job_id = job;
    career_text = profile.career_text;
    job_description = job_description;
    personal_info = info;
    model_key = model_key;
    occurred_at = some env.now;
  }

  abbrev pub after_create : Profile → Bytes → Result Text × Db → World → Response × World
  after_create profile info (err e, db) w = (internal_error, record w { db = db })
  after_create profile info (ok job, db) w =
      hand_off env api_key (requested_event job profile info)
        (record w { db = db; jobs_created = model_key ∷ w.jobs_created })

  abbrev pub with_info : Profile → Option Bytes → World → Response × World
  with_info profile none w = (internal_error, w)
  with_info profile (some info) w =
      after_create profile info
        (create_job env.create_link env.now env.fresh visitor profile.id job_description model_key
          w.db)
        w

  abbrev pub info_text : Option Text → Text
  info_text none = []
  info_text (some t) = t

  abbrev pub with_sizes : Profile → Option SizeError → World → Response × World
  with_sizes profile (some job_description_too_long) w = (
    text 400 (
        codes
          "Job description is too long (limit 20,000 characters). Please shorten it and try again."),
    count_rejected job_too_long w,
  )
  with_sizes profile (some career_text_too_long) w = (
    text 400 (
        codes
          "Your saved career history is too long (limit 100,000 characters). Please shorten it on the home page and try again."),
    count_rejected career_too_long w,
  )
  with_sizes profile none w =
      if is_empty (trim_space profile.career_text) || has_no_info profile.personal_info
      then reject_job incomplete_profile
          (codes "Your profile needs career history and personal details first.") w
      else with_info profile (env.decode_info (info_text profile.personal_info)) w

  abbrev pub with_profile : Result Profile → World → Response × World
  with_profile (err not_found) w =
      reject_job no_profile (codes "Save your profile before generating a CV.") w
  with_profile (err broken) w = (internal_error, w)
  with_profile (ok profile) w =
      with_sizes profile (validate_job_sizes job_description profile.career_text) w

  abbrev pub with_entry : Option ModelCatalogEntry → World → Response × World
  with_entry none w = reject_job unknown_model (codes "Please pick a model from the list.") w
  with_entry (some entry) w =
      if not (is_fake entry.provider) && is_empty api_key
      then reject_job missing_api_key (codes "This model requires your provider API key.") w
      else with_profile (get_profile env.profile_link visitor w.db) w

  abbrev pub create_trimmed : World → Response × World
  create_trimmed w =
      if is_empty job_description
      then reject_job empty_description (codes "Job description must not be empty.") w
      else with_entry (get cat model_key) w

-- `handleJobCreate`
unfoldable pub handle_job_create : Env → Catalog → Text → Form → World → Response × World
unfolding trim_space get get_profile create_job mark_failed validate_job_sizes publish_job_requested
    put redirect_with_error
handle_job_create env cat visitor form w =
    create_trimmed env cat visitor (trim_space form.job_description) (trim_space form.model_key)
      (trim_space form.api_key) w
