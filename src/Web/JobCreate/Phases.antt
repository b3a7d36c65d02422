-- ===== src/Web/JobCreate/Phases.antt =====
-- `handleJobCreate` cut at its calls: between two of them, other requests and the runner may run.
pub mod Rule
pub mod Whole
use corrupt_cv.Common.{
  ℕ, zero, suc, ◌≤◌, ◌≡◌, refl, sym, ap, ◌∙◌, Bool, true, false, not, ◌&&◌, ◌||◌, List, [], ◌∷◌,
  ◌++◌, map, Option, none, some, Text, Bytes, arith, codes, is_empty, if◌then◌else◌, inl, inr,
  Bool-cases,
}
use corrupt_cv.Strings.{trim_space}
use corrupt_cv.Events.{JobRequested}
use corrupt_cv.Store.Rows.{Profile, Db}
use corrupt_cv.Store.Query.{Result, ok, err, not_found, broken, get_profile, create_job}
use corrupt_cv.Catalog.Load.{ModelCatalogEntry, Catalog, get}
use corrupt_cv.Jetstream.Publish.{OutMsg, publish_job_requested}
use corrupt_cv.Web.ApiKeys.{SetCommand, put}
use corrupt_cv.Web.Limits.{SizeError, validate_job_sizes}
use corrupt_cv.Web.Response.{
  Response, internal_error, empty_description, unknown_model, missing_api_key, no_profile,
  incomplete_profile,
}
use corrupt_cv.Web.JobCreate.{
  Env, Form, set_key, publish, World, is_fake, has_no_info, reject_job, job_page, fail_job,
  after_publish, publish_event, after_put, hand_off, requested_event, after_create, info_text,
  with_info, with_sizes, with_profile, with_entry, create_trimmed, handle_job_create,
}

-- Where the handler stands: before its query of the profile, its insert, its SET, its
-- publish, its update to failed; or it has answered.
pub data Phase : Type 0 where
  checking : Phase
  creating : Profile → Bytes → Phase
  handing publishing : JobRequested → Phase
  failing : (job reason : Text) → Phase
  finished : Response → Phase

-- A submission on its way: the trimmed fields of its form, and what it meets.
pub record Submission : Type 0 where
  pub env : Env
  pub visitor : Text
  pub job_description : Text
  pub model_key : Text
  pub api_key : Text

abbrev pub submit : Env → Text → Form → Submission
unfolding trim_space
submit env visitor form = record {
  env = env;
  visitor = visitor;
  job_description = trim_space form.job_description;
  model_key = trim_space form.model_key;
  api_key = trim_space form.api_key;
}

abbrev pub refused_by : Response × World → Phase × World
refused_by (answer, w) = (finished answer, w)

module _ (cat : Catalog) (s : Submission) where
  open s use {env, visitor, job_description, model_key, api_key}

  -- The checks, in their order.
  abbrev pub check_info : Profile → Option Bytes → World → Phase × World
  check_info profile none w = (finished internal_error, w)
  check_info profile (some info) w = (creating profile info, w)

  abbrev pub check_sizes : Profile → Option SizeError → World → Phase × World
  check_sizes profile (some e) w =
      refused_by (with_sizes env cat visitor job_description model_key api_key profile (some e) w)
  check_sizes profile none w =
      if is_empty (trim_space profile.career_text) || has_no_info profile.personal_info
      then refused_by (
          reject_job incomplete_profile
            (codes "Your profile needs career history and personal details first.") w)
      else check_info profile
          (env.decode_info
            (info_text env cat visitor job_description model_key api_key profile.personal_info))
          w

  abbrev pub check_profile : Result Profile → World → Phase × World
  check_profile (err not_found) w =
      refused_by (reject_job no_profile (codes "Save your profile before generating a CV.") w)
  check_profile (err broken) w = (finished internal_error, w)
  check_profile (ok profile) w =
      check_sizes profile (validate_job_sizes job_description profile.career_text) w

  abbrev pub check_entry : Option ModelCatalogEntry → World → Phase × World
  check_entry none w =
      refused_by (reject_job unknown_model (codes "Please pick a model from the list.") w)
  check_entry (some entry) w =
      if not (is_fake entry.provider) && is_empty api_key
      then refused_by
          (reject_job missing_api_key (codes "This model requires your provider API key.") w)
      else check_profile (get_profile env.profile_link visitor w.db) w

  abbrev pub check : World → Phase × World
  check w =
      if is_empty job_description
      then refused_by (reject_job empty_description (codes "Job description must not be empty.") w)
      else check_entry (get cat model_key) w

  abbrev pub created : Profile → Bytes → Result Text × Db → World → Phase × World
  created profile info (err e, db) w = (finished internal_error, record w { db = db })
  created profile info (ok job, db) w =
      let ev = requested_event env cat visitor job_description model_key api_key job profile info in
      (
        (if is_empty api_key then publishing ev else handing ev),
        record w { db = db; jobs_created = model_key ∷ w.jobs_created },
      )

  abbrev pub handed : JobRequested → Bool × List SetCommand → World → Phase × World
  handed ev (true, sets) w = (publishing ev, record w { effects = w.effects ++ map set_key sets })
  handed ev (false, sets) w = (
    failing ev.job_id (codes "could not hand off API key"),
    record w { effects = w.effects ++ map set_key sets },
  )

  abbrev pub after_sending : Text → Bool × List OutMsg → World → Phase × World
  after_sending job (true, msgs) w =
      (finished (job_page job), record w { effects = w.effects ++ map publish msgs })
  after_sending job (false, msgs) w = (
    failing job (codes "could not enqueue job"),
    record w { effects = w.effects ++ map publish msgs },
  )

  -- From one call to the next.
  unfoldable pub advance : Phase → World → Phase × World
  unfolding trim_space get get_profile create_job validate_job_sizes publish_job_requested put
  advance checking w = check w
  advance (creating profile info) w =
      created profile info
        (create_job env.create_link env.now env.fresh visitor profile.id job_description model_key
          w.db)
        w
  advance (handing ev) w = handed ev (put env.key_link ev.job_id api_key) w
  advance (publishing ev) w =
      after_sending ev.job_id (publish_job_requested env.marshal env.pairs env.publish_link ev) w
  advance (failing job reason) w = (finished (job_page job), fail_job env job reason w)
  advance (finished answer) w = (finished answer, w)

  unfoldable pub advance_all : ℕ → Phase → World → Phase × World
  unfolding advance
  advance_all zero phase w = (phase, w)
  advance_all (suc n) phase w = let (phase', w') = advance phase w in advance_all n phase' w'
