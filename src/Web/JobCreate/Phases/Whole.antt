-- ===== src/Web/JobCreate/Phases/Whole.antt =====
-- A handler that runs undisturbed goes through its phases to the result of `handle_job_create`.
use corrupt_cv.Common.{
  ℕ, ◌-◌, zero, suc, ◌≤◌, ◌≡◌, refl, ap, ◌∙◌, Bool, true, false, not, ◌&&◌, ◌||◌, List, Option,
  none, some, Text, Bytes, arith, is_empty, inl, inr, Bool-cases,
}
use corrupt_cv.Strings.{trim_space}
use corrupt_cv.Store.Rows.{Profile, Db}
use corrupt_cv.Store.Query.{Result, ok, err, not_found, broken, create_job}
use corrupt_cv.Catalog.Load.{ModelCatalogEntry, Catalog}
use corrupt_cv.Jetstream.Publish.{OutMsg, publish_job_requested}
use corrupt_cv.Web.ApiKeys.{SetCommand, put}
use corrupt_cv.Web.Limits.{SizeError}
use corrupt_cv.Web.Response.{Response}
use corrupt_cv.Web.JobCreate.{
  Env, Form, World, is_fake, has_no_info, job_page, fail_job, after_publish, publish_event,
  after_put, after_create, with_info, with_sizes, with_profile, with_entry, create_trimmed,
  handle_job_create,
}
use corrupt_cv.Web.JobCreate.Phases.{
  Phase, checking, creating, handing, publishing, failing, finished, Submission, submit, check_info,
  check_sizes, check_profile, check_entry, check, created, handed, after_sending, advance,
  advance_all,
}
use corrupt_cv.Web.JobCreate.Phases.Rule.{check_rule}

module _ (cat : Catalog) (s : Submission) where
  open s use {env, visitor, job_description, model_key, api_key}

  -- What the handler does from a phase on.
  abbrev rest : Phase → World → Response × World
  rest checking w = create_trimmed env cat visitor job_description model_key api_key w
  rest (creating profile info) w =
      after_create env cat visitor job_description model_key api_key profile info
        (create_job env.create_link env.now env.fresh visitor profile.id job_description model_key
          w.db)
        w
  rest (handing ev) w = after_put env ev (put env.key_link ev.job_id api_key) w
  rest (publishing ev) w = publish_event env ev w
  rest (failing job reason) w = (job_page job, fail_job env job reason w)
  rest (finished answer) w = (answer, w)

  abbrev resume : Phase × World → Response × World
  resume (phase, w) = rest phase w

  module _ (w : World) where
    resume-check_info :
        (profile : Profile) (info : Option Bytes)
        → resume (check_info cat s profile info w)
          ≡ with_info env cat visitor job_description model_key api_key profile info w
    resume-check_info profile none = refl
    resume-check_info profile (some info) = refl

    resume-check_sizes :
        (profile : Profile) (e : Option SizeError)
        → resume (check_sizes cat s profile e w)
          ≡ with_sizes env cat visitor job_description model_key api_key profile e w
    resume-check_sizes profile (some e) = refl
    resume-check_sizes profile none =
        elim (Bool-cases
          (is_empty (trim_space profile.career_text) || has_no_info profile.personal_info)) [
            | inl e ↦ rw e refl
            | inr e ↦ rw e (resume-check_info profile _)
          ]

    resume-check_profile :
        (r : Result Profile)
        → resume (check_profile cat s r w)
          ≡ with_profile env cat visitor job_description model_key api_key r w
    resume-check_profile (err not_found) = refl
    resume-check_profile (err broken) = refl
    resume-check_profile (ok profile) = resume-check_sizes profile _

    resume-check_entry :
        (o : Option ModelCatalogEntry)
        → resume (check_entry cat s o w)
          ≡ with_entry env cat visitor job_description model_key api_key o w
    resume-check_entry none = refl
    resume-check_entry (some entry) =
        elim (Bool-cases (not (is_fake entry.provider) && is_empty api_key)) [
          | inl e ↦ rw e refl
          | inr e ↦ rw e (resume-check_profile _)
        ]

    resume-check :
        resume (check cat s w) ≡ create_trimmed env cat visitor job_description model_key api_key w
    resume-check = elim (Bool-cases (is_empty job_description)) [
      | inl e ↦ rw e refl
      | inr e ↦ rw e (resume-check_entry _)
    ]

  resume-created :
      (profile : Profile) (info : Bytes) (r : Result Text × Db) (w : World)
      → resume (created cat s profile info r w)
        ≡ after_create env cat visitor job_description model_key api_key profile info r w
  resume-created profile info (err e, db) w = refl
  resume-created profile info (ok job, db) w = elim (Bool-cases (is_empty api_key)) [
    | inl e ↦ rw e refl
    | inr e ↦ rw e refl
  ]

  -- An advance does not change what the handler does in the end.
  resume-advance : (phase : Phase) (w : World) → resume (advance cat s phase w) ≡ rest phase w
  unfolding advance
  resume-advance checking w = resume-check w
  resume-advance (creating profile info) w = resume-created profile info _ w
  resume-advance (handing ev) w = go (put env.key_link ev.job_id api_key)
    where
      go : (r : Bool × List SetCommand) → resume (handed cat s ev r w) ≡ after_put env ev r w
      go (true, sets) = refl
      go (false, sets) = refl
  resume-advance (publishing ev) w =
      go (publish_job_requested env.marshal env.pairs env.publish_link ev)
    where
      go :
          (r : Bool × List OutMsg)
          → resume (after_sending cat s ev.job_id r w) ≡ after_publish env ev.job_id r w
      go (true, msgs) = refl
      go (false, msgs) = refl
  resume-advance (failing job reason) w = refl
  resume-advance (finished answer) w = refl

-- How many advances are left, at most.
abbrev left : Phase → ℕ
left checking = 5
left (creating profile info) = 4
left (handing ev) = 3
left (publishing ev) = 2
left (failing job reason) = 1
left (finished answer) = 0

module _ (cat : Catalog) (s : Submission) where
  open s use {env, visitor, job_description, model_key, api_key}

  left-advance : (phase : Phase) (w : World) → left (advance cat s phase w).0 ≤ left phase - 1
  unfolding advance
  left-advance checking w =
      check_rule cat s w (λ out. left out.0 ≤ 4) (λ answer counts. omega arith)
        (λ profile info accepted. omega arith)
  left-advance (creating profile info) w = go (
      create_job env.create_link env.now env.fresh visitor profile.id job_description model_key
        w.db)
    where
      go : (r : Result Text × Db) → left (created cat s profile info r w).0 ≤ 3
      go (err e, db) = omega arith
      go (ok job, db) = ground arith
  left-advance (handing ev) w = go (put env.key_link ev.job_id api_key)
    where
      go : (r : Bool × List SetCommand) → left (handed cat s ev r w).0 ≤ 2
      go (true, sets) = omega arith
      go (false, sets) = omega arith
  left-advance (publishing ev) w =
      go (publish_job_requested env.marshal env.pairs env.publish_link ev)
    where
      go : (r : Bool × List OutMsg) → left (after_sending cat s ev.job_id r w).0 ≤ 1
      go (true, msgs) = omega arith
      go (false, msgs) = omega arith
  left-advance (failing job reason) w = omega arith
  left-advance (finished answer) w = omega arith

  abbrev answered : Response × World → Phase × World
  answered (answer, w) = (finished answer, w)

  advance_all-rest :
      (n : ℕ) (phase : Phase) (w : World)
      → left phase ≤ n
      → advance_all cat s n phase w ≡ answered (rest cat s phase w)
  unfolding advance_all
  advance_all-rest zero (finished answer) w h = refl
  advance_all-rest zero checking w h = absurd (omega arith)
  advance_all-rest zero (creating profile info) w h = absurd (omega arith)
  advance_all-rest zero (handing ev) w h = absurd (omega arith)
  advance_all-rest zero (publishing ev) w h = absurd (omega arith)
  advance_all-rest zero (failing job reason) w h = absurd (omega arith)
  advance_all-rest (suc n) phase w h =
      advance_all-rest n (advance cat s phase w).0 (advance cat s phase w).1
        (omega (arith, left-advance phase w))
      ∙ ap answered (resume-advance cat s phase w)

-- Cut at its calls and not disturbed between them, the handler has answered after five advances, with
-- the answer, the tables, the effects and the counters of `handle_job_create`.
pub advance_all-handle_job_create :
    (env : Env) (cat : Catalog) (visitor : Text) (form : Form) (w : World)
    → advance_all cat (submit env visitor form) 5 checking w ≡ (
      finished (handle_job_create env cat visitor form w).0,
      (handle_job_create env cat visitor form w).1,
    )
unfolding handle_job_create
advance_all-handle_job_create env cat visitor form w =
    advance_all-rest cat (submit env visitor form) 5 checking w (omega arith)
