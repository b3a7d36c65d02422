-- ===== src/Web/JobCreate/Own.antt =====
-- A submission on the rows of its visitor alone.
use corrupt_cv.Common.{
  ◌≡◌, refl, ap, ◌∙◌, Bool, true, false, not, ◌&&◌, ◌||◌, List, ◌∷◌, ◌++◌, map, Option, none, some,
  Text, Bytes, is_empty, inl, inr, Bool-cases,
}
use corrupt_cv.Strings.{trim_space}
use corrupt_cv.Events.{JobRequested}
use corrupt_cv.Store.Rows.{Profile, Db}
use corrupt_cv.Store.Query.{Result, ok, err, not_found, broken, get_profile, create_job}
use corrupt_cv.Store.Own.{own_rows, get_profile-own, create_job-own, mark_failed-own}
use corrupt_cv.Catalog.Load.{ModelCatalogEntry, Catalog, get}
use corrupt_cv.Jetstream.Publish.{OutMsg, publish_job_requested}
use corrupt_cv.Web.ApiKeys.{SetCommand, put}
use corrupt_cv.Web.Limits.{
  SizeError, job_description_too_long, career_text_too_long, validate_job_sizes,
}
use corrupt_cv.Web.Response.{Response}
use corrupt_cv.Web.JobCreate.{
  Env, Form, World, set_key, publish, is_fake, has_no_info, job_page, fail_job, after_publish,
  after_put, hand_off, requested_event, after_create, with_info, with_sizes, with_profile,
  with_entry, create_trimmed, handle_job_create,
}

abbrev pub own_world : Text → World → World
own_world visitor w = record w { db = own_rows visitor w.db }

module _ (env : Env) (visitor : Text) where
  -- A step does the same, and leaves the visitor's own rows of what it would leave.
  abbrev pub Commutes : (World → Response × World) → World → Type 0
  Commutes step w = step (own_world visitor w) ≡ ((step w).0, own_world visitor (step w).1)

  fail_job-own :
      (job reason : Text) (w : World)
      → fail_job env job reason (own_world visitor w)
        ≡ own_world visitor (fail_job env job reason w)
  fail_job-own job reason w =
      ap (λ (db : Db). record w { db = db })
        (mark_failed-own visitor env.fail_link env.now job reason w.db)

  after_publish-own :
      (job : Text) (r : Bool × List OutMsg) (w : World) → Commutes (after_publish env job r) w
  after_publish-own job (true, msgs) w = refl
  after_publish-own job (false, msgs) w =
      ap (λ (after : World). (job_page job, after))
        (fail_job-own job _ (record w { effects = w.effects ++ map publish msgs }))

  after_put-own :
      (ev : JobRequested) (r : Bool × List SetCommand) (w : World) → Commutes (after_put env ev r) w
  after_put-own ev (true, sets) w =
      after_publish-own ev.job_id (publish_job_requested env.marshal env.pairs env.publish_link ev)
        (record w { effects = w.effects ++ map set_key sets })
  after_put-own ev (false, sets) w =
      ap (λ (after : World). (job_page ev.job_id, after))
        (fail_job-own ev.job_id _ (record w { effects = w.effects ++ map set_key sets }))

  hand_off-own :
      (api_key : Text) (ev : JobRequested) (w : World) → Commutes (hand_off env api_key ev) w
  hand_off-own api_key ev w = elim (Bool-cases (is_empty api_key)) [
    | inl e ↦ rw e (
        after_publish-own ev.job_id
          (publish_job_requested env.marshal env.pairs env.publish_link ev) w)
    | inr e ↦ rw e (after_put-own ev (put env.key_link ev.job_id api_key) w)
  ]

  module _ (cat : Catalog) (d m k : Text) where
    after_create-own :
        (profile : Profile) (info : Bytes) (r : Result Text) (db : Db) (w : World)
        → after_create env cat visitor d m k profile info
            (r, own_rows visitor db)
            (own_world visitor w)
          ≡ (let out = after_create env cat visitor d m k profile info (r, db) w in
              (out.0, own_world visitor out.1))
    after_create-own profile info (err e) db w = refl
    after_create-own profile info (ok job) db w =
        hand_off-own k (requested_event env cat visitor d m k job profile info)
          (record w { db = db; jobs_created = m ∷ w.jobs_created })

    with_info-own :
        (profile : Profile) (info : Option Bytes) (w : World)
        → Commutes (with_info env cat visitor d m k profile info) w
    with_info-own profile none w = refl
    with_info-own profile (some info) w =
        let created = create_job env.create_link env.now env.fresh visitor profile.id d m w.db in
        ap
          (λ (out : Result Text × Db).
            after_create env cat visitor d m k profile info out (own_world visitor w))
          (create_job-own visitor env.create_link env.now env.fresh profile.id d m w.db)
        ∙ after_create-own profile info created.0 created.1 w

    with_sizes-own :
        (profile : Profile) (o : Option SizeError) (w : World)
        → Commutes (with_sizes env cat visitor d m k profile o) w
    with_sizes-own profile (some job_description_too_long) w = refl
    with_sizes-own profile (some career_text_too_long) w = refl
    with_sizes-own profile none w =
        elim (Bool-cases
          (is_empty (trim_space profile.career_text) || has_no_info profile.personal_info)) [
            | inl e ↦ rw e refl
            | inr e ↦ rw e (with_info-own profile _ w)
          ]

    with_profile-own :
        (r : Result Profile) (w : World) → Commutes (with_profile env cat visitor d m k r) w
    with_profile-own (err not_found) w = refl
    with_profile-own (err broken) w = refl
    with_profile-own (ok profile) w =
        with_sizes-own profile (validate_job_sizes d profile.career_text) w

    with_entry-own :
        (o : Option ModelCatalogEntry) (w : World) → Commutes (with_entry env cat visitor d m k o) w
    with_entry-own none w = refl
    with_entry-own (some entry) w = elim (Bool-cases (not (is_fake entry.provider) && is_empty k)) [
      | inl e ↦ rw e refl
      | inr e ↦ rw e (
          ap (λ r. with_profile env cat visitor d m k r (own_world visitor w))
            (get_profile-own visitor env.profile_link w.db)
          ∙ with_profile-own (get_profile env.profile_link visitor w.db) w)
    ]

    create_trimmed-own : (w : World) → Commutes (create_trimmed env cat visitor d m k) w
    create_trimmed-own w = elim (Bool-cases (is_empty d)) [
      | inl e ↦ rw e refl
      | inr e ↦ rw e (with_entry-own (get cat m) w)
    ]

  pub handle_job_create-own :
      (cat : Catalog) (form : Form) (w : World)
      → Commutes (handle_job_create env cat visitor form) w
  unfolding handle_job_create
  handle_job_create-own cat form w =
      create_trimmed-own cat (trim_space form.job_description) (trim_space form.model_key)
        (trim_space form.api_key) w
