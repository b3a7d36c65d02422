-- ===== src/Web/Router/Others.antt =====
-- What a request does to the rows of other visitors.
use corrupt_cv.Common.{
  ℕ, ◌≡◌, ◌≢◌, ◌⊎◌, inl, inr, refl, ap, ◌∙◌, Bool, true, false, not, ◌||◌, List, [], ◌∷◌, Option,
  none, some, arith, Text, Bytes, All, select, is_empty, text_eq, text_eq_iff, text_eq_refl,
  Bool-cases,
}
use corrupt_cv.Strings.{trim_space}
use corrupt_cv.Events.{JobRequested}
use corrupt_cv.Store.Rows.{Profile, Job, Db}
use corrupt_cv.Store.Query.{
  Link, up, refused, lost, Result, ok, err, update_where, put_profile, upsert_profile, create_job,
  mark_failed, is_live_job, as_failed,
}
use corrupt_cv.Store.Updates.{exec_keeps}
use corrupt_cv.Jetstream.Publish.{OutMsg, publish_job_requested}
use corrupt_cv.Catalog.Load.{Catalog}
use corrupt_cv.Web.Response.{Response}
use corrupt_cv.Web.ApiKeys.{SetCommand, put}
use corrupt_cv.Web.JobCreate.{
  Env, Form, World, after_publish, after_put, hand_off, requested_event, after_create,
  handle_job_create,
}
use corrupt_cv.Web.JobCreate.Checks.{create_trimmed_rule}
use corrupt_cv.Web.JobAccess.{Answer, visitor_job}
use corrupt_cv.Web.Limits.{limit_request_body}
use corrupt_cv.Web.ProfileForm.{
  save_document, Info, ProfileFields, info_of, answer_saved, save_encoded, handle_profile_save,
}
use corrupt_cv.Web.Router.{
  ids_of, Call, index, save_profile, submit_job, job_page, job_events, job_download, job_api,
  model_search, Request, Outside, Server, Site, Body, limited, saving, creating, stream_of,
  open_stream, handle, visitor_of, serve,
}

abbrev pub is_other : Text → Job → Bool
is_other visitor j = not (text_eq j.visitor_id visitor)

abbrev pub is_other_profile : Text → Profile → Bool
is_other_profile visitor p = not (text_eq p.visitor_id visitor)

-- The rows of all other visitors.
abbrev pub of_others : Text → Db → List Job × List Profile
of_others visitor db =
    (select (is_other visitor) db.jobs, select (is_other_profile visitor) db.profiles)

module _ (visitor : Text) where
  select-put_profile :
      (now : ℕ) (fresh career info : Text) (ps : List Profile)
      → select (is_other_profile visitor) (put_profile now fresh visitor career info ps)
        ≡ select (is_other_profile visitor) ps
  unfolding put_profile
  select-put_profile now fresh career info [] = rw (text_eq_refl visitor) refl
  select-put_profile now fresh career info (p ∷ ps) =
      ground (arith, select-put_profile now fresh career info ps)

  select-update_where :
      (guard : Job → Bool) (change : Job → Job) (js : List Job)
      → ((j : Job) → (change j).visitor_id ≡ j.visitor_id)
      → All (λ (j : Job). (is_other visitor j ≡ false) ⊎ (guard j ≡ false)) js
      → select (is_other visitor) (update_where guard change js) ≡ select (is_other visitor) js
  unfolding update_where
  select-update_where guard change [] keeps _ = refl
  select-update_where guard change (j ∷ js) keeps (here, later) =
      ground (arith, keeps j, here, select-update_where guard change js keeps later)

  upsert_profile-others :
      (link : Link) (now : ℕ) (fresh career info : Text) (db : Db)
      → of_others visitor (upsert_profile link now fresh visitor career info db).1
        ≡ of_others visitor db
  unfolding upsert_profile
  upsert_profile-others link now fresh career info db =
      exec_keeps (λ (after : Db). of_others visitor after ≡ of_others visitor db) link _ db refl
        (ap (λ ps. (select (is_other visitor) db.jobs, ps))
          (select-put_profile now fresh career info db.profiles))

  module _ (encode : Info → Option Text) (jsonb : Text → Option Text) (link : Link) (now : ℕ)
      (fresh : Text) (db : Db) (saved : ℕ) where
    answer_saved-db :
        (r : Result (Unit {0}) × Db)
        → (answer_saved encode jsonb link now fresh visitor r saved).1 ≡ r.1
    answer_saved-db (ok u, after) = refl
    answer_saved-db (err e, after) = refl

    save_encoded-others :
        (career : Text) (json : Option Text)
        → of_others visitor
            (save_encoded encode jsonb link now fresh visitor career json db saved).1
          ≡ of_others visitor db
    save_encoded-others career none = refl
    save_encoded-others career (some json) = document (jsonb json)
      where
        upserted :
            (l : Link) (t : Text)
            → of_others visitor
                (answer_saved encode jsonb link now fresh visitor
                  (upsert_profile l now fresh visitor career t db)
                  saved).1
              ≡ of_others visitor db
        upserted l t =
            ap (of_others visitor)
              (answer_saved-db (upsert_profile l now fresh visitor career t db))
            ∙ upsert_profile-others l now fresh career t db

        document :
            (o : Option Text)
            → of_others visitor
                (save_document encode jsonb link now fresh visitor career json o db saved).1
              ≡ of_others visitor db
        document none = upserted refused json
        document (some t) = upserted link t

    handle_profile_save-others :
        (f : ProfileFields)
        → of_others visitor (handle_profile_save encode jsonb link now fresh visitor f db saved).1
          ≡ of_others visitor db
    unfolding handle_profile_save
    handle_profile_save-others f = elim (Bool-cases (is_empty (trim_space f.career_text))) [
      | inl e ↦ rw e refl
      | inr e ↦
          rw e (elim (Bool-cases (is_empty (trim_space f.name) || is_empty (trim_space f.email))) [
            | inl e ↦ rw e refl
            | inr e ↦ rw e (save_encoded-others (trim_space f.career_text) (encode (info_of f)))
          ])
    ]

  -- No row of another visitor has the id of a job.
  abbrev IsOnlyOwn : Text → List Job → Type 0
  IsOnlyOwn id = All (λ (j : Job). (is_other visitor j ≡ false) ⊎ (is_live_job id j ≡ false))

  fresh-IsOnlyOwn : (id : Text) (js : List Job) → All (λ (j : Job). j.id ≢ id) js → IsOnlyOwn id js
  fresh-IsOnlyOwn id [] _ = tt
  fresh-IsOnlyOwn id (j ∷ js) (apart, later) =
      (inr (ground (arith, text_eq_iff j.id id)), fresh-IsOnlyOwn id js later)

  mark_failed-others :
      (link : Link) (now : ℕ) (id reason : Text) (db : Db)
      → IsOnlyOwn id db.jobs
      → of_others visitor (mark_failed link now id reason db).1 ≡ of_others visitor db
  unfolding mark_failed
  mark_failed-others link now id reason db own =
      exec_keeps (λ (after : Db). of_others visitor after ≡ of_others visitor db) link _ db refl
        (ap (λ js. (js, select (is_other_profile visitor) db.profiles))
          (select-update_where (is_live_job id) (as_failed now reason) db.jobs (λ j. refl) own))

  -- The hand-off of a new job.
  module _ (env : Env) (ev : JobRequested) (db : Db) (own : IsOnlyOwn ev.job_id db.jobs) where
    abbrev Keeps : World → Type 0
    Keeps w = of_others visitor w.db ≡ of_others visitor db

    after_publish-Keeps :
        (r : Bool × List OutMsg) (w : World) → w.db ≡ db → Keeps (after_publish env ev.job_id r w).1
    after_publish-Keeps (true, msgs) w same = ap (of_others visitor) same
    after_publish-Keeps (false, msgs) w same =
        rw same (mark_failed-others env.fail_link env.now ev.job_id _ db own)

    after_put-Keeps :
        (r : Bool × List SetCommand) (w : World) → w.db ≡ db → Keeps (after_put env ev r w).1
    after_put-Keeps (true, sets) w same =
        after_publish-Keeps (publish_job_requested env.marshal env.pairs env.publish_link ev) _ same
    after_put-Keeps (false, sets) w same =
        rw same (mark_failed-others env.fail_link env.now ev.job_id _ db own)

    hand_off-Keeps : (api_key : Text) (w : World) → w.db ≡ db → Keeps (hand_off env api_key ev w).1
    hand_off-Keeps api_key w same = elim (Bool-cases (is_empty api_key)) [
      | inl e ↦ rw e (
          after_publish-Keeps (publish_job_requested env.marshal env.pairs env.publish_link ev) w
            same)
      | inr e ↦ rw e (after_put-Keeps (put env.key_link ev.job_id api_key) w same)
    ]

  module _ (env : Env) (cat : Catalog) (w : World)
      (new : All (λ (j : Job). j.id ≢ env.fresh) w.db.jobs) where
    create_job-others :
        (d m k : Text) (profile : Profile) (info : Bytes) (l : Link)
        → of_others visitor
            (after_create env cat visitor d m k profile info
              (create_job l env.now env.fresh visitor profile.id d m w.db)
              w).1.db
          ≡ of_others visitor w.db
    unfolding create_job
    create_job-others d m k profile info up =
        hand_off-Keeps env (requested_event env cat visitor d m k env.fresh profile info) _
          (inl (ground (arith, text_eq_refl visitor)), fresh-IsOnlyOwn env.fresh w.db.jobs new) k _
          refl
        ∙ rw (text_eq_refl visitor) refl
    create_job-others d m k profile info refused = refl
    create_job-others d m k profile info lost = rw (text_eq_refl visitor) refl

    handle_job_create-others :
        (form : Form)
        → of_others visitor (handle_job_create env cat visitor form w).1.db ≡ of_others visitor w.db
    unfolding handle_job_create
    handle_job_create-others form =
        create_trimmed_rule env cat visitor (trim_space form.job_description)
          (trim_space form.model_key) (trim_space form.api_key) w
          (λ out. of_others visitor out.1.db ≡ of_others visitor w.db) (λ answer counts. refl)
          (λ profile info accepted. create_job-others _ _ _ profile info env.create_link)

module _ (server : Server) (out : Outside) (visitor : Text) (site : Site)
    (new : All (λ (j : Job). j.id ≢ out.create.fresh) site.world.db.jobs) where
  -- The rows of the others after a handler.
  abbrev Leaves : Body × Site → Type 0
  Leaves (body, after) = of_others visitor after.world.db ≡ of_others visitor site.world.db

  limited-Leaves :
      (refusal : Option Response) (handled : Body × Site)
      → Leaves handled
      → Leaves (limited server out refusal handled site)
  limited-Leaves none handled h = h
  limited-Leaves (some refusal) handled h = refl

  open_stream-Leaves : (id : Text) → Leaves (open_stream server out visitor id site)
  open_stream-Leaves id = go (visitor_job (ids_of server) out.get_link visitor id site.world.db)
    where
      go : (found : Answer ⊎ Job) → Leaves (stream_of server out site found)
      go (inl refusal) = refl
      go (inr j) = refl

  handle-Leaves : (call : Call) → Leaves (handle server out visitor call site)
  handle-Leaves (index error notice) = refl
  handle-Leaves (save_profile error fields) =
      limited-Leaves (limit_request_body error) (saving server out visitor fields site) (
        handle_profile_save-others visitor server.encode_info server.codec.jsonb out.save_link
          out.create.now out.create.fresh site.world.db site.profiles_saved fields)
  handle-Leaves (submit_job error form) =
      limited-Leaves (limit_request_body error) (creating server out visitor form site)
        (handle_job_create-others visitor out.create server.catalog site.world new form)
  handle-Leaves (job_page id) = refl
  handle-Leaves (job_events id) = open_stream-Leaves id
  handle-Leaves (job_download id) = refl
  handle-Leaves (job_api id) = refl
  handle-Leaves (model_search q) = refl

-- Whatever a visitor requests, on whichever route, and whatever fails on the way: the jobs and the
-- profiles of all other visitors stay as they were, if the id that the database generates is that of no job.
pub serve-others :
    (server : Server) (out : Outside) (req : Request) (site : Site)
    → All (λ (j : Job). j.id ≢ out.create.fresh) site.world.db.jobs
    → of_others (visitor_of server out req) (serve server out req site).1.world.db
      ≡ of_others (visitor_of server out req) site.world.db
unfolding serve
serve-others server out req site new =
    handle-Leaves server out (visitor_of server out req) site new req.call
