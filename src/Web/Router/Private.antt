-- ===== src/Web/Router/Private.antt =====
-- What a request sees of the rows of other visitors.
use corrupt_cv.Common.{
  ℕ, ◌≡◌, ◌⊎◌, inl, inr, refl, ap, ◌∙◌, ◌||◌, Option, none, some, Text, is_empty, Bool-cases,
}
use corrupt_cv.Common.Int.{pos}
use corrupt_cv.Strings.{trim_space}
use corrupt_cv.Store.Rows.{Profile, Job, Db}
use corrupt_cv.Store.Query.{
  refused, Link, Result, ok, err, not_found, broken, get_profile, list_jobs, upsert_profile,
}
use corrupt_cv.Store.Own.{own_rows, get_profile-own, get_job-own, list_jobs-own, upsert_profile-own}
use corrupt_cv.Catalog.Load.{Catalog}
use corrupt_cv.Web.Response.{Response}
use corrupt_cv.Web.Limits.{limit_request_body}
use corrupt_cv.Web.Status.{StatusUpdate}
use corrupt_cv.Web.JobAccess.{
  Ids, get_at, Answer, Fetched, Downloads, visitor_job, handle_job_page, handle_job_api,
  handle_job_download,
}
use corrupt_cv.Web.JobCreate.Own.{own_world, handle_job_create-own}
use corrupt_cv.Web.ProfileForm.{
  save_document, Info, ProfileFields, info_of, answer_saved, save_encoded, profile_to_form,
  with_jobs, handle_index, handle_profile_save,
}
use corrupt_cv.Web.Router.{
  ids_of, Call, index, save_profile, submit_job, job_page, job_events, job_download, job_api,
  model_search, Request, Outside, Server, Site, Body, response, answer, home_or_error, stream_of,
  saving, creating, limited, handle, visitor_of, replied, serve,
}

-- The site without the rows of others.
abbrev pub own_site : Text → Site → Site
own_site visitor site = record site { world = own_world visitor site.world }

module _ (visitor : Text) (db : Db) where
  get_at-own :
      (link : Link) (o : Option Text)
      → get_at link visitor o (own_rows visitor db) ≡ get_at link visitor o db
  get_at-own link none = refl
  get_at-own link (some id) = get_job-own visitor link id db

  visitor_job-own :
      (ids : Ids) (link : Link) (id : Text)
      → visitor_job ids link visitor id (own_rows visitor db) ≡ visitor_job ids link visitor id db
  unfolding visitor_job
  visitor_job-own ids link id = rw (get_at-own link (ids.column id)) refl

  handle_job_page-own :
      (ids : Ids) (encode : StatusUpdate → Option Text) (link : Link) (id : Text)
      → handle_job_page ids encode link visitor id (own_rows visitor db)
        ≡ handle_job_page ids encode link visitor id db
  unfolding handle_job_page
  handle_job_page-own ids encode link id = rw (visitor_job-own ids link id, handle_job_page) refl

  handle_job_api-own :
      (ids : Ids) (link : Link) (id : Text)
      → handle_job_api ids link visitor id (own_rows visitor db)
        ≡ handle_job_api ids link visitor id db
  unfolding handle_job_api
  handle_job_api-own ids link id = rw (visitor_job-own ids link id, handle_job_api) refl

  handle_job_download-own :
      (ids : Ids) (objects : Text → Fetched) (copied : ℕ) (link : Link) (id : Text) (d : Downloads)
      → handle_job_download ids objects copied link visitor id (own_rows visitor db) d
        ≡ handle_job_download ids objects copied link visitor id db d
  unfolding handle_job_download
  handle_job_download-own ids objects copied link id d =
      rw (visitor_job-own ids link id, handle_job_download) refl

  handle_index-own :
      (decode : Text → Option Info) (cat : Catalog) (error notice : Text)
      (profile_link jobs_link : Link)
      → handle_index decode cat error notice profile_link jobs_link visitor (own_rows visitor db)
        ≡ handle_index decode cat error notice profile_link jobs_link visitor db
  unfolding handle_index
  handle_index-own decode cat error notice profile_link jobs_link =
      rw (get_profile-own visitor profile_link db, handle_index)
        (go (get_profile profile_link visitor db))
    where
      jobs :
          list_jobs jobs_link visitor (pos 20) (own_rows visitor db)
          ≡ list_jobs jobs_link visitor (pos 20) db
      jobs = list_jobs-own visitor jobs_link (pos 20) db

      go :
          (g : Result Profile)
          → elim g [
            | ok p ↦
                with_jobs cat error notice
                  (some (profile_to_form decode p))
                  (list_jobs jobs_link visitor (pos 20) (own_rows visitor db))
            | err not_found ↦
                with_jobs cat error notice none
                  (list_jobs jobs_link visitor (pos 20) (own_rows visitor db))
            | err broken ↦ none
          ]
            ≡ elim g [
              | ok p ↦
                  with_jobs cat error notice
                    (some (profile_to_form decode p))
                    (list_jobs jobs_link visitor (pos 20) db)
              | err not_found ↦
                  with_jobs cat error notice none (list_jobs jobs_link visitor (pos 20) db)
              | err broken ↦ none
            ]
      go (ok p) = ap (with_jobs cat error notice _) jobs
      go (err not_found) = ap (with_jobs cat error notice none) jobs
      go (err broken) = refl

  module _ (encode : Info → Option Text) (jsonb : Text → Option Text) (link : Link) (now : ℕ)
      (fresh : Text) (saved : ℕ) where
    -- The answer and the count, and the visitor's own rows.
    abbrev Keeps : (Db → Response × Db × ℕ) → Type 0
    Keeps save =
        save (own_rows visitor db) ≡ (let (r, after, n) = save db in (r, own_rows visitor after, n))

    answer_saved-own :
        (r : Result (Unit {0})) (after : Db)
        → answer_saved encode jsonb link now fresh visitor (r, own_rows visitor after) saved ≡ (
            let (answered, rows, n) =
              answer_saved encode jsonb link now fresh visitor (r, after) saved in
            (answered, own_rows visitor rows, n))
    answer_saved-own (ok u) after = refl
    answer_saved-own (err e) after = refl

    save_encoded-own :
        (career : Text) (json : Option Text)
        → Keeps (λ db. save_encoded encode jsonb link now fresh visitor career json db saved)
    save_encoded-own career none = refl
    save_encoded-own career (some json) = document (jsonb json)
      where
        upserted :
            (l : Link) (t : Text)
            → Keeps (λ db.
              answer_saved encode jsonb link now fresh visitor
                (upsert_profile l now fresh visitor career t db)
                saved)
        upserted l t =
            ap (λ out. answer_saved encode jsonb link now fresh visitor out saved)
              (upsert_profile-own visitor l now fresh career t db)
            ∙ answer_saved-own _ (upsert_profile l now fresh visitor career t db).1

        document :
            (o : Option Text)
            → Keeps (λ db. save_document encode jsonb link now fresh visitor career json o db saved)
        document none = upserted refused json
        document (some t) = upserted link t

    handle_profile_save-own :
        (f : ProfileFields)
        → Keeps (λ db. handle_profile_save encode jsonb link now fresh visitor f db saved)
    unfolding handle_profile_save
    handle_profile_save-own f = elim (Bool-cases (is_empty (trim_space f.career_text))) [
      | inl e ↦ rw e refl
      | inr e ↦
          rw e (elim (Bool-cases (is_empty (trim_space f.name) || is_empty (trim_space f.email))) [
            | inl e ↦ rw e refl
            | inr e ↦ rw e (save_encoded-own (trim_space f.career_text) (encode (info_of f)))
          ])
    ]

module _ (server : Server) (out : Outside) (visitor : Text) (site : Site) where
  -- A handler answers the same, and leaves the visitor's own rows of what it would leave.
  abbrev Same : (Site → Body × Site) → Type 0
  Same handler =
      handler (own_site visitor site) ≡ ((handler site).0, own_site visitor (handler site).1)

  limited-Same :
      (refusal : Option Response) (handler : Site → Body × Site)
      → Same handler
      → Same (λ s. limited server out refusal (handler s) s)
  limited-Same none handler same = same
  limited-Same (some refusal) handler same = refl

  stream_of-Same : (found : Answer ⊎ Job) → Same (λ s. stream_of server out s found)
  stream_of-Same (inl refusal) = refl
  stream_of-Same (inr j) = refl

  saving-Same : (fields : ProfileFields) → Same (saving server out visitor fields)
  saving-Same fields =
      ap
        (λ saved. (
          response saved.0,
          record site { world = record site.world { db = saved.1 }; profiles_saved = saved.2 },
        ))
        (handle_profile_save-own visitor site.world.db server.encode_info server.codec.jsonb
          out.save_link out.create.now out.create.fresh site.profiles_saved fields)

  handle-Same : (call : Call) → Same (handle server out visitor call)
  handle-Same (index error notice) =
      ap (λ i. (home_or_error i, own_site visitor site))
        (handle_index-own visitor site.world.db server.decode_info server.catalog error notice
          out.create.profile_link out.jobs_link)
  handle-Same (save_profile error fields) =
      limited-Same (limit_request_body error) (saving server out visitor fields)
        (saving-Same fields)
  handle-Same (submit_job error form) =
      limited-Same (limit_request_body error) (creating server out visitor form) (
        ap (λ created. (response created.0, record site { world = created.1 }))
          (handle_job_create-own out.create visitor server.catalog form site.world))
  handle-Same (job_page id) =
      ap (λ a. (answer a, own_site visitor site))
        (handle_job_page-own visitor site.world.db (ids_of server) server.encode_status out.get_link
          id)
  handle-Same (job_events id) =
      ap (stream_of server out (own_site visitor site))
        (visitor_job-own visitor site.world.db (ids_of server) out.get_link id)
      ∙ stream_of-Same (visitor_job (ids_of server) out.get_link visitor id site.world.db)
  handle-Same (job_download id) =
      ap (λ sent. (answer sent.0, own_site visitor (record site { downloads = sent.1 })))
        (handle_job_download-own visitor site.world.db (ids_of server) out.objects out.copied
          out.get_link id site.downloads)
  handle-Same (job_api id) =
      ap (λ a. (answer a, own_site visitor site))
        (handle_job_api-own visitor site.world.db (ids_of server) out.get_link id)
  handle-Same (model_search q) = refl

-- Whatever a visitor requests, on whichever route, and whatever fails on the way: the reply is the
-- one that the visitor would be given if the tables held no row of anybody else, and so are the counters, Valkey and
-- the stream, and the visitor's own rows afterwards.
pub serve-own :
    (server : Server) (out : Outside) (req : Request) (site : Site)
    → let visitor = visitor_of server out req in
      let (reply, after) = serve server out req site in
      serve server out req (own_site visitor site) ≡ (reply, own_site visitor after)
unfolding serve
serve-own server out req site =
    let visitor = visitor_of server out req in
    ap (λ (handled : Body × Site). (replied server out req handled.0, handled.1))
      (handle-Same server out visitor site req.call)
