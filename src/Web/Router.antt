-- ===== src/Web/Router.antt =====
-- `Router` of web.go with its middleware (requestLogger, headers.go, the session, the limit of a
-- body) and `handleModelSearch`. gin resolves a path to one of the routes; files under /static,
-- recovery from a panic and spans are left out, and the templates are not read.
pub mod Others
pub mod Private
use corrupt_cv.Common.{
  ◌⊎◌, ℕ, ◌+◌, Bool, List, [], ◌∷◌, ◌++◌, Option, none, some, Text, codes, text_eq, take, length,
  inl, inr, if◌then◌else◌,
}
use corrupt_cv.Events.{Codec}
use corrupt_cv.Store.Rows.{Job}
use corrupt_cv.Store.Query.{Link}
use corrupt_cv.Session.{Crypto, Cookie, middleware}
use corrupt_cv.Catalog.Load.{Catalog, ModelCatalogEntry}
use corrupt_cv.Catalog.Search.{search}
use corrupt_cv.Web.Response.{Response, text, see_other, internal_error}
use corrupt_cv.Web.Limits.{FormError, limit_request_body}
use corrupt_cv.Web.Status.{StatusUpdate}
use corrupt_cv.Web.JobAccess.{
  Ids, Fetched, Answer, plain, page, state, pdf, Downloads, visitor_job, handle_job_page,
  handle_job_api, handle_job_download,
}
use corrupt_cv.Web.JobCreate
use corrupt_cv.Web.JobCreate.{handle_job_create}
use corrupt_cv.Web.ProfileForm.{Info, ProfileFields, Index, handle_index, handle_profile_save}
use corrupt_cv.Web.Sse.{Signal, Served, handle_job_events}

pub data Method : Type 0 where
  get_method post_method : Method

-- A request that gin has resolved: its route, with the parameter, the query or the form.
pub data Call : Type 0 where
  index : (error notice : Text) → Call
  save_profile : Option FormError → ProfileFields → Call
  submit_job : Option FormError → JobCreate.Form → Call
  job_page job_events job_download job_api : (id : Text) → Call
  model_search : (q : Text) → Call

-- The routes.
unfoldable pub route : Call → Method × Text
route (index error notice) = (get_method, codes "/")
route (save_profile error fields) = (post_method, codes "/profile")
route (submit_job error form) = (post_method, codes "/jobs")
route (job_page id) = (get_method, codes "/jobs/:id")
route (job_events id) = (get_method, codes "/jobs/:id/events")
route (job_download id) = (get_method, codes "/jobs/:id/download")
route (job_api id) = (get_method, codes "/api/jobs/:id")
route (model_search q) = (get_method, codes "/models/search")

pub record Request : Type 0 where
  pub call : Call
  pub path : Text
  -- The value of the visitor's cookie, unescaped.
  pub cookie : Option Text

-- What a request meets outside the gateway; `copied` and `signals` are of its own client.
pub record Outside : Type 0 where
  pub fresh_visitor : Text
  pub get_link : Link
  pub jobs_link : Link
  pub save_link : Link
  pub create : JobCreate.Env
  pub objects : Text → Fetched
  pub copied : ℕ
  pub first_write : Bool
  pub subscribed : Bool
  pub signals : List Signal

-- What does not change while the server runs.
pub record Server : Type 0 where
  pub crypto : Crypto
  pub session_secret : Text
  pub secure_cookies : Bool
  pub catalog : Catalog
  pub codec : Codec
  pub lower : ℕ → ℕ
  pub encode_info : Info → Option Text
  pub decode_info : Text → Option Info
  pub encode_status : StatusUpdate → Option Text

-- What becomes of a text that a route takes as an id.
abbrev pub ids_of : Server → Ids
ids_of server = record { parse = server.crypto.is_uuid; column = server.codec.uuid }

-- The tables, Valkey, the stream and the instruments of `webMetrics`.
pub record Site : Type 0 where
  pub world : JobCreate.World
  pub profiles_saved : ℕ
  pub downloads : Downloads
  pub sse_streams : ℕ

pub data Body : Type 0 where
  response : Response → Body
  home : Index → Body
  answer : Answer → Body
  events : Served → Body
  models : List ModelCatalogEntry → Body

-- `securityHeaders`
unfoldable pub security_headers : Bool → List (Text × Text)
security_headers secure_cookies =
    (codes "X-Content-Type-Options", codes "nosniff")
    ∷ (codes "Referrer-Policy", codes "strict-origin-when-cross-origin")
    ∷ (codes "Content-Security-Policy", codes "default-src 'self'")
    ∷ (if secure_cookies
        then (codes "Strict-Transport-Security", codes "max-age=31536000; includeSubDomains") ∷ []
        else [])

abbrev pub status_of : Body → ℕ
status_of (response (text status msg)) = status
status_of (response (see_other location)) = 303
status_of (answer (plain code msg)) = code
status_of _ = 200

pub record LogLine : Type 0 where
  pub method : Method
  pub path : Text
  pub status : ℕ

-- `requestLogger`; its test is `strings.HasPrefix`.
unfoldable pub request_logger : Method → (path : Text) → (status : ℕ) → Option LogLine
request_logger method path status =
    if text_eq (take (length (codes "/static/")) path) (codes "/static/")
    then none
    else some (record { method = method; path = path; status = status })

pub record Reply : Type 0 where
  pub headers : List (Text × Text)
  pub cookie : Option Cookie
  pub body : Body
  pub logged : Option LogLine

-- `handleModelSearch`
unfoldable pub handle_model_search : (ℕ → ℕ) → Catalog → Text → List ModelCatalogEntry
unfolding search
handle_model_search lower catalog q = search lower catalog q

abbrev pub home_or_error : Option Index → Body
home_or_error none = response internal_error
home_or_error (some i) = home i

module _ (server : Server) (out : Outside) where
  abbrev pub ids : Ids
  ids = (ids_of server)

  abbrev pub stream_of : Site → Answer ⊎ Job → Body × Site
  stream_of site (inl refusal) = (answer refusal, site)
  stream_of site (inr j) = (
    events (handle_job_events server.codec j out.first_write out.subscribed out.signals),
    record site { sse_streams = site.sse_streams + 1 },
  )

  abbrev pub open_stream : (visitor id : Text) → Site → Body × Site
  open_stream visitor id site =
      stream_of site (visitor_job ids out.get_link visitor id site.world.db)

  abbrev pub saving : Text → ProfileFields → Site → Body × Site
  saving visitor fields site =
      let (answered, db, saved) =
        handle_profile_save server.encode_info server.codec.jsonb out.save_link out.create.now
          out.create.fresh visitor fields site.world.db site.profiles_saved in
      (
        response answered,
        record site { world = record site.world { db = db }; profiles_saved = saved },
      )

  abbrev pub creating : Text → JobCreate.Form → Site → Body × Site
  creating visitor form site =
      let (answered, world) = handle_job_create out.create server.catalog visitor form site.world in
      (response answered, record site { world = world })

  abbrev pub downloading : (visitor id : Text) → Site → Body × Site
  downloading visitor id site =
      let (sent, downloads) =
        handle_job_download ids out.objects out.copied out.get_link visitor id site.world.db
          site.downloads in
      (answer sent, record site { downloads = downloads })

  -- A handler behind `limitRequestBody`.
  abbrev pub limited : Option Response → Body × Site → Site → Body × Site
  limited none handled site = handled
  limited (some refusal) handled site = (response refusal, site)

  -- The handler of each route.
  abbrev pub handle : Text → Call → Site → Body × Site
  handle visitor (index error notice) site = (
    home_or_error (
        handle_index server.decode_info server.catalog error notice out.create.profile_link
          out.jobs_link visitor site.world.db),
    site,
  )
  handle visitor (save_profile error fields) site =
      limited (limit_request_body error) (saving visitor fields site) site
  handle visitor (submit_job error form) site =
      limited (limit_request_body error) (creating visitor form site) site
  handle visitor (job_page id) site = (
    answer (handle_job_page ids server.encode_status out.get_link visitor id site.world.db),
    site,
  )
  handle visitor (job_events id) site = open_stream visitor id site
  handle visitor (job_download id) site = downloading visitor id site
  handle visitor (job_api id) site =
      (answer (handle_job_api ids out.get_link visitor id site.world.db), site)
  handle visitor (model_search q) site =
      (models (handle_model_search server.lower server.catalog q), site)

  -- The visitor that the session middleware finds in a request, or makes up.
  abbrev pub visitor_of : Request → Text
  visitor_of req =
      (middleware server.crypto server.session_secret server.secure_cookies out.fresh_visitor
        req.cookie).0

  -- The reply around what a handler answers.
  abbrev pub replied : Request → Body → Reply
  unfolding middleware security_headers request_logger route
  replied req body = record {
    headers = security_headers server.secure_cookies;
    cookie =
        (middleware server.crypto server.session_secret server.secure_cookies out.fresh_visitor
          req.cookie).1;
    body = body;
    logged = request_logger (route req.call).0 req.path (status_of body);
  }

  -- `Router`: a request through the middleware to its handler.
  unfoldable pub serve : Request → Site → Reply × Site
  unfolding middleware security_headers request_logger route
  serve req site =
      let (body, after) = handle (visitor_of req) req.call site in (replied req body, after)
