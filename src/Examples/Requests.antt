-- ===== src/Examples/Requests.antt =====
-- A request through the router.
use corrupt_cv.Common.{◌≡◌, true, [], none, some, arith, codes}
use corrupt_cv.Store.Query.{up, lost}
use corrupt_cv.Web.JobAccess.{missing}
use corrupt_cv.Web.Router.{Server, Outside, Site, Request, submit_job, visitor_of, serve}
use corrupt_cv.Web.Router.Others.{of_others, serve-others}
use corrupt_cv.Web.Router.Private.{own_site, serve-own}
use corrupt_cv.Examples.Data.{codec, done_job, db_with}
use corrupt_cv.Examples.Submissions.{cat, env, form, world}
use corrupt_cv.Examples.Texts.{crypto}

abbrev pub server : Server
server = record {
  crypto = crypto;
  session_secret = codes "s";
  secure_cookies = true;
  catalog = cat;
  codec = codec;
  lower = λ c. c;
  encode_info = λ info. some (codes "{}");
  decode_info = λ t. none;
  encode_status = λ u. some [];
}

abbrev pub outside : Outside
outside = record {
  fresh_visitor = codes "w";
  get_link = up;
  jobs_link = up;
  save_link = lost;
  create = record env { fresh = codes "k" };
  objects = λ key. missing;
  copied = 0;
  first_write = true;
  subscribed = true;
  signals = [];
}

abbrev site : Site
site = record {
  world = record world { db = db_with done_job };
  profiles_saved = 0;
  downloads = record { count = 0; sizes = [] };
  sse_streams = 0;
}

abbrev pub post : Request
post = record { call = submit_job none form; path = codes "/jobs"; cookie = none }

serve-others_example :
    of_others (visitor_of server outside post) (serve server outside post site).1.world.db
    ≡ of_others (visitor_of server outside post) site.world.db
serve-others_example = serve-others server outside post site (ground arith, tt)

serve-own_example : serve server outside post (own_site (visitor_of server outside post) site) ≡ (
  (serve server outside post site).0,
  own_site (visitor_of server outside post) (serve server outside post site).1,
)
serve-own_example = serve-own server outside post site
