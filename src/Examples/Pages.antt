-- ===== src/Examples/Pages.antt =====
-- Downloads, the profile form and readiness.
use corrupt_cv.Ops.{Dependencies, readyz, checks, verdict, readyz-verdict}
use corrupt_cv.Web.ProfileForm.{WebLink, link_line, parse_links}
use corrupt_cv.Web.ProfileForm.Links.{parse_links-join}
use corrupt_cv.Common.{
  ◌==◌, not, select, Option, ◌≡◌, refl, [], ◌∷◌, some, arith, Text, codes, text_eq, Bool, true,
  false, not, map, find,
}
use corrupt_cv.Strings.{join, trim_right, is_space}
use corrupt_cv.Store.Query.{up, get_job}
use corrupt_cv.Web.JobAccess.{
  Ids, Object, Fetched, found, Downloads, visitor_job, handle_job_download,
}
use corrupt_cv.Web.JobAccess.Owner.{IsOwnPdf, handle_job_download-IsOwnPdf}
use corrupt_cv.Web.ProfileForm.{ProfileFields}
use corrupt_cv.Examples.Data.{codec, done_job, db_with}

abbrev home : WebLink
home = record { label = codes "Home page"; url = codes "a.b" }

parse_links-join_example : parse_links (join 10 (map link_line (home ∷ []))) ≡ home ∷ []
unfolding is_space trim_right
parse_links-join_example = parse_links-join (home ∷ []) (
  record {
    label = (refl, refl);
    one_line = omega arith;
    url = ground arith;
    solid = (refl, (refl, (refl, tt)));
  },
  tt,
)

abbrev no_valkey : Dependencies
no_valkey = record {
  provisioned = true;
  nats_connected = true;
  postgres_ping = true;
  valkey_ping = false;
  object_put = false;
  object_get = true;
  object_close = true;
}

readyz-verdict_example :
    readyz no_valkey ≡ verdict (find (λ (c : Bool × Text). not c.0) (checks no_valkey))
readyz-verdict_example = readyz-verdict no_valkey

abbrev stored_pdf : Object
stored_pdf = record { content_length = some 3; body = codes "PDF" }

abbrev objects : Text → Fetched
objects key = found stored_pdf

abbrev none_yet : Downloads
none_yet = record { count = 0; sizes = [] }

-- An id of the request in another spelling than the table's.
abbrev ids : Ids
ids = record { parse = λ t. true; column = codec.uuid }

handle_job_download-IsOwnPdf_example :
    IsOwnPdf ids objects 2
      (codes "v")
      (codes "J")
      (db_with done_job)
      (codes "cv-j.pdf")
      (codes "PD")
unfolding handle_job_download visitor_job get_job text_eq
handle_job_download-IsOwnPdf_example =
    handle_job_download-IsOwnPdf ids objects 2 up (codes "v") (codes "J") (db_with done_job)
      none_yet (record { count = 1; sizes = 2 ∷ [] }) (codes "cv-j.pdf") (some 3) (codes "PD") refl

abbrev form : ProfileFields
form = record {
  career_text = codes " Go ";
  name = codes "Ann";
  email = codes "a@b.c";
  phone = [];
  city = codes "Bern";
  country = [];
  links = codes "Home https://a.b";
}

-- The column forgets blanks.
abbrev respaced : Text → Option Text
respaced t = some (select (λ c. not (c == 32)) t)
