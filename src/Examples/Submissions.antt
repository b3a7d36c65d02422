-- ===== src/Examples/Submissions.antt =====
-- A submission.
use corrupt_cv.Common.{
  inr, ◌++◌, arith, text_eq, ◌≡◌, ◌⊎◌, refl, List, [], ◌∷◌, none, some, Bytes, codes, is_empty,
}
use corrupt_cv.Strings.{is_space, byte_length, trim_space}
use corrupt_cv.Store.Rows.{pending, Profile}
use corrupt_cv.Store.Query.{exec, or_not_found, get_profile, up, lost}
use corrupt_cv.Catalog.Load.{get, lookup, Provider, ModelCatalogEntry, Catalog}
use corrupt_cv.Jobs.Fact.{status_in}
use corrupt_cv.Jetstream.Publish.{requested_msg}
use corrupt_cv.Web.JobCreate.{
  job_page, publish, requested_event, Env, Form, World, handle_job_create,
}
use corrupt_cv.Web.JobCreate.Success.{key_effects, handle_job_create_enqueued}
use corrupt_cv.Web.JobCreate.Checks.{IsAccepted}
use corrupt_cv.Web.JobCreate.Handoff.{Extends, handle_job_create-KeyFirst}
use corrupt_cv.Web.JobCreate.Outcome.{handle_job_create-IsAccepted}
use corrupt_cv.Examples.Data.{codec, profile, structured_msg, rendered_msg, failed_msg}
use corrupt_cv.Store.Rows.{rendering}
use corrupt_cv.Jetstream.Subject.{parse_subject}
use corrupt_cv.Strings.{split}
use corrupt_cv.Jobs.Runner.{Runner, handle_msg}
use corrupt_cv.Store.Query.{mark_rendering}
use corrupt_cv.Jobs.Counting.{Input, delivery, tick, react, react_all}
use corrupt_cv.Web.JobAccess.{Object, found, pdf, handle_job_download}
use corrupt_cv.Pipeline.{submitted_served}

abbrev entry : ModelCatalogEntry
entry = record {
  key = codes "m";
  provider = Provider.openai;
  model_id = codes "gpt";
  display_name = codes "GPT";
  description = none;
}

abbrev pub cat : Catalog
cat = record { entries = entry ∷ []; by_key = (codes "m", entry) ∷ [] }

-- The stream takes the event, and its answer is lost.
abbrev pub env : Env
env = record {
  now = 9;
  fresh = codes "j";
  profile_link = up;
  create_link = up;
  key_link = up;
  publish_link = lost;
  fail_link = up;
  decode_info = λ t. some t;
  marshal = λ ev. some ev.job_description;
  pairs = (codes "traceparent", codes "00") ∷ [];
}

abbrev pub form : Form
form = record { job_description = codes " Go "; model_key = codes "m"; api_key = codes "sk" }

abbrev pub world : World
world = record {
  db = record { profiles = profile ∷ []; jobs = [] };
  effects = [];
  jobs_created = [];
  jobs_rejected = [];
}

handle_job_create-KeyFirst_example :
    Extends
      (codes "j")
      (trim_space (codes "sk"))
      (is_empty (trim_space (codes "sk")))
      []
      (handle_job_create env cat (codes "v") form world).1
handle_job_create-KeyFirst_example = handle_job_create-KeyFirst env cat (codes "v") form world

handle_job_create-IsAccepted_example :
    ((p : Profile) × (info : Bytes) × IsAccepted env cat
        (codes "v")
        (trim_space (codes " Go "))
        (trim_space (codes "m"))
        (trim_space (codes "sk"))
        world.db
        p
        info)
    ⊎ (((handle_job_create env cat (codes "v") form world).1.db ≡ world.db)
        × ((handle_job_create env cat (codes "v") form world).1.effects ≡ [])
        × ((handle_job_create env cat (codes "v") form world).1.jobs_created ≡ []))
handle_job_create-IsAccepted_example = handle_job_create-IsAccepted env cat (codes "v") form world

abbrev all_up : Env
all_up = record env { publish_link = up }

accepted :
    IsAccepted all_up cat
      (codes "v")
      (codes "Go")
      (codes "m")
      (codes "sk")
      world.db
      profile
      (codes "{}")
unfolding get lookup get_profile exec or_not_found trim_space is_space text_eq byte_length
accepted = record {
  described = ground arith;
  entry = entry;
  listed = refl;
  paid = inr (ground arith);
  stored = refl;
  sizes = (omega arith, omega arith);
  career = ground arith;
  details = codes "{}";
  given = refl;
  details_ne = ground arith;
  decoded = refl;
}

handle_job_create_enqueued_example :
    ((handle_job_create all_up cat (codes "v") form world).0 ≡ job_page (codes "j"))
    × (status_in (codes "j") (handle_job_create all_up cat (codes "v") form world).1.db.jobs
        ≡ some pending)
    × ((handle_job_create all_up cat (codes "v") form world).1.jobs_created ≡ codes "m" ∷ [])
    × ((handle_job_create all_up cat (codes "v") form world).1.effects
        ≡ key_effects (codes "j") (codes "sk")
          ++ publish (
              requested_msg all_up.pairs
                (requested_event all_up cat
                  (codes "v")
                  (codes "Go")
                  (codes "m")
                  (codes "sk")
                  (codes "j")
                  profile
                  (codes "{}"))
                (codes "Go"))
            ∷ [])
unfolding trim_space is_space
handle_job_create_enqueued_example =
    handle_job_create_enqueued all_up cat (codes "v") form world profile (codes "{}") (codes "Go")
      (record { create = refl; key = refl; publishing = refl }) accepted refl

-- The runner that starts from the tables of the submission, and the object that it names.
abbrev runner : Runner
runner = record {
  db = (handle_job_create all_up cat (codes "v") form world).1.db;
  jobs_total = [];
  jobs_swept = 0;
  jobs_poisoned = [];
}

abbrev stored_pdf : Object
stored_pdf = record { content_length = some 3; body = codes "PDF" }

abbrev first : List Input
first = delivery up 10 structured_msg ∷ []

abbrev more : List Input
more = delivery up 30 failed_msg ∷ tick up 900000000 ∷ []

first-rendering : status_in (codes "j") (react_all codec first runner).db.jobs ≡ some rendering
unfolding text_eq react_all handle_msg parse_subject mark_rendering handle_job_create byte_length
first-rendering = refl

submitted_served_example :
    handle_job_download
      record { parse = text_eq (codes "j"); column = codec.uuid }
      (λ key. found stored_pdf)
      2
      up
      (codes "v")
      (codes "j")
      (react_all codec more
        (react codec (delivery up 20 rendered_msg) (react_all codec first runner))).db
      (record { count = 0; sizes = [] })
    ≡ (pdf (codes "cv-j.pdf") (some 3) (codes "PD"), record { count = 1; sizes = 2 ∷ [] })
unfolding text_eq trim_space is_space parse_subject split
submitted_served_example =
    submitted_served all_up cat (codes "v") form world profile (codes "{}") (codes "Go") codec
      runner first more 20 rendered_msg
      (record { job_id = codes "j"; pdf_object_key = codes "j.pdf"; occurred_at = some 50 })
      rendering (record { parse = text_eq (codes "j"); column = codec.uuid })
      (λ key. found stored_pdf) 2 stored_pdf (record { count = 0; sizes = [] })
      (record { create = refl; key = refl; publishing = refl }) accepted refl refl first-rendering
      refl refl refl refl refl refl refl
