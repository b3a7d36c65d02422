-- ===== src/Examples/Data.antt =====
-- A codec, a job, messages and a runner.
use corrupt_cv.Common.{
  [], ◌∷◌, Option, none, some, Text, Bytes, codes, ℕ, ◌+◌, ◌&&◌, ◌==◌, leb, map, if◌then◌else◌,
}
use corrupt_cv.Events.{JobStage, processing, rendering, JobFailed, Codec}
use corrupt_cv.Store.Rows.{Status, Job, Profile, Db}
use corrupt_cv.Jobs.Runner.{Msg, Runner}

-- A failure whose payload begins with 1 is one of the processing stage.
abbrev pub stage_of : ℕ → JobStage
stage_of n = if n == 1 then processing else rendering

abbrev pub decode_failed : Bytes → Option JobFailed
decode_failed [] = none
decode_failed (b ∷ bs) =
    some (record { job_id = codes "j"; stage = stage_of b; error = bs; occurred_at = some 40 })

-- An id is read in either case, and no id in an empty text.
abbrev pub read_uuid : Text → Option Text
read_uuid [] = none
read_uuid (c ∷ cs) = some (map (λ u. if leb 65 u && leb u 90 then u + 32 else u) (c ∷ cs))

abbrev pub codec : Codec
codec = record {
  structured = λ b. some (record { job_id = codes "j"; cv = b; occurred_at = none });
  cv_json = λ b. some b;
  rendered = λ b. some (record { job_id = codes "j"; pdf_object_key = b; occurred_at = some 50 });
  failed = decode_failed;
  uuid = read_uuid;
  jsonb = λ t. some t;
}

abbrev pub profile : Profile
profile = record {
  id = codes "p";
  visitor_id = codes "v";
  career_text = codes "ten years of Go";
  personal_info = some (codes "{}");
  created_at = 1;
  updated_at = 1;
}

abbrev pub job_at : Status → Option Text → Option Text → Option Text → Job
job_at status error key cv = record {
  id = codes "j";
  visitor_id = codes "v";
  profile_id = codes "p";
  job_description = codes "Go";
  model_key = codes "m";
  status = status;
  error = error;
  pdf_object_key = key;
  cv = cv;
  created_at = 2;
  updated_at = 3;
}

abbrev pub new_job : Job
new_job = job_at Status.pending none none none

abbrev pub structured_job : Job
structured_job = job_at Status.rendering none none (some (codes "{}"))

abbrev pub done_job : Job
done_job = job_at Status.completed none (some (codes "j.pdf")) (some (codes "{}"))

abbrev pub db_with : Job → Db
db_with j = record { profiles = profile ∷ []; jobs = j ∷ [] }

abbrev pub runner_with : Job → Runner
runner_with j = record { db = db_with j; jobs_total = []; jobs_swept = 0; jobs_poisoned = [] }

abbrev pub structured_msg : Msg
structured_msg = record { subject = codes "cv.j.structured"; payload = codes "{}" }

abbrev pub rendered_msg : Msg
rendered_msg = record { subject = codes "cv.j.rendered"; payload = codes "j.pdf" }

-- A failure of the processing stage.
abbrev pub failed_msg : Msg
failed_msg = record { subject = codes "cv.j.failed"; payload = 1 ∷ codes "no quota" }
