-- ===== src/Web/JobAccess.antt =====
-- `visitorJob` of web.go and the handlers of handlers.go behind it. `Ids` is what becomes of a
-- text as an id, `encode` the JSON encoding of the status, and `objects` what the object
-- storage answers for a key. `copied` is how many bytes the client takes before it is gone.
pub mod Owner
use corrupt_cv.Common.{
  ℕ, ◌+◌, ◌≡◌, ◌⊎◌, inl, inr, refl, Bool, true, false, ◌&&◌, List, [], ◌∷◌, ◌++◌, Option, none,
  some, arith, Text, Bytes, codes, text_eq, text_eq_iff, find, take, length, if◌then◌else◌,
  Option-cases, Bool-cases, All, All-find,
}
use corrupt_cv.Store.Rows.{Status, completed, Job, Db}
use corrupt_cv.Store.Query.{
  Link, up, refused, lost, Result, ok, err, not_found, broken, get_job, is_job_of, or_not_found,
}
use corrupt_cv.Web.Status.{StatusUpdate, status_from_job}

pub record Object : Type 0 where
  pub content_length : Option ℕ
  pub body : Bytes

-- The results of `Get` of s3.go.
pub data Fetched : Type 0 where
  found : Object → Fetched
  missing unreachable : Fetched

pub data Answer : Type 0 where
  plain : (code : ℕ) → Text → Answer
  page : Job → (initial : Text) → Answer
  state : (id : Text) → Status → (error pdf_object_key : Option Text) → Answer
  pdf : (filename : Text) → (content_length : Option ℕ) → (sent : Bytes) → Answer

-- cvgen.downloads and the sizes of the downloads.
pub record Downloads : Type 0 where
  pub count : ℕ
  pub sizes : List ℕ

abbrev pub loaded : Result Job → Answer ⊎ Job
loaded (ok j) = inr j
loaded (err not_found) = inl (plain 404 (codes "job not found"))
loaded (err broken) = inl (plain 500 (codes "internal error"))

-- `uuid.Parse` returns no error; and how Postgres reads the text as a uuid, which is `uuid` of
-- the codec.
pub record Ids : Type 0 where
  pub parse : Text → Bool
  pub column : Text → Option Text

-- The query on jobs.id fails if Postgres reads no uuid in the parameter.
abbrev pub get_at : Link → Text → Option Text → Db → Result Job
get_at link visitor none db = err broken
get_at link visitor (some id) db = get_job link id visitor db

-- `visitorJob`: the answer that it writes, or the job.
unfoldable pub visitor_job : Ids → Link → (visitor id : Text) → Db → Answer ⊎ Job
unfolding get_job
visitor_job ids link visitor id db =
    if ids.parse id
    then loaded (get_at link visitor (ids.column id) db)
    else inl (plain 404 (codes "job not found"))

-- `handleJobPage`
unfoldable pub handle_job_page :
    Ids → (StatusUpdate → Option Text) → Link → (visitor id : Text) → Db → Answer
unfolding visitor_job status_from_job
handle_job_page ids encode link visitor id db = elim (visitor_job ids link visitor id db) [
  | inl answer ↦ answer
  | inr j ↦ elim (encode (status_from_job j)) [
    | none ↦ plain 500 (codes "internal error")
    | some initial ↦ page j initial
  ]
]

-- `handleJobAPI`
unfoldable pub handle_job_api : Ids → Link → (visitor id : Text) → Db → Answer
unfolding visitor_job
handle_job_api ids link visitor id db = elim (visitor_job ids link visitor id db) [
  | inl answer ↦ answer
  | inr j ↦ state j.id j.status j.error j.pdf_object_key
]

abbrev pub pdf_name : Job → Text
pdf_name j = codes "cv-" ++ (j.id ++ codes ".pdf")

abbrev pub send_pdf : Job → ℕ → Fetched → Downloads → Answer × Downloads
send_pdf j copied missing d = (plain 404 (codes "PDF not available"), d)
send_pdf j copied unreachable d = (plain 500 (codes "internal error"), d)
send_pdf j copied (found object) d =
    let sent = take copied object.body in
    (
      pdf (pdf_name j) object.content_length sent,
      record { count = d.count + 1; sizes = length sent ∷ d.sizes },
    )

abbrev pub download :
    (Text → Fetched) → ℕ → Job → Status → Option Text → Downloads → Answer × Downloads
download objects copied j completed (some key) d = send_pdf j copied (objects key) d
download objects copied j _ _ d = (plain 404 (codes "PDF not available"), d)

-- `handleJobDownload`
unfoldable pub handle_job_download :
    Ids → (Text → Fetched) → ℕ → Link → (visitor id : Text) → Db → Downloads → Answer × Downloads
unfolding visitor_job
handle_job_download ids objects copied link visitor id db d =
    elim (visitor_job ids link visitor id db) [
      | inl answer ↦ (answer, d)
      | inr j ↦ download objects copied j j.status j.pdf_object_key d
    ]
