-- ===== src/Pipeline.antt =====
-- From the form to the PDF: handleJobCreate of internal/web/handlers.go, the runner of
-- internal/jobs/jobs.go and handleJobDownload together.
use mathlib.Core.Option
use corrupt_cv.Common.{
  ℕ, ◌+◌, ◌≡◌, refl, ap, ◌∙◌, true, false, List, [], ◌∷◌, ◌++◌, Option, none, some, arith, Text,
  Bytes, codes, find, take, length, text_eq, text_eq_iff, text_eq_refl, inl, inr,
}
use corrupt_cv.Strings.{trim_space}
use corrupt_cv.Events.{Codec, JobRendered}
use corrupt_cv.Catalog.Load.{Catalog}
use corrupt_cv.Store.Rows.{Status, completed, is_live, Profile, Job, Db}
use corrupt_cv.Store.Query.{up, create_job, mark_completed, as_completed, is_live_job}
use corrupt_cv.Store.Write.{run}
use corrupt_cv.Store.Updates.{updated, find-update_where}
use corrupt_cv.Store.Terminal.{has_id, row, run-terminal}
use corrupt_cv.Store.Ownership.{owner_in, owner_in-apply, find-is_job_of}
use corrupt_cv.Jetstream.Subject.{parse_subject, event_rendered}
use corrupt_cv.Jobs.Runner.{Msg, Runner, apply_event, handle_msg}
use corrupt_cv.Jobs.Fact.{status_in}
use corrupt_cv.Jobs.Spec.{finish-db}
use corrupt_cv.Jobs.Counting.{Input, delivery, react, react_all}
use corrupt_cv.Jobs.Writes.{Wrote-react, link_of, time_of}
use corrupt_cv.Web.JobAccess.{Ids, Fetched, found, Object, pdf, Downloads, handle_job_download}
use corrupt_cv.Web.JobAccess.Owner.{find_sound, handle_job_download_served}
use corrupt_cv.Web.JobCreate.{Env, Form, World, requested_event, handle_job_create}
use corrupt_cv.Web.JobCreate.Checks.{IsAccepted}
use corrupt_cv.Web.JobCreate.Success.{IsUp, create_trimmed-IsAccepted, hand_off-up}

-- Whatever the runner is given, a job keeps its visitor, and a finished job its whole row.
owner_in-react :
    (codec : Codec) (id : Text) (i : Input) (r : Runner)
    → owner_in id (react codec i r).db.jobs ≡ owner_in id r.db.jobs
owner_in-react codec id i r = elim (Wrote-react codec i r) [
  | inl same ↦ ap (λ (db : Db). owner_in id db.jobs) same
  | inr (w, wrote, new) ↦
      ap (λ (db : Db). owner_in id db.jobs) wrote
      ∙ owner_in-apply id (link_of i) (time_of i) w r.db (new id)
]

owner_in-react_all :
    (codec : Codec) (id : Text) (is : List Input) (r : Runner)
    → owner_in id (react_all codec is r).db.jobs ≡ owner_in id r.db.jobs
unfolding react_all
owner_in-react_all codec id [] r = refl
owner_in-react_all codec id (i ∷ is) r =
    owner_in-react_all codec id is (react codec i r) ∙ owner_in-react codec id i r

row-react :
    (codec : Codec) (id : Text) (i : Input) (r : Runner) (j : Job)
    → row id r.db ≡ some j
    → is_live j.status ≡ false
    → row id (react codec i r).db ≡ some j
unfolding run
row-react codec id i r j stored over = elim (Wrote-react codec i r) [
  | inl same ↦ ap (row id) same ∙ stored
  | inr (w, wrote, new) ↦
      ap (row id) wrote
      ∙ run-terminal ((link_of i, time_of i, w) ∷ []) r.db id j stored over (new id, tt)
]

row-react_all :
    (codec : Codec) (id : Text) (is : List Input) (r : Runner) (j : Job)
    → row id r.db ≡ some j
    → is_live j.status ≡ false
    → row id (react_all codec is r).db ≡ some j
unfolding react_all
row-react_all codec id [] r j stored over = stored
row-react_all codec id (i ∷ is) r j stored over =
    row-react_all codec id is (react codec i r) j (row-react codec id i r j stored over) over

-- The row behind a status and a visitor.
row-columns :
    (id visitor : Text) (s : Status) (rows : List Job)
    → status_in id rows ≡ some s
    → owner_in id rows ≡ some visitor
    → (j : Job) × (find (has_id id) rows ≡ some j) × (j.status ≡ s) × (j.visitor_id ≡ visitor)
row-columns id visitor s rows has_status has_owner = go (find (has_id id) rows) has_status has_owner
  where
    go :
        (o : Option Job)
        → Option.map (λ (j : Job). j.status) o ≡ some s
        → Option.map (λ (j : Job). j.visitor_id) o ≡ some visitor
        → (j : Job) × (o ≡ some j) × (j.status ≡ s) × (j.visitor_id ≡ visitor)
    go none a b = absurd (ground arith)
    go (some j) a b = (j, refl, ground arith, ground arith)

-- A rendered event of a live job completes its row.
row-rendered :
    (codec : Codec) (now : ℕ) (msg : Msg) (id : Text) (ev : JobRendered) (r : Runner) (j : Job)
    → parse_subject msg.subject ≡ some (id, event_rendered)
    → codec.uuid id ≡ some id
    → codec.rendered msg.payload ≡ some ev
    → find (has_id id) r.db.jobs ≡ some j
    → is_live j.status ≡ true
    → row id (handle_msg codec up now msg r).0.db ≡ some (as_completed now ev.pdf_object_key j)
unfolding handle_msg apply_event mark_completed text_eq
row-rendered codec now msg id ev r j subject read decoded stored open_j =
    let out = mark_completed up now id ev.pdf_object_key r.db in
    rw (subject, handle_msg)
      (rw (read, decoded)
        (ap (row id) (finish-db now completed ev.occurred_at out.0 out.1 r)
          ∙ find-update_where (is_live_job id) (as_completed now ev.pdf_object_key) (has_id id)
              r.db.jobs (λ k. refl)
          ∙ ap (Option.map (updated (is_live_job id) (as_completed now ev.pdf_object_key))) stored
          ∙ ap some (rw (find_sound (has_id id) r.db.jobs j stored, open_j) refl)))

-- The visitor of a submission that is enqueued is the owner of its job.
handle_job_create-owner :
    (env : Env) (cat : Catalog) (visitor : Text) (form : Form) (w : World) (profile : Profile)
    (info payload : Bytes)
    → let d = trim_space form.job_description in
      let m = trim_space form.model_key in
      let k = trim_space form.api_key in
      IsUp env
      → IsAccepted env cat visitor d m k w.db profile info
      → env.marshal (requested_event env cat visitor d m k env.fresh profile info) ≡ some payload
      → owner_in env.fresh (handle_job_create env cat visitor form w).1.db.jobs ≡ some visitor
unfolding handle_job_create create_job
handle_job_create-owner env cat visitor form w profile info payload links accepted encoded =
    let d = trim_space form.job_description in
    let m = trim_space form.model_key in
    let k = trim_space form.api_key in
    let ev = requested_event env cat visitor d m k env.fresh profile info in
    rw (create_trimmed-IsAccepted env cat visitor d m k w profile info accepted) (
      rw links.create
        (rw (hand_off-up env links ev payload encoded k _) (rw (text_eq_refl env.fresh) refl)))

-- From the form to the PDF. A submission passes every check, its calls are answered and its event is
-- encoded; the runner starts from the tables that it leaves. Whatever inputs the runner is given first and later,
-- once a well-formed rendered event of the job is consumed while the job is live, and the database answers that
-- update, the visitor downloads, under the job's name, the object whose key the event has, and the download is
-- counted, if the job's id is a UUID in the spelling of the database and the database and the object storage answer.
pub submitted_served :
    (env : Env) (cat : Catalog) (visitor : Text) (form : Form) (w : World) (profile : Profile)
    (info payload : Bytes) (codec : Codec) (r : Runner) (before later : List Input) (now : ℕ)
    (msg : Msg) (ev : JobRendered) (live : Status) (ids : Ids) (objects : Text → Fetched)
    (copied : ℕ) (object : Object) (d : Downloads)
    → IsUp env
    → IsAccepted env cat visitor
        (trim_space form.job_description)
        (trim_space form.model_key)
        (trim_space form.api_key)
        w.db
        profile
        info
    → env.marshal (
        requested_event env cat visitor
          (trim_space form.job_description)
          (trim_space form.model_key)
          (trim_space form.api_key)
          env.fresh
          profile
          info)
      ≡ some payload
    → r.db ≡ (handle_job_create env cat visitor form w).1.db
    → status_in env.fresh (react_all codec before r).db.jobs ≡ some live
    → is_live live ≡ true
    → parse_subject msg.subject ≡ some (env.fresh, event_rendered)
    → codec.rendered msg.payload ≡ some ev
    → ids.parse env.fresh ≡ true
    → ids.column env.fresh ≡ some env.fresh
    → codec.uuid env.fresh ≡ some env.fresh
    → objects ev.pdf_object_key ≡ found object
    → let served =
        react_all codec later (react codec (delivery up now msg) (react_all codec before r)) in
      handle_job_download ids objects copied up visitor env.fresh served.db d ≡ (
        pdf
            (codes "cv-" ++ (env.fresh ++ codes ".pdf"))
            object.content_length
            (take copied object.body),
        record { count = d.count + 1; sizes = length (take copied object.body) ∷ d.sizes },
      )
unfolding react
submitted_served env cat visitor form w profile info payload codec r before later now msg ev live
      ids objects copied object d links accepted encoded from_form has_status open_s subject decoded
      valid column_reads codec_reads fetched =
    let at_msg = react_all codec before r in
    let owned : owner_in env.fresh at_msg.db.jobs ≡ some visitor =
      owner_in-react_all codec env.fresh before r
      ∙ ap (λ (db : Db). owner_in env.fresh db.jobs) from_form
      ∙ handle_job_create-owner env cat visitor form w profile info payload links accepted
          encoded in
    let (j, stored, status_j, owner_j) =
      row-columns env.fresh visitor live at_msg.db.jobs has_status owned in
    let done = as_completed now ev.pdf_object_key j in
    let finished =
      row-react_all codec env.fresh later (handle_msg codec up now msg at_msg).0 done
        (row-rendered codec now msg env.fresh ev at_msg j subject codec_reads decoded stored
          (ap is_live status_j ∙ open_s))
        refl in
    let served = react_all codec later (handle_msg codec up now msg at_msg).0 in
    let named : j.id ≡ env.fresh =
      (text_eq_iff j.id env.fresh).0 (find_sound (has_id env.fresh) at_msg.db.jobs j stored) in
    handle_job_download_served ids objects copied visitor env.fresh env.fresh served.db d done
      ev.pdf_object_key object valid column_reads
      (find-is_job_of env.fresh visitor served.db.jobs done finished owner_j) refl refl fetched
    ∙ ap
        (λ id. (
          pdf (codes "cv-" ++ (id ++ codes ".pdf")) object.content_length (take copied object.body),
          record { count = d.count + 1; sizes = length (take copied object.body) ∷ d.sizes },
        ))
        named
