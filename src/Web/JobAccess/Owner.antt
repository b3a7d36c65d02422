-- ===== src/Web/JobAccess/Owner.antt =====
-- Whose jobs the handlers show.
use corrupt_cv.Common.{
  ap, sym, ◌∙◌, length, ◌+◌, ℕ, ◌≡◌, ◌⊎◌, inl, inr, refl, sym, ap, ◌∙◌, Bool, true, List, [], ◌∷◌,
  Option, none, some, arith, Text, Bytes, text_eq_iff, find, take, Bool-cases,
}
use corrupt_cv.Store.Rows.{Status, completed, Job, Db}
use corrupt_cv.Store.Query.{
  Link, up, refused, lost, Result, ok, err, get_job, is_job_of, not_found, broken, or_not_found,
}
use corrupt_cv.Web.JobAccess.{
  Ids, get_at, Object, Fetched, found, missing, unreachable, plain, pdf, pdf_name, Downloads,
  loaded, visitor_job, send_pdf, download, handle_job_download,
}

pub find_sound : (p : Job → Bool) (js : List Job) (j : Job) → find p js ≡ some j → p j ≡ true
find_sound p [] j e = cc
find_sound p (k ∷ ks) j e = elim (Bool-cases (p k)) [
  | inl passed ↦ let same : k ≡ j = ground arith in ap p (sym same) ∙ passed
  | inr skipped ↦ find_sound p ks j (rw skipped at e)
]

or_not_found_sound : (o : Option Job) (j : Job) → or_not_found (ok o) ≡ ok j → o ≡ some j
unfolding or_not_found
or_not_found_sound none j e = absurd (ground arith)
or_not_found_sound (some k) j e = ground arith

get_job_sound :
    (link : Link) (id visitor : Text) (db : Db) (j : Job)
    → get_job link id visitor db ≡ ok j
    → find (is_job_of id visitor) db.jobs ≡ some j
unfolding get_job or_not_found
get_job_sound up id visitor db j e = or_not_found_sound _ j e
get_job_sound refused id visitor db j e = absurd (ground arith)
get_job_sound lost id visitor db j e = absurd (ground arith)

-- A row of the table, of the visitor, under the id that the database reads in the request's.
pub record IsOwn (ids : Ids) (visitor id : Text) (db : Db) (j : Job) : Type 0 where
  pub stored : find (is_job_of j.id visitor) db.jobs ≡ some j
  pub requested : ids.column id ≡ some j.id
  pub owner : j.visitor_id ≡ visitor

-- The job that `visitorJob` passes on is the visitor's own, under the id that the database reads
-- in the request's; every other request is answered with 404 or 500.
pub visitor_job-IsOwn :
    (ids : Ids) (link : Link) (visitor id : Text) (db : Db)
    → ((j : Job) × (visitor_job ids link visitor id db ≡ inr j) × IsOwn ids visitor id db j)
      ⊎ ((msg : Text) × ((visitor_job ids link visitor id db ≡ inl (plain 404 msg))
            ⊎ (visitor_job ids link visitor id db ≡ inl (plain 500 msg))))
unfolding visitor_job
visitor_job-IsOwn ids link visitor id db = elim (Bool-cases (ids.parse id)) [
  | inl e ↦ rw e (at_id (ids.column id) refl)
  | inr e ↦ rw e (inr (_, inl refl))
]
  where
    go :
        (u : Text) (r : Result Job)
        → ids.column id ≡ some u
        → get_job link u visitor db ≡ r
        → ((j : Job) × (loaded r ≡ inr j) × IsOwn ids visitor id db j)
          ⊎ ((msg : Text) × ((loaded r ≡ inl (plain 404 msg)) ⊎ (loaded r ≡ inl (plain 500 msg))))
    go u (err not_found) read e = inr (_, inl refl)
    go u (err broken) read e = inr (_, inr refl)
    go u (ok j) read e =
        let stored = get_job_sound link u visitor db j e in
        let passed = find_sound (is_job_of u visitor) db.jobs j stored in
        let same : j.id ≡ u = ground (arith, text_eq_iff j.id u) in
        inl (
          j,
          refl,
          record {
            stored = ap (λ i. find (is_job_of i visitor) db.jobs) same ∙ stored;
            requested = read ∙ ap some (sym same);
            owner = ground (arith, text_eq_iff j.visitor_id visitor);
          },
        )

    at_id :
        (o : Option Text)
        → ids.column id ≡ o
        → ((j : Job) × (loaded (get_at link visitor o db) ≡ inr j) × IsOwn ids visitor id db j)
          ⊎ ((msg : Text) × ((loaded (get_at link visitor o db) ≡ inl (plain 404 msg))
                ⊎ (loaded (get_at link visitor o db) ≡ inl (plain 500 msg))))
    at_id none read = inr (_, inr refl)
    at_id (some u) read = go u (get_job link u visitor db) read refl

-- What holds of a PDF that is sent.
pub record IsOwnPdf (ids : Ids) (objects : Text → Fetched) (copied : ℕ) (visitor id : Text)
    (db : Db) (filename : Text) (sent : Bytes) : Type 0 where
  pub job : Job
  pub own : IsOwn ids visitor id db job
  pub done : job.status ≡ completed
  pub key : Text
  pub stored : job.pdf_object_key ≡ some key
  pub object : Object
  pub fetched : objects key ≡ found object
  pub content : sent ≡ take copied object.body
  pub name : filename ≡ pdf_name job

module _ (objects : Text → Fetched) (copied : ℕ) (j : Job) (d d' : Downloads) (filename : Text)
    (len : Option ℕ) (sent : Bytes) where
  send_pdf_sound :
      (f : Fetched)
      → send_pdf j copied f d ≡ (pdf filename len sent, d')
      → (object : Object) × (f ≡ found object)
        × (sent ≡ take copied object.body)
        × (filename ≡ pdf_name j)
  send_pdf_sound missing e = absurd (ground arith)
  send_pdf_sound unreachable e = absurd (ground arith)
  send_pdf_sound (found object) e = (object, refl, ground arith, ground arith)

  download_sound :
      (s : Status) (o : Option Text)
      → download objects copied j s o d ≡ (pdf filename len sent, d')
      → (key : Text) × (s ≡ completed)
        × (o ≡ some key)
        × (object : Object) × (objects key ≡ found object)
        × (sent ≡ take copied object.body)
        × (filename ≡ pdf_name j)
  download_sound completed (some key) e =
      let (object, fetched, content, name) = send_pdf_sound (objects key) e in
      (key, refl, refl, object, fetched, content, name)
  download_sound completed none e = absurd (ground arith)
  download_sound _ o e = absurd (ground arith)

-- A PDF is sent only from a completed job of the visitor's own, whose id is what the database
-- reads in the request's. It is
-- the object under that job's key, up to where the client is gone.
pub handle_job_download-IsOwnPdf :
    (ids : Ids) (objects : Text → Fetched) (copied : ℕ) (link : Link) (visitor id : Text) (db : Db)
    (d d' : Downloads) (filename : Text) (len : Option ℕ) (sent : Bytes)
    → handle_job_download ids objects copied link visitor id db d ≡ (pdf filename len sent, d')
    → IsOwnPdf ids objects copied visitor id db filename sent
unfolding handle_job_download
handle_job_download-IsOwnPdf ids objects copied link visitor id db d d' filename len sent h =
    elim (visitor_job-IsOwn ids link visitor id db) [
      | inl (j, e, own) ↦
          let (key, done, stored, object, fetched, content, name) =
            download_sound objects copied j d d' filename len sent j.status j.pdf_object_key
              (rw (e, handle_job_download) at h) in
          record {
            job = j;
            own = own;
            done = done;
            key = key;
            stored = stored;
            object = object;
            fetched = fetched;
            content = content;
            name = name;
          }
      | inr (msg, inl e) ↦ let h = rw (e, handle_job_download) at h in absurd (ground arith)
      | inr (msg, inr e) ↦ let h = rw (e, handle_job_download) at h in absurd (ground arith)
    ]

visitor_job-row :
    (ids : Ids) (visitor id u : Text) (db : Db) (j : Job)
    → ids.parse id ≡ true
    → ids.column id ≡ some u
    → find (is_job_of u visitor) db.jobs ≡ some j
    → visitor_job ids up visitor id db ≡ inr j
unfolding visitor_job get_job or_not_found
visitor_job-row ids visitor id u db j valid read stored = rw (valid, read) (rw stored refl)

-- The visitor of a completed job is sent its PDF under the job's name, and the download is counted
-- with its size, if the database and the object storage answer.
pub handle_job_download_served :
    (ids : Ids) (objects : Text → Fetched) (copied : ℕ) (visitor id u : Text) (db : Db)
    (d : Downloads) (j : Job) (key : Text) (object : Object)
    → ids.parse id ≡ true
    → ids.column id ≡ some u
    → find (is_job_of u visitor) db.jobs ≡ some j
    → j.status ≡ completed
    → j.pdf_object_key ≡ some key
    → objects key ≡ found object
    → let sent = take copied object.body in
      handle_job_download ids objects copied up visitor id db d ≡ (
        pdf (pdf_name j) object.content_length sent,
        record { count = d.count + 1; sizes = length sent ∷ d.sizes },
      )
unfolding handle_job_download
handle_job_download_served ids objects copied visitor id u db d j key object valid read stored done
      has_key fetched =
    rw (visitor_job-row ids visitor id u db j valid read stored, handle_job_download)
      (rw (done, has_key) (rw fetched refl))
