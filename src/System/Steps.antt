-- ===== src/System/Steps.antt =====
-- The steps that keep tables and stream sound.
use corrupt_cv.Common.{
  ℕ, ◌≤◌, ◌≡◌, ◌≢◌, inl, inr, refl, ap, true, List, [], ◌∷◌, Text, Bytes, Bool-cases, All, is_some,
  arith, ◌+◌, count_if, text_eq,
}
use corrupt_cv.Strings.{trim_space, byte_length}
use corrupt_cv.Store.Rows.{Profile, Job, Db}
use corrupt_cv.Store.Query.{Link, up, refused, lost, create_job}
use corrupt_cv.Store.Consistency.{AllConsistent}
use corrupt_cv.Store.Write.{create, apply}
use corrupt_cv.Catalog.Load.{Catalog, ModelCatalogEntry}
use corrupt_cv.Catalog.Load as Load
use corrupt_cv.Jetstream.Subject.{subject, event_requested}
use corrupt_cv.Web.JobCreate.{
  Env, Form, World, after_create, requested_event, hand_off, handle_job_create,
}
use corrupt_cv.Web.JobCreate.Checks.{IsAccepted, create_trimmed_rule}
use corrupt_cv.System.Tickets.{Grows, Ticket, tickets, HasProfile, Keeps, get_profile-HasProfile}
use corrupt_cv.System.Created.{published, Handed-hand_off, consistent_step}
use corrupt_cv.System.Sound.{
  IsAdmitted, sent, IsRequested, IsSound, hit, sent-Adds, IsRequested-Adds, rows_fresh,
}

pub IsAdmitted-Grows :
    (cat : Catalog) (before after : Db) (ts : List Ticket)
    → Keeps before after
    → All (IsAdmitted cat before.profiles) ts
    → All (IsAdmitted cat after.profiles) ts
IsAdmitted-Grows cat before after [] keeps _ = tt
IsAdmitted-Grows cat before after (t ∷ ts) keeps (here, later) = (
  record {
    profile = keeps.1 t.profile_id t.visitor_id here.profile;
    described = here.described;
    bounded = here.bounded;
    listed = here.listed;
  },
  IsAdmitted-Grows cat before after ts keeps later,
)

module _ (cat : Catalog) where
  -- A step that creates no job. It may send the event of a job that waits for it.
  pub IsSound-Keeps :
      (waiting waiting' : Text → ℕ) (w w' : World)
      → Keeps w.db w'.db
      → (AllConsistent w.db → AllConsistent w'.db)
      → ((id : Text) → sent id w'.effects + waiting' id ≤ sent id w.effects + waiting id)
      → (All IsRequested (published w.effects) → All IsRequested (published w'.effects))
      → IsSound cat waiting w
      → IsSound cat waiting' w'
  IsSound-Keeps waiting waiting' w w' keeps consistent sends requested s =
      let same = λ (id : Text). ap (count_if (λ (t : Ticket). text_eq t.id id)) keeps.0 in
      record {
        distinct = λ id. omega (arith, same id, s.distinct id);
        admitted = rw (keeps.0) (IsAdmitted-Grows cat w.db w'.db (tickets w.db) keeps s.admitted);
        consistent = consistent s.consistent;
        once = λ id. omega (arith, same id, s.once id, sends id);
        requested = requested s.requested;
      }

  -- The same, with nothing sent.
  pub IsSound-quiet :
      (waiting waiting' : Text → ℕ) (w w' : World)
      → Keeps w.db w'.db
      → (AllConsistent w.db → AllConsistent w'.db)
      → published w'.effects ≡ published w.effects
      → ((id : Text) → waiting' id ≤ waiting id)
      → IsSound cat waiting w
      → IsSound cat waiting' w'
  IsSound-quiet waiting waiting' w w' keeps consistent same fewer =
      IsSound-Keeps waiting waiting' w w' keeps consistent
        (λ id. omega (arith, ap (count_if (text_eq (subject id event_requested))) same, fewer id))
        (λ h. rw same h)

-- What an admitted submission brings to its creation; no later write takes it away.
pub record IsReady (cat : Catalog) (db : Db) (profile visitor d m : Text) : Type 0 where
  pub profile_stored : HasProfile profile visitor db.profiles
  pub described : d ≢ []
  pub bounded : byte_length d ≤ 20000
  pub listed : is_some (Load.get cat m) ≡ true

pub IsReady-IsAccepted :
    (env : Env) (cat : Catalog) (visitor d m k : Text) (db : Db) (profile : Profile) (info : Bytes)
    → IsAccepted env cat visitor d m k db profile info
    → IsReady cat db profile.id visitor d m
IsReady-IsAccepted env cat visitor d m k db profile info a = record {
  profile_stored = get_profile-HasProfile env.profile_link visitor db a.stored;
  described = a.described;
  bounded = a.sizes.0;
  listed = rw (a.listed) refl;
}

-- The insert of a job; from then on one more handler waits.
module _ (cat : Catalog) (now : ℕ) (fresh visitor profile d m : Text) (w : World) where
  abbrev pub created_db : Db
  created_db = apply up now (create fresh visitor profile d m) w.db

  pub created-IsSound :
      (waiting waiting' : Text → ℕ) (w' : World)
      → All (λ (j : Job). j.id ≢ fresh) w.db.jobs
      → IsReady cat w.db profile visitor d m
      → w'.db ≡ created_db
      → w'.effects ≡ w.effects
      → ((id : Text) → waiting' id ≤ waiting id + hit fresh id)
      → IsSound cat waiting w
      → IsSound cat waiting' w'
  unfolding apply
  created-IsSound waiting waiting' w' new ready same quiet more s =
      let none_yet =
        λ (id : Text) (e : text_eq fresh id ≡ true). rows_fresh fresh id w.db.jobs new e in
      record {
        distinct = λ id. rw same (elim (Bool-cases (text_eq fresh id)) [
          | inl e ↦ rw e (omega (arith, none_yet id e))
          | inr e ↦ rw e (omega (arith, s.distinct id))
        ]);
        admitted = rw same (
          record {
            profile = ready.profile_stored;
            described = ready.described;
            bounded = ready.bounded;
            listed = ready.listed;
          },
          s.admitted,
        );
        consistent =
            rw same (consistent_step up now (create fresh visitor profile d m) w.db s.consistent);
        once = λ id. rw (same, quiet) (omega (arith, s.once id, more id));
        requested = rw quiet s.requested;
      }

-- A submission that is not interrupted.
module _ (env : Env) (cat : Catalog) (visitor d m k : Text) (waiting : Text → ℕ) (w : World)
    (s : IsSound cat waiting w) (new : All (λ (j : Job). j.id ≢ env.fresh) w.db.jobs) where
  abbrev pub StaysSound : World → Type 0
  StaysSound w' = IsSound cat waiting w' × Grows w.db w'.db

  after_create-StaysSound :
      (profile : Profile) (info : Bytes) (l : Link)
      → IsReady cat w.db profile.id visitor d m
      → StaysSound
          (after_create env cat visitor d m k profile info
            (create_job l env.now env.fresh visitor profile.id d m w.db)
            w).1
  unfolding create_job apply
  after_create-StaysSound profile info up ready =
      let ev = requested_event env cat visitor d m k env.fresh profile info in
      let w' : World = record w {
        db = created_db cat env.now env.fresh visitor profile.id d m w;
        jobs_created = m ∷ w.jobs_created;
      } in
      let after = (hand_off env k ev w').1 in
      let more = λ (id : Text). waiting id + hit env.fresh id in
      let (keeps, consistent, adds) = Handed-hand_off env ev k w' in
      let made =
        created-IsSound cat env.now env.fresh visitor profile.id d m w waiting more w' new ready
          refl refl (λ id. omega arith) s in
      (
        IsSound-Keeps cat more waiting w' after keeps consistent
            (λ id. omega (arith, sent-Adds env.fresh id w'.effects after.effects adds))
            (λ h. IsRequested-Adds env.fresh w'.effects after.effects adds h) made,
        keeps.1,
      )
  after_create-StaysSound profile info refused ready = (s, λ i v h. h)
  after_create-StaysSound profile info lost ready =
      let db = created_db cat env.now env.fresh visitor profile.id d m w in
      (
        created-IsSound cat env.now env.fresh visitor profile.id d m w waiting waiting
            (record w { db = db }) new ready refl refl (λ id. omega arith) s,
        λ i v h. h,
      )

pub handle_job_create-IsSound :
    (env : Env) (cat : Catalog) (visitor : Text) (form : Form) (waiting : Text → ℕ) (w : World)
    → IsSound cat waiting w
    → All (λ (j : Job). j.id ≢ env.fresh) w.db.jobs
    → let after = (handle_job_create env cat visitor form w).1 in
      IsSound cat waiting after × Grows w.db after.db
unfolding handle_job_create
handle_job_create-IsSound env cat visitor form waiting w s new =
    create_trimmed_rule env cat visitor (trim_space form.job_description)
      (trim_space form.model_key) (trim_space form.api_key) w
      (λ out. IsSound cat waiting out.1 × Grows w.db out.1.db)
      (λ answer counts. (
        IsSound-quiet cat waiting waiting w _ (refl, λ i v h. h) (λ h. h) refl (λ id. omega arith)
            s,
        λ i v h. h,
      ))
      (λ profile info accepted.
        after_create-StaysSound env cat visitor _ _ _ waiting w s new profile info env.create_link
          (IsReady-IsAccepted env cat visitor _ _ _ w.db profile info accepted))
