-- ===== src/Store/Query.antt =====
-- The methods of `Store`. Each is a query, run by `exec`; a method returns the result that its
-- caller sees and the tables that it leaves. Where a column is of type uuid or jsonb, the argument
-- for it is the text that the database shows for the value which it reads in the code's text: the
-- callers read (`uuid` and `jsonb` of the codec), and where nothing can be read the query is
-- `refused`. `now` is the database's clock.
use mathlib.Core.Option
use corrupt_cv.Common.{
  ℕ, zero, suc, ◌+◌, Bool, ◌&&◌, List, [], ◌∷◌, Option, none, some, Text, codes, text_eq, find,
  select, count_if, take, ltb, leb, if◌then◌else◌,
}
use corrupt_cv.Common.Int.{ℤ, pos, negsuc}
use corrupt_cv.Store.Rows.{
  pending, rendering, completed, failed, is_pending, is_live, Profile, Job, Db,
}

-- `errors.Is(err, ErrNotFound)`, or any other error.
pub data Error : Type 0 where
  not_found broken : Error

pub data Result {ℓ} (A : Type ℓ) : Type ℓ where
  ok : A → Result A
  err : Error → Result A

-- What becomes of a query: answered; never run; or run, and its answer lost.
pub data Link : Type 0 where
  up refused lost : Link

unfoldable pub exec {ℓ} : {A : Type ℓ} → Link → (Db → A × Db) → Db → Result A × Db
exec up query db = let (a, db') = query db in (ok a, db')
exec refused query db = (err broken, db)
exec lost query db = (err broken, (query db).1)

-- `UPDATE … WHERE`
unfoldable pub update_where {ℓ} : {A : Type ℓ} → (A → Bool) → (A → A) → List A → List A
update_where guard change [] = []
update_where guard change (r ∷ rs) =
    (if guard r then change r else r) ∷ update_where guard change rs

-- `pgx.ErrNoRows` becomes ErrNotFound; every other error passes.
unfoldable pub or_not_found {ℓ} : {A : Type ℓ} → Result (Option A) → Result A
or_not_found (ok (some a)) = ok a
or_not_found (ok none) = err not_found
or_not_found (err e) = err e

-- `INSERT INTO profiles … ON CONFLICT (visitor_id) DO UPDATE`; `fresh` is the id that the
-- table's default generates.
unfoldable pub put_profile : ℕ → Text → Text → Text → Text → List Profile → List Profile
put_profile now fresh visitor career info [] =
    record {
      id = fresh;
      visitor_id = visitor;
      career_text = career;
      personal_info = some info;
      created_at = now;
      updated_at = now;
    }
    ∷ []
put_profile now fresh visitor career info (p ∷ ps) =
    if text_eq p.visitor_id visitor
    then record p { career_text = career; personal_info = some info; updated_at = now } ∷ ps
    else p ∷ put_profile now fresh visitor career info ps

unfoldable pub upsert_profile : Link → ℕ → Text → Text → Text → Text → Db → Result (Unit {0}) × Db
unfolding exec put_profile
upsert_profile link now fresh visitor career info =
    exec link
      λ db. (tt, record db { profiles = put_profile now fresh visitor career info db.profiles })

unfoldable pub get_profile : Link → Text → Db → Result Profile
unfolding exec or_not_found
get_profile link visitor db =
    or_not_found
      (exec link (λ db. (find (λ (p : Profile). text_eq p.visitor_id visitor) db.profiles, db))
        db).0

-- `INSERT INTO jobs … 'pending' RETURNING id`; `fresh` as above. The callers pass the id of a
-- stored profile, so the foreign key holds.
unfoldable pub create_job : Link → ℕ → Text → Text → Text → Text → Text → Db → Result Text × Db
unfolding exec
create_job link now fresh visitor profile description model = exec link λ db. (
  fresh,
  record db {
    jobs =
        record {
          id = fresh;
          visitor_id = visitor;
          profile_id = profile;
          job_description = description;
          model_key = model;
          status = pending;
          error = none;
          pdf_object_key = none;
          cv = none;
          created_at = now;
          updated_at = now;
        }
        ∷ db.jobs;
  },
)

-- `WHERE id = $1 AND visitor_id = $2`
abbrev pub is_job_of : Text → Text → Job → Bool
is_job_of id visitor j = text_eq j.id id && text_eq j.visitor_id visitor

unfoldable pub get_job : Link → Text → Text → Db → Result Job
unfolding exec or_not_found
get_job link id visitor db =
    or_not_found (exec link (λ db. (find (is_job_of id visitor) db.jobs, db)) db).0

-- `ORDER BY created_at DESC`. Rows of one time come in some order: the table's here.
unfoldable pub insert_newest : Job → List Job → List Job
insert_newest j [] = j ∷ []
insert_newest j (k ∷ ks) =
    if leb k.created_at j.created_at then j ∷ k ∷ ks else k ∷ insert_newest j ks

unfoldable pub newest_first : List Job → List Job
unfolding insert_newest
newest_first [] = []
newest_first (j ∷ js) = insert_newest j (newest_first js)

-- `if limit <= 0 { limit = 20 }`
abbrev pub limit_or_default : ℤ → ℕ
limit_or_default (pos zero) = 20
limit_or_default (pos (suc n)) = suc n
limit_or_default (negsuc n) = 20

unfoldable pub list_jobs : Link → Text → ℤ → Db → Result (List Job)
unfolding exec newest_first
list_jobs link visitor limit db =
    (exec link
      (λ db. (
        take (limit_or_default limit)
            (newest_first (select (λ (j : Job). text_eq j.visitor_id visitor) db.jobs)),
        db,
      ))
      db).0

-- `UPDATE jobs … RETURNING created_at`; `none` is `pgx.ErrNoRows`: no row passed the guard. The
-- id is the primary key, so at most one row does.
unfoldable pub update_returning : (Job → Bool) → (Job → Job) → Db → Option ℕ × Db
unfolding update_where
update_returning guard change db = (
  Option.map (λ (j : Job). j.created_at) (find guard db.jobs),
  record db { jobs = update_where guard change db.jobs },
)

abbrev pub is_pending_job : Text → Job → Bool
is_pending_job id j = text_eq j.id id && is_pending j.status

abbrev pub is_live_job : Text → Job → Bool
is_live_job id j = text_eq j.id id && is_live j.status

abbrev pub as_rendering : ℕ → Text → Job → Job
as_rendering now cv j = record j { status = rendering; cv = some cv; updated_at = now }

abbrev pub as_completed : ℕ → Text → Job → Job
as_completed now key j = record j {
  status = completed;
  pdf_object_key = some key;
  updated_at = now;
}

abbrev pub as_failed : ℕ → Text → Job → Job
as_failed now error j = record j { status = failed; error = some error; updated_at = now }

unfoldable pub mark_rendering : Link → ℕ → Text → Text → Db → Result (Unit {0}) × Db
unfolding exec update_where
mark_rendering link now id cv =
    exec link λ db.
      (tt, record db { jobs = update_where (is_pending_job id) (as_rendering now cv) db.jobs })

-- A result `ok (some t)` is `(t, true, nil)`, and `ok none` is `(time.Time{}, false, nil)`.
unfoldable pub mark_completed : Link → ℕ → Text → Text → Db → Result (Option ℕ) × Db
unfolding exec update_returning
mark_completed link now id key =
    exec link (update_returning (is_live_job id) (as_completed now key))

unfoldable pub mark_failed_where : (Job → Bool) → Link → ℕ → Text → Db → Result (Option ℕ) × Db
unfolding exec update_returning
mark_failed_where guard link now error = exec link (update_returning guard (as_failed now error))

unfoldable pub mark_failed_processing : Link → ℕ → Text → Text → Db → Result (Option ℕ) × Db
unfolding mark_failed_where
mark_failed_processing link now id = mark_failed_where (is_pending_job id) link now

unfoldable pub mark_failed : Link → ℕ → Text → Text → Db → Result (Option ℕ) × Db
unfolding mark_failed_where
mark_failed link now id = mark_failed_where (is_live_job id) link now

-- `updated_at < now() - make_interval(secs => $1)`
abbrev pub is_stuck : ℕ → ℕ → Job → Bool
is_stuck now older_than j = is_live j.status && ltb (j.updated_at + older_than) now

unfoldable pub sweep_stuck : Link → ℕ → ℕ → Db → Result ℕ × Db
unfolding exec update_where
sweep_stuck link now older_than = exec link λ db. (
  count_if (is_stuck now older_than) db.jobs,
  record db {
    jobs = update_where (is_stuck now older_than) (as_failed now (codes "job timed out")) db.jobs;
  },
)
