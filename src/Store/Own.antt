-- ===== src/Store/Own.antt =====
-- The methods that take a visitor, on the rows of that visitor alone.
use corrupt_cv.Common.{
  ℕ, ◌≡◌, inl, inr, refl, ap, Bool, true, List, [], ◌∷◌, arith, Text, find, select, take, text_eq,
  text_eq_refl, Bool-cases,
}
use corrupt_cv.Common.Int.{ℤ}
use corrupt_cv.Store.Rows.{Profile, Job, Db}
use corrupt_cv.Store.Query.{
  Link, up, refused, lost, ok, err, broken, exec, or_not_found, update_where, put_profile,
  upsert_profile, get_profile, create_job, get_job, list_jobs, limit_or_default, newest_first,
  is_job_of, update_returning, mark_failed, is_live_job, as_failed,
}

abbrev pub is_own : Text → Job → Bool
is_own visitor j = text_eq j.visitor_id visitor

abbrev pub is_own_profile : Text → Profile → Bool
is_own_profile visitor p = text_eq p.visitor_id visitor

-- The tables without the rows of others.
abbrev pub own_rows : Text → Db → Db
own_rows visitor db = record {
  profiles = select (is_own_profile visitor) db.profiles;
  jobs = select (is_own visitor) db.jobs;
}

module _ {ℓ} {A : Type ℓ} where
  find-select :
      (p q : A → Bool) (xs : List A)
      → ((x : A) → q x ≡ true → p x ≡ true)
      → find q (select p xs) ≡ find q xs
  find-select p q [] sub = refl
  find-select p q (x ∷ xs) sub = elim (Bool-cases (p x)) [
    | inl e ↦
        rw e (elim (Bool-cases (q x)) [ inl f ↦ rw f refl | inr f ↦ rw f (find-select p q xs sub) ])
    | inr e ↦ ground (arith, sub x, find-select p q xs sub)
  ]

  select-select : (p : A → Bool) (xs : List A) → select p (select p xs) ≡ select p xs
  select-select p [] = refl
  select-select p (x ∷ xs) = ground (arith, select-select p xs)

  update_where-select :
      (p guard : A → Bool) (change : A → A) (xs : List A)
      → ((x : A) → p (change x) ≡ p x)
      → update_where guard change (select p xs) ≡ select p (update_where guard change xs)
  unfolding update_where
  update_where-select p guard change [] keeps = refl
  update_where-select p guard change (x ∷ xs) keeps =
      ground (arith, keeps x, update_where-select p guard change xs keeps)

module _ (visitor : Text) where
  put_profile-select :
      (now : ℕ) (fresh career info : Text) (ps : List Profile)
      → put_profile now fresh visitor career info (select (is_own_profile visitor) ps)
        ≡ select (is_own_profile visitor) (put_profile now fresh visitor career info ps)
  unfolding put_profile
  put_profile-select now fresh career info [] = rw (text_eq_refl visitor) refl
  put_profile-select now fresh career info (p ∷ ps) =
      ground (arith, put_profile-select now fresh career info ps)

  -- A query that runs on the visitor's own rows as on all.
  exec-own {ℓ} :
      {A : Type ℓ} (link : Link) (query : Db → A × Db) (db : Db)
      → query (own_rows visitor db) ≡ ((query db).0, own_rows visitor (query db).1)
      → exec link query (own_rows visitor db)
        ≡ ((exec link query db).0, own_rows visitor (exec link query db).1)
  unfolding exec
  exec-own up query db same = ap (λ out. (ok out.0, out.1)) same
  exec-own refused query db same = refl
  exec-own lost query db same = ap (λ out. (err broken, out.1)) same

  -- A query that only reads, and reads the same.
  answer-own {ℓ} :
      {A : Type ℓ} (link : Link) (query : Db → A) (db : Db)
      → query (own_rows visitor db) ≡ query db
      → (exec link (λ db. (query db, db)) (own_rows visitor db)).0
        ≡ (exec link (λ db. (query db, db)) db).0
  unfolding exec
  answer-own up query db same = ap ok same
  answer-own refused query db same = refl
  answer-own lost query db same = refl

  -- The rows that a query leaves, whatever it answers.
  rows-own {ℓ} :
      {A : Type ℓ} (link : Link) (query : Db → A × Db) (db : Db)
      → (query (own_rows visitor db)).1 ≡ own_rows visitor (query db).1
      → (exec link query (own_rows visitor db)).1 ≡ own_rows visitor (exec link query db).1
  unfolding exec
  rows-own up query db same = same
  rows-own refused query db same = refl
  rows-own lost query db same = same

  pub get_profile-own :
      (link : Link) (db : Db)
      → get_profile link visitor (own_rows visitor db) ≡ get_profile link visitor db
  unfolding get_profile
  get_profile-own link db = ap or_not_found (
      answer-own link (λ (db : Db). find (is_own_profile visitor) db.profiles) db
        (find-select (is_own_profile visitor) (is_own_profile visitor) db.profiles (λ p own. own)))

  pub get_job-own :
      (link : Link) (id : Text) (db : Db)
      → get_job link id visitor (own_rows visitor db) ≡ get_job link id visitor db
  unfolding get_job
  get_job-own link id db = ap or_not_found (
      answer-own link (λ (db : Db). find (is_job_of id visitor) db.jobs) db
        (find-select (is_own visitor) (is_job_of id visitor) db.jobs
          (λ j found. ground (arith, found))))

  pub list_jobs-own :
      (link : Link) (limit : ℤ) (db : Db)
      → list_jobs link visitor limit (own_rows visitor db) ≡ list_jobs link visitor limit db
  unfolding list_jobs
  list_jobs-own link limit db =
      answer-own link
        (λ (db : Db).
          take (limit_or_default limit) (newest_first (select (is_own visitor) db.jobs)))
        db
        (ap (λ js. take (limit_or_default limit) (newest_first js))
          (select-select (is_own visitor) db.jobs))

  pub upsert_profile-own :
      (link : Link) (now : ℕ) (fresh career info : Text) (db : Db)
      → upsert_profile link now fresh visitor career info (own_rows visitor db) ≡ (
        (upsert_profile link now fresh visitor career info db).0,
        own_rows visitor (upsert_profile link now fresh visitor career info db).1,
      )
  unfolding upsert_profile
  upsert_profile-own link now fresh career info db = exec-own link _ db (
      ap (λ ps. (tt, record { profiles = ps; jobs = select (is_own visitor) db.jobs }))
        (put_profile-select now fresh career info db.profiles))

  pub create_job-own :
      (link : Link) (now : ℕ) (fresh profile description model : Text) (db : Db)
      → create_job link now fresh visitor profile description model (own_rows visitor db) ≡ (
        (create_job link now fresh visitor profile description model db).0,
        own_rows visitor (create_job link now fresh visitor profile description model db).1,
      )
  unfolding create_job
  create_job-own link now fresh profile description model db =
      exec-own link _ db (rw (text_eq_refl visitor) refl)

  pub mark_failed-own :
      (link : Link) (now : ℕ) (id error : Text) (db : Db)
      → (mark_failed link now id error (own_rows visitor db)).1
        ≡ own_rows visitor (mark_failed link now id error db).1
  unfolding mark_failed
  mark_failed-own link now id error db =
      rows-own link (update_returning (is_live_job id) (as_failed now error)) db (
        ap (λ js. record { profiles = select (is_own_profile visitor) db.profiles; jobs = js })
          (update_where-select (is_own visitor) (is_live_job id) (as_failed now error) db.jobs
            (λ j. refl)))
