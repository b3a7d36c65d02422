-- ===== src/Jobs/Closing.antt =====
-- A transition to a terminal status takes a live row for each that it reports.
use mathlib.Core.Option
use corrupt_cv.Common.{
  ℕ, ◌+◌, ◌≤◌, ◌≡◌, refl, Bool, true, false, List, [], ◌∷◌, Option, none, some, arith, Text, find,
  count_if,
}
use corrupt_cv.Store.Rows.{Job, Db, is_live}
use corrupt_cv.Store.Query.{
  Link, up, refused, lost, Result, ok, err, exec, update_where, update_returning, is_pending_job,
  is_live_job, as_completed, as_failed, mark_completed, mark_failed, mark_failed_processing,
}

-- The jobs that are neither completed nor failed.
abbrev pub live_rows : List Job → ℕ
live_rows = count_if (λ (j : Job). is_live j.status)

abbrev pub hits : Option ℕ → ℕ
hits none = 0
hits (some t) = 1

module _ (guard : Job → Bool) (change : Job → Job)
    (opens : (j : Job) → guard j ≡ true → is_live j.status ≡ true) where
  -- An update of live rows to terminal ones: a row that it reports is live no more.
  live-update_returning :
      (db : Db)
      → ((j : Job) → is_live (change j).status ≡ false)
      → hits (update_returning guard change db).0
          + live_rows (update_returning guard change db).1.jobs
        ≤ live_rows db.jobs
  unfolding update_returning
  live-update_returning db closes = go db.jobs
    where
      le : (rows : List Job) → live_rows (update_where guard change rows) ≤ live_rows rows
      le [] = omega arith
      le (j ∷ js) = ground (arith, opens j, closes j, le js)

      go :
          (rows : List Job)
          → hits (Option.map (λ (j : Job). j.created_at) (find guard rows))
              + live_rows (update_where guard change rows)
            ≤ live_rows rows
      go [] = omega arith
      go (j ∷ js) = ground (arith, opens j, closes j, le js, go js)

  pub live-count_if :
      (rows : List Job)
      → ((j : Job) → is_live (change j).status ≡ false)
      → count_if guard rows + live_rows (update_where guard change rows) ≡ live_rows rows
  unfolding update_where
  live-count_if [] closes = omega arith
  live-count_if (j ∷ js) closes = ground (arith, opens j, closes j, live-count_if js closes)

  pub live-update_where :
      (rows : List Job)
      → ((j : Job) → is_live (change j).status ≡ true)
      → live_rows (update_where guard change rows) ≡ live_rows rows
  unfolding update_where
  live-update_where [] keeps = refl
  live-update_where (j ∷ js) keeps = ground (arith, opens j, keeps j, live-update_where js keeps)

-- Whether a transition is reported as applied.
abbrev pub reports : Result (Option ℕ) → ℕ
reports (ok o) = hits o
reports (err e) = 0

-- A transition that takes a row from the live ones for each that it reports.
abbrev pub Closes : Db → Result (Option ℕ) × Db → Type 0
Closes db out = reports out.0 + live_rows out.1.jobs ≤ live_rows db.jobs

Closes-exec :
    (link : Link) (guard : Job → Bool) (change : Job → Job) (db : Db)
    → ((j : Job) → guard j ≡ true → is_live j.status ≡ true)
    → ((j : Job) → is_live (change j).status ≡ false)
    → Closes db (exec link (update_returning guard change) db)
unfolding exec
Closes-exec up guard change db opens closes = live-update_returning guard change opens db closes
Closes-exec refused guard change db opens closes = omega arith
Closes-exec lost guard change db opens closes =
    omega (arith, live-update_returning guard change opens db closes)

pub Closes-mark_completed :
    (link : Link) (now : ℕ) (id key : Text) (db : Db)
    → Closes db (mark_completed link now id key db)
unfolding mark_completed
Closes-mark_completed link now id key db =
    Closes-exec link (is_live_job id) (as_completed now key) db (λ j g. ground arith) (λ j. refl)

pub Closes-mark_failed :
    (link : Link) (now : ℕ) (id error : Text) (db : Db)
    → Closes db (mark_failed link now id error db)
unfolding mark_failed
Closes-mark_failed link now id error db =
    Closes-exec link (is_live_job id) (as_failed now error) db (λ j g. ground arith) (λ j. refl)

pub Closes-mark_failed_processing :
    (link : Link) (now : ℕ) (id error : Text) (db : Db)
    → Closes db (mark_failed_processing link now id error db)
unfolding mark_failed_processing
Closes-mark_failed_processing link now id error db =
    Closes-exec link (is_pending_job id) (as_failed now error) db (λ j g. ground arith) (λ j. refl)
