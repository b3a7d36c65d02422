-- ===== src/Store/Consistency.antt =====
-- What holds of every row of `jobs`, whatever the writes.
use corrupt_cv.Common.{ℕ, ◌≡◌, ◌≢◌, true, List, [], ◌∷◌, none, arith, Text, codes, is_some, All}
use corrupt_cv.Store.Rows.{pending, rendering, completed, failed, Job, Db, is_live}
use corrupt_cv.Store.Query.{
  Link, as_rendering, as_completed, as_failed, is_pending_job, is_live_job, is_stuck,
}
use corrupt_cv.Store.Write.{
  Write, save_profile, create, render, complete, fail_processing, fail, sweep, apply, run,
}
use corrupt_cv.Store.Updates.{All-update_where, exec_keeps}

-- The columns that a status comes with: no CV while pending and one while rendering, a PDF key
-- exactly when completed, an error exactly when failed.
pub record IsConsistent (j : Job) : Type 0 where
  pub new_row : j.status ≡ pending → j.cv ≡ none
  pub structured : j.status ≡ rendering → is_some j.cv ≡ true
  pub done : j.status ≡ completed → is_some j.pdf_object_key ≡ true
  pub not_done : j.status ≢ completed → j.pdf_object_key ≡ none
  pub broken : j.status ≡ failed → is_some j.error ≡ true
  pub not_broken : j.status ≢ failed → j.error ≡ none

rendering-IsConsistent :
    (now : ℕ) (id cv : Text) (j : Job)
    → IsConsistent j
    → is_pending_job id j ≡ true
    → IsConsistent (as_rendering now cv j)
rendering-IsConsistent now id cv j h g = ground arith

completed-IsConsistent :
    (now : ℕ) (key : Text) (j : Job)
    → IsConsistent j
    → is_live j.status ≡ true
    → IsConsistent (as_completed now key j)
completed-IsConsistent now key j h g = ground arith

failed-IsConsistent :
    (now : ℕ) (error : Text) (j : Job)
    → IsConsistent j
    → is_live j.status ≡ true
    → IsConsistent (as_failed now error j)
failed-IsConsistent now error j h g = ground arith

abbrev pub AllConsistent : Db → Type 0
AllConsistent db = All IsConsistent db.jobs

apply-IsConsistent :
    (link : Link) (now : ℕ) (w : Write) (db : Db)
    → AllConsistent db
    → AllConsistent (apply link now w db)
unfolding apply
apply-IsConsistent link now (save_profile fresh visitor career info) db h =
    exec_keeps AllConsistent link _ db h h
apply-IsConsistent link now (create fresh visitor profile description model) db h =
    exec_keeps AllConsistent link _ db h (ground arith, h)
apply-IsConsistent link now (render id cv) db h = exec_keeps AllConsistent link _ db h (
    All-update_where (is_pending_job id) _ IsConsistent db.jobs (rendering-IsConsistent now id cv)
      h)
apply-IsConsistent link now (complete id key) db h = exec_keeps AllConsistent link _ db h (
    All-update_where (is_live_job id) _ IsConsistent db.jobs
      (λ j k g. completed-IsConsistent now key j k (ground arith)) h)
apply-IsConsistent link now (fail_processing id error) db h = exec_keeps AllConsistent link _ db h (
    All-update_where (is_pending_job id) _ IsConsistent db.jobs
      (λ j k g. failed-IsConsistent now error j k (ground arith)) h)
apply-IsConsistent link now (fail id error) db h = exec_keeps AllConsistent link _ db h (
    All-update_where (is_live_job id) _ IsConsistent db.jobs
      (λ j k g. failed-IsConsistent now error j k (ground arith)) h)
apply-IsConsistent link now (sweep older_than) db h = exec_keeps AllConsistent link _ db h (
    All-update_where (is_stuck now older_than) _ IsConsistent db.jobs
      (λ j k g. failed-IsConsistent now (codes "job timed out") j k (ground arith)) h)

-- From consistent rows, any writes in any order, answered or not, leave consistent rows.
pub run-IsConsistent :
    (ws : List (Link × ℕ × Write)) (db : Db) → AllConsistent db → AllConsistent (run ws db)
unfolding run
run-IsConsistent [] db h = h
run-IsConsistent ((link, now, w) ∷ ws) db h =
    run-IsConsistent ws (apply link now w db) (apply-IsConsistent link now w db h)
