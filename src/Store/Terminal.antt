-- ===== src/Store/Terminal.antt =====
-- A job that reached `completed` or `failed` is never changed again.
use corrupt_cv.Common.{
  ℕ, ◌≡◌, ◌≢◌, refl, List, [], ◌∷◌, Option, some, arith, Text, codes, All, find, Bool, false,
  text_eq, text_eq_iff, ap, ◌∙◌,
}
use corrupt_cv.Store.Rows.{Job, Db, is_live}
use corrupt_cv.Store.Query.{
  Link, update_where, is_pending_job, is_live_job, is_stuck, as_rendering, as_completed, as_failed,
}
use corrupt_cv.Store.Write.{
  Write, save_profile, create, render, complete, fail_processing, fail, sweep, apply, run,
}
use corrupt_cv.Store.Updates.{exec_keeps, find-update_where}

abbrev pub has_id : Text → Job → Bool
has_id id j = text_eq j.id id

-- The row of a job.
abbrev pub row : Text → Db → Option Job
row id db = find (has_id id) db.jobs

-- The ids that the database generates are new.
abbrev pub IsFresh : Text → Write → Type 0
IsFresh id (create fresh visitor profile description model) = fresh ≢ id
IsFresh id _ = Unit

module _ (id : Text) (j : Job) (terminal : is_live j.status ≡ false) where
  frozen-update :
      (guard : Job → Bool) (change : Job → Job) (db : Db)
      → guard j ≡ false
      → ((r : Job) → (change r).id ≡ r.id)
      → row id db ≡ some j
      → find (has_id id) (update_where guard change db.jobs) ≡ some j
  frozen-update guard change db skipped keeps found =
      find-update_where guard change (has_id id) db.jobs (λ r. ap (λ t. text_eq t id) (keeps r))
      ∙ ground arith

  abbrev Kept : Db → Type 0
  Kept db = row id db ≡ some j

  apply-frozen :
      (link : Link) (now : ℕ) (w : Write) (db : Db)
      → IsFresh id w
      → Kept db
      → Kept (apply link now w db)
  unfolding apply
  apply-frozen link now (save_profile fresh visitor career info) db _ h =
      exec_keeps Kept link _ db h h
  apply-frozen link now (create fresh visitor profile description model) db new h =
      exec_keeps Kept link _ db h (ground (arith, text_eq_iff fresh id))
  apply-frozen link now (render i cv) db _ h =
      exec_keeps Kept link _ db h
        (frozen-update (is_pending_job i) (as_rendering now cv) db (ground arith) (λ r. refl) h)
  apply-frozen link now (complete i key) db _ h =
      exec_keeps Kept link _ db h
        (frozen-update (is_live_job i) (as_completed now key) db (ground arith) (λ r. refl) h)
  apply-frozen link now (fail_processing i error) db _ h =
      exec_keeps Kept link _ db h
        (frozen-update (is_pending_job i) (as_failed now error) db (ground arith) (λ r. refl) h)
  apply-frozen link now (fail i error) db _ h =
      exec_keeps Kept link _ db h
        (frozen-update (is_live_job i) (as_failed now error) db (ground arith) (λ r. refl) h)
  apply-frozen link now (sweep older_than) db _ h = exec_keeps Kept link _ db h (
      frozen-update (is_stuck now older_than) (as_failed now (codes "job timed out")) db
        (ground arith) (λ r. refl) h)

  run-frozen :
      (ws : List (Link × ℕ × Write)) (db : Db)
      → All (λ (step : Link × ℕ × Write). IsFresh id step.2) ws
      → Kept db
      → Kept (run ws db)
  unfolding run
  run-frozen [] db _ h = h
  run-frozen ((link, now, w) ∷ ws) db (new, later) h =
      run-frozen ws (apply link now w db) later (apply-frozen link now w db new h)

-- Whatever is written later by whoever in whatever order, the row of a completed or failed job
-- stays the very same, if no new row is given its id.
pub run-terminal :
    (ws : List (Link × ℕ × Write)) (db : Db) (id : Text) (j : Job)
    → row id db ≡ some j
    → is_live j.status ≡ false
    → All (λ (step : Link × ℕ × Write). IsFresh id step.2) ws
    → row id (run ws db) ≡ some j
run-terminal ws db id j found terminal new = run-frozen id j terminal ws db new found
