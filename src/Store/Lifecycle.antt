-- ===== src/Store/Lifecycle.antt =====
-- The state machine that the head of store.go draws, as a relation on rows, and that every write
-- follows it.
use corrupt_cv.Common.{
  ◌⊎◌, some, ℕ, ◌≡◌, refl, true, List, [], ◌∷◌, ◌++◌, arith, Text, codes, All, Bool, inl, inr,
  Bool-cases,
}
use corrupt_cv.Store.Rows.{Status, pending, rendering, completed, failed, Job, Db, is_live}
use corrupt_cv.Store.Query.{Link, exec, update_where, is_pending_job, is_live_job, is_stuck}
use corrupt_cv.Store.Write.{
  Write, save_profile, create, render, complete, fail_processing, fail, sweep, apply,
}
use corrupt_cv.Store.Updates.{exec_keeps}

-- `structured: pending -> rendering (+ cv jsonb)`,
-- `rendered: any non-terminal -> completed (+ pdf_object_key)`,
-- `failed: any non-terminal -> failed (+ error)`.
pub data Moves (j : Job) : Job → Type 0 where
  stays : Moves j j
  renders :
      (now : ℕ) (cv : Text)
      → j.status ≡ pending
      → Moves j (record j { status = rendering; cv = some cv; updated_at = now })
  completes :
      (now : ℕ) (key : Text)
      → (j.status ≡ pending) ⊎ (j.status ≡ rendering)
      → Moves j (record j { status = completed; pdf_object_key = some key; updated_at = now })
  fails :
      (now : ℕ) (error : Text)
      → (j.status ≡ pending) ⊎ (j.status ≡ rendering)
      → Moves j (record j { status = failed; error = some error; updated_at = now })

-- The statuses that are not terminal.
live_cases : (s : Status) → is_live s ≡ true → (s ≡ pending) ⊎ (s ≡ rendering)
live_cases pending h = inl refl
live_cases rendering h = inr refl
live_cases _ h = absurd (ground arith)

-- Row by row.
abbrev pub Evolve : List Job → List Job → Type 0
Evolve [] [] = Unit
Evolve [] (k ∷ ks) = ⊥
Evolve (j ∷ js) [] = ⊥
Evolve (j ∷ js) (k ∷ ks) = Moves j k × Evolve js ks

Evolve-refl : (js : List Job) → Evolve js js
Evolve-refl [] = tt
Evolve-refl (j ∷ js) = (stays, Evolve-refl js)

module _ (guard : Job → Bool) (change : Job → Job)
    (allowed : (j : Job) → guard j ≡ true → Moves j (change j)) where
  Evolve-update_where : (js : List Job) → Evolve js (update_where guard change js)
  unfolding update_where
  Evolve-update_where [] = tt
  Evolve-update_where (j ∷ js) = elim (Bool-cases (guard j)) [
    | inl passed ↦ rw passed (allowed j passed, Evolve-update_where js)
    | inr skipped ↦ rw skipped (stays, Evolve-update_where js)
  ]

-- A write may put new pending rows in front; each older row makes at most one allowed move.
abbrev pub Follows : List Job → List Job → Type 0
Follows js ks =
    (new : List Job) × (old : List Job) × (ks ≡ new ++ old)
    × All (λ (j : Job). j.status ≡ pending) new
    × Evolve js old

-- Every write, answered or not, makes each row stay or make one move of the diagram, and adds
-- rows only as pending ones.
pub apply-Follows :
    (link : Link) (now : ℕ) (w : Write) (db : Db) → Follows db.jobs (apply link now w db).jobs
unfolding apply
apply-Follows link now w db = go w
  where
    same : Follows db.jobs db.jobs
    same = ([], db.jobs, refl, tt, Evolve-refl db.jobs)

    moved :
        (guard : Job → Bool) (change : Job → Job)
        → ((j : Job) → guard j ≡ true → Moves j (change j))
        → Follows db.jobs (update_where guard change db.jobs)
    moved guard change allowed = (
      [],
      update_where guard change db.jobs,
      refl,
      tt,
      Evolve-update_where guard change allowed db.jobs,
    )

    keeps :
        {A : Type 0} (query : Db → A × Db)
        → Follows db.jobs (query db).1.jobs
        → Follows db.jobs (exec link query db).1.jobs
    keeps query h = exec_keeps (λ after. Follows db.jobs after.jobs) link query db same h

    go : (w : Write) → Follows db.jobs (apply link now w db).jobs
    go (save_profile fresh visitor career info) = keeps _ same
    go (create fresh visitor profile description model) =
        keeps _ (_ ∷ [], db.jobs, refl, (refl, tt), Evolve-refl db.jobs)
    go (render id cv) = keeps _ (moved (is_pending_job id) _ (λ j g. renders now cv (ground arith)))
    go (complete id key) =
        keeps _
          (moved (is_live_job id) _ (λ j g. completes now key (live_cases j.status (ground arith))))
    go (fail_processing id error) =
        keeps _ (moved (is_pending_job id) _ (λ j g. fails now error (inl (ground arith))))
    go (fail id error) =
        keeps _
          (moved (is_live_job id) _ (λ j g. fails now error (live_cases j.status (ground arith))))
    go (sweep older_than) = keeps _ (
        moved (is_stuck now older_than) _
          (λ j g. fails now (codes "job timed out") (live_cases j.status (ground arith))))
