-- ===== src/Store/Ownership.antt =====
-- A row keeps its visitor.
use mathlib.Core.Option
use corrupt_cv.Common.{
  ℕ, ◌≡◌, refl, ap, Bool, List, [], ◌∷◌, Option, some, arith, Text, codes, find, text_eq,
  text_eq_iff, inl, inr, Bool-cases,
}
use corrupt_cv.Store.Rows.{Job, Db}
use corrupt_cv.Store.Query.{
  Link, update_where, is_pending_job, is_live_job, is_stuck, is_job_of, as_rendering, as_completed,
  as_failed,
}
use corrupt_cv.Store.Write.{
  Write, save_profile, create, render, complete, fail_processing, fail, sweep, apply,
}
use corrupt_cv.Store.Updates.{exec_keeps}
use corrupt_cv.Store.Terminal.{has_id, IsFresh}

-- The visitor of a job.
abbrev pub owner_in : Text → List Job → Option Text
owner_in id rows = Option.map (λ (j : Job). j.visitor_id) (find (has_id id) rows)

owner_in-update_where :
    (id : Text) (guard : Job → Bool) (change : Job → Job) (rows : List Job)
    → ((j : Job) → (change j).id ≡ j.id)
    → ((j : Job) → (change j).visitor_id ≡ j.visitor_id)
    → owner_in id (update_where guard change rows) ≡ owner_in id rows
unfolding update_where
owner_in-update_where id guard change [] keeps owned = refl
owner_in-update_where id guard change (j ∷ js) keeps owned = ground (
  arith,
  text_eq_iff j.id id,
  keeps j,
  owned j,
  owner_in-update_where id guard change js keeps owned,
)

-- No write but one that creates the row changes the visitor of a job.
pub owner_in-apply :
    (id : Text) (link : Link) (now : ℕ) (w : Write) (db : Db)
    → IsFresh id w
    → owner_in id (apply link now w db).jobs ≡ owner_in id db.jobs
unfolding apply
owner_in-apply id link now w db new = go w new
  where
    Same : Db → Type 0
    Same after = owner_in id after.jobs ≡ owner_in id db.jobs

    updated :
        (guard : Job → Bool) (change : Job → Job)
        → ((j : Job) → (change j).id ≡ j.id)
        → ((j : Job) → (change j).visitor_id ≡ j.visitor_id)
        → owner_in id (update_where guard change db.jobs) ≡ owner_in id db.jobs
    updated guard change keeps owned = owner_in-update_where id guard change db.jobs keeps owned

    go : (w : Write) → IsFresh id w → owner_in id (apply link now w db).jobs ≡ owner_in id db.jobs
    go (save_profile fresh visitor career info) _ = exec_keeps Same link _ db refl refl
    go (create fresh visitor profile description model) new =
        exec_keeps Same link _ db refl (ground (arith, text_eq_iff fresh id))
    go (render i cv) _ =
        exec_keeps Same link _ db refl
          (updated (is_pending_job i) (as_rendering now cv) (λ j. refl) (λ j. refl))
    go (complete i key) _ =
        exec_keeps Same link _ db refl
          (updated (is_live_job i) (as_completed now key) (λ j. refl) (λ j. refl))
    go (fail_processing i error) _ =
        exec_keeps Same link _ db refl
          (updated (is_pending_job i) (as_failed now error) (λ j. refl) (λ j. refl))
    go (fail i error) _ =
        exec_keeps Same link _ db refl
          (updated (is_live_job i) (as_failed now error) (λ j. refl) (λ j. refl))
    go (sweep older_than) _ = exec_keeps Same link _ db refl (
        updated (is_stuck now older_than) (as_failed now (codes "job timed out")) (λ j. refl)
          (λ j. refl))

-- The row of a job is found for its visitor.
pub find-is_job_of :
    (id visitor : Text) (rows : List Job) (j : Job)
    → find (has_id id) rows ≡ some j
    → j.visitor_id ≡ visitor
    → find (is_job_of id visitor) rows ≡ some j
find-is_job_of id visitor [] j found owned = cc
find-is_job_of id visitor (k ∷ ks) j found owned = elim (Bool-cases (text_eq k.id id)) [
  | inl e ↦
      let same : k ≡ j = ground arith in
      ground (arith, e, same, ap (λ (i : Job). i.visitor_id) same, text_eq_iff k.visitor_id visitor)
  | inr e ↦ ground (arith, e, find-is_job_of id visitor ks j (rw e at found) owned)
]
