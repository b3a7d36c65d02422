-- ===== src/Examples/Tables.antt =====
-- Writes to the tables.
use corrupt_cv.Common.{ℕ, ◌≡◌, refl, List, [], ◌∷◌, some, arith, codes, text_eq}
use corrupt_cv.Common.Int.{pos}
use corrupt_cv.Store.Rows.{Job, Db}
use corrupt_cv.Store.Query.{Link, up, lost, ok, get_job, list_jobs}
use corrupt_cv.Store.Listing.{IsListing, list_jobs-IsListing}
use corrupt_cv.Store.Write.{
  Write, create, render, complete, fail, fail_processing, sweep, apply, run,
}
use corrupt_cv.Store.Terminal.{row, run-terminal}
use corrupt_cv.Store.Reordered.{same, next, head}
use corrupt_cv.Store.Reordered.Answers.{run-Reorder_answers}
use corrupt_cv.Store.Lifecycle.{Follows, apply-Follows}
use corrupt_cv.Examples.Data.{profile, new_job, done_job, db_with}

abbrev late_writes : List (Link × ℕ × Write)
late_writes =
    (up, 90, fail (codes "j") (codes "late"))
    ∷ (lost, 91, complete (codes "j") (codes "other.pdf"))
    ∷ (up, 92, create (codes "k") (codes "v") (codes "p") (codes "Go") (codes "m"))
    ∷ (up, 900000000, sweep 600000000)
    ∷ []

run-terminal_example : row (codes "j") (run late_writes (db_with done_job)) ≡ some done_job
unfolding text_eq
run-terminal_example =
    run-terminal late_writes (db_with done_job) (codes "j") done_job refl refl
      (tt, (tt, (ground arith, (tt, tt))))

apply-Follows_example :
    Follows
      (new_job ∷ [])
      (apply up 5 (fail_processing (codes "j") (codes "no quota")) (db_with new_job)).jobs
apply-Follows_example =
    apply-Follows up 5 (fail_processing (codes "j") (codes "no quota")) (db_with new_job)

list_jobs-IsListing_example :
    (listed : List Job) × (rest : List Job) × (list_jobs up (codes "v") (pos 0) (db_with new_job)
      ≡ ok listed)
    × IsListing (codes "v") 20 (new_job ∷ []) listed rest
list_jobs-IsListing_example = list_jobs-IsListing (codes "v") (pos 0) (db_with new_job)

abbrev second_job : Job
second_job = record new_job { id = codes "k"; created_at = 7 }

abbrev two_jobs : Db
two_jobs = record { profiles = profile ∷ []; jobs = new_job ∷ second_job ∷ [] }

abbrev other_order : Db
other_order = record { profiles = profile ∷ []; jobs = second_job ∷ new_job ∷ [] }

abbrev two_writes : List (Link × ℕ × Write)
two_writes =
    (up, 5, render (codes "j") (codes "{}")) ∷ (lost, 6, complete (codes "j") (codes "j.pdf")) ∷ []

run-Reorder_answers_example :
    (get_job up (codes "j") (codes "v") (run two_writes two_jobs)
      ≡ get_job up (codes "j") (codes "v") (run two_writes other_order))
    × (list_jobs up (codes "v") (pos 5) (run two_writes two_jobs)
        ≡ list_jobs up (codes "v") (pos 5) (run two_writes other_order))
unfolding run text_eq apply
run-Reorder_answers_example =
    run-Reorder_answers two_writes two_jobs (second_job ∷ new_job ∷ []) up (codes "j") (codes "v")
      (pos 5) (next same (head new_job second_job [])) (((ground arith, omega arith), tt), (tt, tt))
