-- ===== src/Examples/Projection.antt =====
-- The runner.
use mathlib.Core.Option
use corrupt_cv.Store.Rows.{Job, is_live}
use corrupt_cv.Jobs.Ending.{quiet_ends}
use corrupt_cv.Common.{All, arith, false, ℕ, ◌≤◌, ◌≡◌, List, [], ◌∷◌, codes}
use corrupt_cv.Store.Query.{up, lost}
use corrupt_cv.Jobs.Runner.{Msg, handle_msg, sweep_tick}
use corrupt_cv.Jobs.Fact.{status_in, project}
use corrupt_cv.Jobs.Spec.{consume, consume-refines}
use corrupt_cv.Jobs.Redelivery.{handle_msg_again}
use corrupt_cv.Jobs.Counting.{Input, delivery, tick, react_all, ledger, ledger-react_all}
use corrupt_cv.Examples.Data.{
  codec, new_job, structured_job, runner_with, structured_msg, rendered_msg, failed_msg,
}

abbrev in_order : List (ℕ × Msg)
in_order = (10, structured_msg) ∷ (20, rendered_msg) ∷ (30, failed_msg) ∷ []

consume-refines_example :
    status_in (codes "j") (consume codec in_order (runner_with new_job)).db.jobs
    ≡ Option.map
        (project codec (codes "j") in_order)
        (status_in (codes "j") (runner_with new_job).db.jobs)
consume-refines_example = consume-refines codec in_order (runner_with new_job) (codes "j")

handle_msg_again_example :
    handle_msg codec up 60 rendered_msg
      (handle_msg codec up 50 rendered_msg (runner_with structured_job)).0
    ≡ handle_msg codec up 50 rendered_msg (runner_with structured_job)
handle_msg_again_example = handle_msg_again codec 50 60 rendered_msg (runner_with structured_job)

abbrev inputs : List Input
inputs =
    delivery lost 10 structured_msg
    ∷ delivery up 20 rendered_msg
    ∷ delivery up 21 rendered_msg
    ∷ tick up 900000000
    ∷ []

ledger-react_all_example :
    ledger (react_all codec inputs (runner_with new_job)) ≤ ledger (runner_with new_job)
ledger-react_all_example = ledger-react_all codec inputs (runner_with new_job)

quiet_ends_example :
    All
      (λ (j : Job). is_live j.status ≡ false)
      (sweep_tick up 900000000
        (react_all codec (delivery lost 10 structured_msg ∷ []) (runner_with new_job))).db.jobs
quiet_ends_example =
    quiet_ends codec 10 900000000 (delivery lost 10 structured_msg ∷ []) (runner_with new_job)
      (omega arith, tt) (omega arith, tt) (omega arith)
