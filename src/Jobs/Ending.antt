-- ===== src/Jobs/Ending.antt =====
-- No job stays open for ever.
use mathlib.Core.Path.{subst}
use corrupt_cv.Common.{
  ℕ, ◌+◌, ◌≤◌, ◌<◌, ◌≡◌, refl, sym, false, List, [], ◌∷◌, arith, codes, All, inl, inr, Bool-cases,
}
use corrupt_cv.Events.{Codec}
use corrupt_cv.Store.Rows.{Job, Db, is_live}
use corrupt_cv.Store.Query.{
  Link, up, update_where, is_stuck, is_pending_job, is_live_job, as_rendering, as_completed,
  as_failed,
}
use corrupt_cv.Store.Write.{
  Write, save_profile, create, render, complete, fail_processing, fail, sweep, apply,
}
use corrupt_cv.Store.Updates.{All-update_where, exec_keeps}
use corrupt_cv.Jobs.Runner.{Runner, sweep_tick, ten_minutes}
use corrupt_cv.Jobs.Counting.{Input, react, react_all}
use corrupt_cv.Jobs.Writes.{Wrote-react, sweep_tick-db, link_of, time_of}

-- No row was written after a time.
abbrev pub IsOld : ℕ → Db → Type 0
IsOld t db = All (λ (j : Job). j.updated_at ≤ t) db.jobs

module _ (t : ℕ) (link : Link) (now : ℕ) (le : now ≤ t) where
  abbrev IsOldRow : Job → Type 0
  IsOldRow j = j.updated_at ≤ t

  IsOld-apply : (w : Write) (db : Db) → IsOld t db → IsOld t (apply link now w db)
  unfolding apply
  IsOld-apply (save_profile fresh visitor career info) db h = exec_keeps (IsOld t) link _ db h h
  IsOld-apply (create fresh visitor profile description model) db h =
      exec_keeps (IsOld t) link _ db h (le, h)
  IsOld-apply (render id cv) db h =
      exec_keeps (IsOld t) link _ db h (
        All-update_where (is_pending_job id) (as_rendering now cv) IsOldRow db.jobs (λ j k g. le) h)
  IsOld-apply (complete id key) db h =
      exec_keeps (IsOld t) link _ db h
        (All-update_where (is_live_job id) (as_completed now key) IsOldRow db.jobs (λ j k g. le) h)
  IsOld-apply (fail_processing id error) db h =
      exec_keeps (IsOld t) link _ db h (
        All-update_where (is_pending_job id) (as_failed now error) IsOldRow db.jobs (λ j k g. le) h)
  IsOld-apply (fail id error) db h =
      exec_keeps (IsOld t) link _ db h
        (All-update_where (is_live_job id) (as_failed now error) IsOldRow db.jobs (λ j k g. le) h)
  IsOld-apply (sweep older_than) db h = exec_keeps (IsOld t) link _ db h (
      All-update_where (is_stuck now older_than) (as_failed now (codes "job timed out")) IsOldRow
        db.jobs (λ j k g. le) h)

IsOld-react :
    (codec : Codec) (t : ℕ) (i : Input) (r : Runner)
    → time_of i ≤ t
    → IsOld t r.db
    → IsOld t (react codec i r).db
IsOld-react codec t i r le h = elim (Wrote-react codec i r) [
  | inl same ↦ subst (IsOld t) (sym same) h
  | inr (w, wrote, _) ↦
      subst (IsOld t) (sym wrote) (IsOld-apply t (link_of i) (time_of i) le w r.db h)
]

IsOld-react_all :
    (codec : Codec) (t : ℕ) (is : List Input) (r : Runner)
    → All (λ (i : Input). time_of i ≤ t) is
    → IsOld t r.db
    → IsOld t (react_all codec is r).db
unfolding react_all
IsOld-react_all codec t [] r _ h = h
IsOld-react_all codec t (i ∷ is) r (le, later) h =
    IsOld-react_all codec t is (react codec i r) later (IsOld-react codec t i r le h)

-- A sweep of old rows leaves none open.
swept_closed :
    (t now : ℕ) (rows : List Job)
    → t + ten_minutes < now
    → All (λ (j : Job). j.updated_at ≤ t) rows
    → All
        (λ (j : Job). is_live j.status ≡ false)
        (update_where (is_stuck now ten_minutes) (as_failed now (codes "job timed out")) rows)
unfolding update_where
swept_closed t now [] gap _ = tt
swept_closed t now (j ∷ js) gap (here, later) = elim (Bool-cases (is_stuck now ten_minutes j)) [
  | inl stuck ↦ rw stuck (refl, swept_closed t now js gap later)
  | inr open_j ↦ rw open_j (ground arith, swept_closed t now js gap later)
]

-- If the runner is given nothing after a time, and no row was written after it from elsewhere,
-- then the first sweep more than ten minutes later that the database answers leaves every job
-- completed or failed, whatever the runner did before.
pub quiet_ends :
    (codec : Codec) (t now : ℕ) (is : List Input) (r : Runner)
    → All (λ (j : Job). j.updated_at ≤ t) r.db.jobs
    → All (λ (i : Input). time_of i ≤ t) is
    → t + ten_minutes < now
    → All (λ (j : Job). is_live j.status ≡ false) (sweep_tick up now (react_all codec is r)).db.jobs
unfolding apply
quiet_ends codec t now is r old inputs gap =
    let quiet = react_all codec is r in
    subst (λ (db : Db). All (λ (j : Job). is_live j.status ≡ false) db.jobs)
      (sym (sweep_tick-db up now quiet))
      (swept_closed t now quiet.db.jobs gap (IsOld-react_all codec t is r inputs old))
