-- ===== src/Jobs/Counting.antt =====
-- What the counters count.
use corrupt_cv.Common.{
  ℕ, ◌+◌, ◌≤◌, ◌≡◌, refl, ap, List, [], ◌∷◌, Option, none, some, arith, Text, Bytes, codes, length,
  count_if, inl, inr, Bool-cases, ltb,
}
use corrupt_cv.Events.{
  JobStage, processing, Timestamp, JobStructured, JobRendered, JobFailed, Codec,
}
use corrupt_cv.Store.Rows.{Status, completed, failed, Job, Db}
use corrupt_cv.Store.Query.{
  Link, up, refused, lost, Result, ok, err, update_where, is_pending_job, as_rendering, as_failed,
  is_stuck, mark_rendering, sweep_stuck,
}
use corrupt_cv.Jetstream.Subject.{parse_subject}
use corrupt_cv.Jobs.Runner.{
  Msg, Runner, record_terminal, finish, on_structured, mark_structured, mark_with, mark_document,
  on_rendered, on_failed, mark_by_stage, handle_parsed, apply_to, apply_event-refused, fail_job,
  apply_event_cases, handle_msg, Stream, handle_advisory, poison, max_deliveries_error,
  fail_poisoned, lookup_poisoned, fetch_poisoned, add_swept, sweep_tick, ten_minutes,
}
use corrupt_cv.Jobs.Closing.{
  live_rows, live-count_if, live-update_where, Closes, Closes-mark_completed, Closes-mark_failed,
  Closes-mark_failed_processing,
}

-- Jobs counted as terminal or as swept, and jobs that are yet to be.
abbrev pub ledger : Runner → ℕ
ledger r = length r.jobs_total + r.jobs_swept + live_rows r.db.jobs

ledger-finish :
    (now : ℕ) (status : Status) (at : Timestamp) (result : Result (Option ℕ)) (db : Db) (r : Runner)
    → Closes r.db (result, db)
    → ledger (finish now status at (result, db) r).0 ≤ ledger r
unfolding record_terminal
ledger-finish now status at (ok none) db r h = omega arith
ledger-finish now status at (ok (some created)) db r h = omega arith
ledger-finish now status at (err e) db r h = omega arith

module _ (codec : Codec) (link : Link) (now : ℕ) (id : Text) (r : Runner) where
  ledger-mark_structured :
      (json : Option Text) → ledger (mark_structured codec link now id r json).0 ≤ ledger r
  ledger-mark_structured none = omega arith
  ledger-mark_structured (some json) = document (codec.jsonb json)
    where
      same :
          (t : Text)
          → live_rows (update_where (is_pending_job id) (as_rendering now t) r.db.jobs)
            ≡ live_rows r.db.jobs
      same t =
          live-update_where (is_pending_job id) (as_rendering now t) (λ j g. ground arith) r.db.jobs
            (λ j. refl)

      go : (t : Text) (l : Link) → ledger (mark_with codec link now id r l t).0 ≤ ledger r
      go t up = unfold mark_rendering in omega (arith, same t)
      go t refused = unfold mark_rendering in omega arith
      go t lost = unfold mark_rendering in omega (arith, same t)

      document : (o : Option Text) → ledger (mark_document codec link now id r json o).0 ≤ ledger r
      document none = go json refused
      document (some t) = go t link

  ledger-on_structured :
      (o : Option JobStructured) → ledger (on_structured codec link now id r o).0 ≤ ledger r
  ledger-on_structured none = omega arith
  ledger-on_structured (some ev) = ledger-mark_structured (codec.cv_json ev.cv)

  ledger-on_rendered :
      (o : Option JobRendered) → ledger (on_rendered codec link now id r o).0 ≤ ledger r
  ledger-on_rendered none = omega arith
  ledger-on_rendered (some ev) =
      ledger-finish now completed ev.occurred_at _ _ r
        (Closes-mark_completed link now id ev.pdf_object_key r.db)

  Closes-mark_by_stage :
      (stage : JobStage) (error : Text)
      → Closes r.db (mark_by_stage codec link now id r stage error)
  Closes-mark_by_stage processing error = Closes-mark_failed_processing link now id error r.db
  Closes-mark_by_stage _ error = Closes-mark_failed link now id error r.db

  ledger-on_failed : (o : Option JobFailed) → ledger (on_failed codec link now id r o).0 ≤ ledger r
  ledger-on_failed none = omega arith
  ledger-on_failed (some ev) =
      ledger-finish now failed ev.occurred_at _ _ r (Closes-mark_by_stage ev.stage ev.error)

ledger-handle_msg :
    (codec : Codec) (link : Link) (now : ℕ) (msg : Msg) (r : Runner)
    → ledger (handle_msg codec link now msg r).0 ≤ ledger r
unfolding handle_msg
ledger-handle_msg codec link now msg r = go (parse_subject msg.subject)
  where
    go :
        (parsed : Option (Text × Text))
        → ledger (handle_parsed codec link now msg.payload r parsed).0 ≤ ledger r
    go none = omega arith
    go (some (job, event)) = at_id (codec.uuid job)
      where
        at_id :
            (o : Option Text)
            → ledger (apply_to codec link now job event msg.payload r o).0 ≤ ledger r
        at_id none = rw (apply_event-refused codec now job r event msg.payload) (omega arith)
        at_id (some id) =
            apply_event_cases codec link now id r (λ out. ledger out.0 ≤ ledger r) (omega arith)
              (ledger-on_structured codec link now id r) (ledger-on_rendered codec link now id r)
              (ledger-on_failed codec link now id r) (omega arith) event msg.payload

ledger-poison :
    (now : ℕ) (event : Text) (result : Result (Option ℕ)) (db : Db) (r : Runner)
    → Closes r.db (result, db)
    → ledger (poison now event result (record r { db = db })) ≤ ledger r
unfolding record_terminal
ledger-poison now event (ok none) db r h = omega arith
ledger-poison now event (ok (some created)) db r h = omega arith
ledger-poison now event (err e) db r h = omega arith

ledger-handle_advisory :
    (codec : Codec) (stream : Stream) (link : Link) (now : ℕ) (payload : Bytes) (r : Runner)
    → ledger (handle_advisory codec stream link now payload r) ≤ ledger r
unfolding handle_advisory
ledger-handle_advisory codec stream link now payload r = fetch (stream.advisory payload)
  where
    fail :
        (parsed : Option (Text × Text)) → ledger (fail_poisoned codec link now r parsed) ≤ ledger r
    fail none = omega arith
    fail (some (job, event)) = at_id (codec.uuid job)
      where
        at_id : (o : Option Text) → ledger (fail_job link now event r o) ≤ ledger r
        at_id none = omega arith
        at_id (some id) =
            ledger-poison now event _ _ r (Closes-mark_failed link now id max_deliveries_error r.db)

    found : (subject : Option Text) → ledger (lookup_poisoned codec link now r subject) ≤ ledger r
    found none = omega arith
    found (some subject) = fail (parse_subject subject)

    fetch : (seq : Option ℕ) → ledger (fetch_poisoned codec stream link now r seq) ≤ ledger r
    fetch none = omega arith
    fetch (some seq) = elim (Bool-cases stream.reachable) [
      | inl e ↦ rw e (found (stream.get_msg seq))
      | inr e ↦ rw e (omega arith)
    ]

-- The test `swept > 0` changes nothing of the sum.
abbrev Added : ℕ → Runner → Runner → Type 0
Added n r r' = (r'.jobs_swept ≡ r.jobs_swept + n) × (r'.jobs_total ≡ r.jobs_total) × (r'.db ≡ r.db)

add_swept-counts : (n : ℕ) (r : Runner) → Added n r (add_swept (ok n) r)
add_swept-counts n r = elim (Bool-cases (ltb 0 n)) [
  | inl e ↦ rw e (refl, refl, refl)
  | inr e ↦ rw e (ground arith, refl, refl)
]

swept_rows : ℕ → List Job → List Job
swept_rows now = update_where (is_stuck now ten_minutes) (as_failed now (codes "job timed out"))

count-swept_rows :
    (now : ℕ) (rows : List Job)
    → count_if (is_stuck now ten_minutes) rows + live_rows (swept_rows now rows) ≡ live_rows rows
unfolding swept_rows
count-swept_rows now rows =
    live-count_if (is_stuck now ten_minutes) (as_failed now (codes "job timed out"))
      (λ j g. ground arith) rows (λ j. refl)

-- If the database answers, jobs that a sweep fails are counted by cvgen.jobs.swept.total, one for one, and by
-- cvgen.jobs.total not at all.
pub sweep_tick_counts :
    (now : ℕ) (r : Runner)
    → let r' = sweep_tick up now r in
      (r'.jobs_swept + live_rows r'.db.jobs ≡ r.jobs_swept + live_rows r.db.jobs)
      × (r'.jobs_total ≡ r.jobs_total)
unfolding sweep_tick sweep_stuck swept_rows
sweep_tick_counts now r =
    let rows = swept_rows now r.db.jobs in
    let after : Runner = record r { db = record r.db { jobs = rows } } in
    let (swept, total, kept) =
      add_swept-counts (count_if (is_stuck now ten_minutes) r.db.jobs) after in
    (rw (swept, kept) (omega (arith, count-swept_rows now r.db.jobs)), total)

ledger-sweep_tick : (link : Link) (now : ℕ) (r : Runner) → ledger (sweep_tick link now r) ≤ ledger r
ledger-sweep_tick up now r =
    let (kept, total) = sweep_tick_counts now r in omega (arith, kept, ap length total)
ledger-sweep_tick refused now r = unfold sweep_tick sweep_stuck in omega arith
ledger-sweep_tick lost now r =
    unfold sweep_tick sweep_stuck swept_rows in omega (arith, count-swept_rows now r.db.jobs)

-- What reaches the runner: a message of the stream, an advisory, a tick of the sweeper's clock.
pub data Input : Type 0 where
  delivery : Link → ℕ → Msg → Input
  advisory : Stream → Link → ℕ → Bytes → Input
  tick : Link → ℕ → Input

unfoldable pub react : Codec → Input → Runner → Runner
react codec (delivery link now msg) r = (handle_msg codec link now msg r).0
react codec (advisory stream link now payload) r = handle_advisory codec stream link now payload r
react codec (tick link now) r = sweep_tick link now r

unfoldable pub react_all : Codec → List Input → Runner → Runner
unfolding react
react_all codec [] r = r
react_all codec (i ∷ is) r = react_all codec is (react codec i r)

ledger-react : (codec : Codec) (i : Input) (r : Runner) → ledger (react codec i r) ≤ ledger r
unfolding react
ledger-react codec (delivery link now msg) r = ledger-handle_msg codec link now msg r
ledger-react codec (advisory stream link now payload) r =
    ledger-handle_advisory codec stream link now payload r
ledger-react codec (tick link now) r = ledger-sweep_tick link now r

-- However often messages are delivered, advisories sent and sweeps made, answered or not: the
-- jobs counted as terminal or swept, with those still live, are never more than at the start.
pub ledger-react_all :
    (codec : Codec) (is : List Input) (r : Runner) → ledger (react_all codec is r) ≤ ledger r
unfolding react_all
ledger-react_all codec [] r = omega arith
ledger-react_all codec (i ∷ is) r =
    omega (arith, ledger-react_all codec is (react codec i r), ledger-react codec i r)
