-- ===== src/Jobs/Runner.antt =====
-- The handlers of `Runner`. Its state is the tables and the counters; a handler returns the state
-- and what it does with the message. Logs and spans are left out.
use corrupt_cv.Common.{
  ℕ, ◌+◌, ◌≡◌, refl, Bool, List, ◌∷◌, Option, none, some, Text, Bytes, codes, text_eq, ltb, inl,
  inr, Bool-cases, if◌then◌else◌,
}
use corrupt_cv.Common.Int.{ℤ, sub_ℕ}
use corrupt_cv.Events.{
  JobStage, processing, Timestamp, JobStructured, JobRendered, JobFailed, Codec,
}
use corrupt_cv.Store.Rows.{Status, completed, failed, Db}
use corrupt_cv.Store.Query.{
  Link, refused, Result, ok, err, mark_rendering, mark_completed, mark_failed,
  mark_failed_processing, sweep_stuck,
}
use corrupt_cv.Jetstream.Subject.{
  parse_subject, event_requested, event_structured, event_rendered, event_failed,
}

-- One record of cvgen.jobs.total and of cvgen.job.duration.
pub record Terminal : Type 0 where
  pub status : Status
  pub duration : ℤ

pub record Runner : Type 0 where
  pub db : Db
  pub jobs_total : List Terminal
  pub jobs_swept : ℕ
  pub jobs_poisoned : List Text

pub record Msg : Type 0 where
  pub subject : Text
  pub payload : Bytes

pub data Settlement : Type 0 where
  ack nak term : Settlement

abbrev pub end_of : Timestamp → ℕ → ℕ
end_of none now = now
end_of (some t) now = t

-- `recordTerminal`
unfoldable pub record_terminal : ℕ → Status → ℕ → Timestamp → Runner → Runner
record_terminal now status created occurred r = record r {
  jobs_total =
      record { status = status; duration = sub_ℕ (end_of occurred now) created } ∷ r.jobs_total;
}

-- The tail of `handleMsg`: an error naks, everything else acks.
abbrev pub settle {ℓ} : {A : Type ℓ} → Result A → Settlement
settle (ok a) = ack
settle (err e) = nak

-- `if err == nil && applied { r.recordTerminal(…) }`
abbrev pub record_applied : ℕ → Status → Timestamp → Result (Option ℕ) → Runner → Runner
record_applied now status occurred (ok (some created)) r =
    record_terminal now status created occurred r
record_applied now status occurred (ok none) r = r
record_applied now status occurred (err e) r = r

abbrev pub finish : ℕ → Status → Timestamp → Result (Option ℕ) × Db → Runner → Runner × Settlement
finish now status occurred (result, db) r =
    (record_applied now status occurred result (record r { db = db }), settle result)

module _ (codec : Codec) (link : Link) (now : ℕ) (job : Text) (r : Runner) where
  -- The CV goes into a column of type jsonb: a text that is none makes the update fail.
  abbrev pub mark_with : Link → Text → Runner × Settlement
  mark_with l document =
      let (result, db) = mark_rendering l now job document r.db in
      (record r { db = db }, settle result)

  abbrev pub mark_document : Text → Option Text → Runner × Settlement
  mark_document json none = mark_with refused json
  mark_document json (some document) = mark_with link document

  abbrev pub mark_structured : Option Text → Runner × Settlement
  mark_structured none = (r, term)
  mark_structured (some json) = mark_document json (codec.jsonb json)

  abbrev pub on_structured : Option JobStructured → Runner × Settlement
  on_structured none = (r, term)
  on_structured (some ev) = mark_structured (codec.cv_json ev.cv)

  abbrev pub on_rendered : Option JobRendered → Runner × Settlement
  on_rendered none = (r, term)
  on_rendered (some ev) =
      finish now completed ev.occurred_at (mark_completed link now job ev.pdf_object_key r.db) r

  -- `mark := r.st.MarkFailed`, or `r.st.MarkFailedProcessing` for the processing stage.
  abbrev pub mark_by_stage : JobStage → Text → Result (Option ℕ) × Db
  mark_by_stage processing error = mark_failed_processing link now job error r.db
  mark_by_stage _ error = mark_failed link now job error r.db

  abbrev pub on_failed : Option JobFailed → Runner × Settlement
  on_failed none = (r, term)
  on_failed (some ev) = finish now failed ev.occurred_at (mark_by_stage ev.stage ev.error) r

  -- The `switch` of `handleMsg`.
  unfoldable pub apply_event : Text → Bytes → Runner × Settlement
  unfolding record_terminal
  apply_event event payload =
      if text_eq event event_requested
      then (r, ack)
      else if text_eq event event_structured
      then on_structured (codec.structured payload)
      else if text_eq event event_rendered
      then on_rendered (codec.rendered payload)
      else if text_eq event event_failed
      then on_failed (codec.failed payload)
      else (r, term)

-- The id of the subject as a parameter of a query on jobs.id: a text that is no uuid makes the
-- query fail.
abbrev pub apply_to :
    Codec → Link → ℕ → Text → Text → Bytes → Runner → Option Text → Runner × Settlement
apply_to codec link now job event payload r none = apply_event codec refused now job r event payload
apply_to codec link now job event payload r (some id) =
    apply_event codec link now id r event payload

abbrev pub handle_parsed :
    Codec → Link → ℕ → Bytes → Runner → Option (Text × Text) → Runner × Settlement
handle_parsed codec link now payload r none = (r, term)
handle_parsed codec link now payload r (some (job, event)) =
    apply_to codec link now job event payload r (codec.uuid job)

-- `handleMsg`
unfoldable pub handle_msg : Codec → Link → ℕ → Msg → Runner → Runner × Settlement
unfolding apply_event
handle_msg codec link now msg r =
    handle_parsed codec link now msg.payload r (parse_subject msg.subject)

-- What `handleAdvisory` meets on its way: the stream sequence in the advisory, the lookup of the
-- stream, and the subject of the message at a sequence.
pub record Stream : Type 0 where
  pub advisory : Bytes → Option ℕ
  pub reachable : Bool
  pub get_msg : ℕ → Option Text

abbrev pub max_deliveries_error : Text
max_deliveries_error = codes "processing failed repeatedly"

abbrev pub poison : ℕ → Text → Result (Option ℕ) → Runner → Runner
poison now event (ok (some created)) r =
    record_terminal now failed created none (record r { jobs_poisoned = event ∷ r.jobs_poisoned })
poison now event (ok none) r = r
poison now event (err e) r = r

abbrev pub fail_job : Link → ℕ → Text → Runner → Option Text → Runner
fail_job link now event r none = r
fail_job link now event r (some id) =
    let (result, db) = mark_failed link now id max_deliveries_error r.db in
    poison now event result (record r { db = db })

abbrev pub fail_poisoned : Codec → Link → ℕ → Runner → Option (Text × Text) → Runner
fail_poisoned codec link now r none = r
fail_poisoned codec link now r (some (job, event)) = fail_job link now event r (codec.uuid job)

abbrev pub lookup_poisoned : Codec → Link → ℕ → Runner → Option Text → Runner
lookup_poisoned codec link now r none = r
lookup_poisoned codec link now r (some subject) =
    fail_poisoned codec link now r (parse_subject subject)

abbrev pub fetch_poisoned : Codec → Stream → Link → ℕ → Runner → Option ℕ → Runner
fetch_poisoned codec stream link now r none = r
fetch_poisoned codec stream link now r (some seq) =
    if stream.reachable then lookup_poisoned codec link now r (stream.get_msg seq) else r

-- `handleAdvisory`. An id that is no uuid makes the update fail, which is only logged.
unfoldable pub handle_advisory : Codec → Stream → Link → ℕ → Bytes → Runner → Runner
unfolding record_terminal
handle_advisory codec stream link now payload r =
    fetch_poisoned codec stream link now r (stream.advisory payload)

-- `10*time.Minute`
abbrev pub ten_minutes : ℕ
ten_minutes = 600000000

abbrev pub add_swept : Result ℕ → Runner → Runner
add_swept (ok n) r = if ltb 0 n then record r { jobs_swept = r.jobs_swept + n } else r
add_swept (err e) r = r

-- One tick of `sweep`. The gauges that it records then are `record_backlog`.
unfoldable pub sweep_tick : Link → ℕ → Runner → Runner
sweep_tick link now r =
    let (result, db) = sweep_stuck link now ten_minutes r.db in
    add_swept result (record r { db = db })

-- To prove something of what the switch returns, prove it of each of its cases.
pub apply_event_cases {κ} :
    (codec : Codec) (link : Link) (now : ℕ) (job : Text) (r : Runner)
    (P : Runner × Settlement → Type κ)
    → P (r, ack)
    → ((o : Option JobStructured) → P (on_structured codec link now job r o))
    → ((o : Option JobRendered) → P (on_rendered codec link now job r o))
    → ((o : Option JobFailed) → P (on_failed codec link now job r o))
    → P (r, term)
    → (event : Text) (payload : Bytes) → P (apply_event codec link now job r event payload)
unfolding apply_event
apply_event_cases codec link now job r P requested structured rendered broken unknown event
      payload =
    elim (Bool-cases (text_eq event event_requested)) [
      | inl e ↦ rw e requested
      | inr e ↦ rw e (elim (Bool-cases (text_eq event event_structured)) [
        | inl e ↦ rw e (structured (codec.structured payload))
        | inr e ↦ rw e (elim (Bool-cases (text_eq event event_rendered)) [
          | inl e ↦ rw e (rendered (codec.rendered payload))
          | inr e ↦ rw e (elim (Bool-cases (text_eq event event_failed)) [
            | inl e ↦ rw e (broken (codec.failed payload))
            | inr e ↦ rw e unknown
          ])
        ])
      ])
    ]

-- A delivery whose update the database never runs leaves the runner alone.
pub apply_event-refused :
    (codec : Codec) (now : ℕ) (job : Text) (r : Runner) (event : Text) (payload : Bytes)
    → (apply_event codec refused now job r event payload).0 ≡ r
unfolding mark_rendering mark_completed mark_failed mark_failed_processing
apply_event-refused codec now job r event payload =
    apply_event_cases codec refused now job r (λ out. out.0 ≡ r) refl structured rendered broken
      refl event payload
  where
    structured : (o : Option JobStructured) → (on_structured codec refused now job r o).0 ≡ r
    structured none = refl
    structured (some ev) = json (codec.cv_json ev.cv)
      where
        json : (o : Option Text) → (mark_structured codec refused now job r o).0 ≡ r
        json none = refl
        json (some t) = document (codec.jsonb t)
          where
            document : (o : Option Text) → (mark_document codec refused now job r t o).0 ≡ r
            document none = refl
            document (some d) = refl

    rendered : (o : Option JobRendered) → (on_rendered codec refused now job r o).0 ≡ r
    rendered none = refl
    rendered (some ev) = refl

    broken : (o : Option JobFailed) → (on_failed codec refused now job r o).0 ≡ r
    broken none = refl
    broken (some ev) = stage ev.stage
      where
        stage :
            (s : JobStage)
            → (finish now failed ev.occurred_at
                (mark_by_stage codec refused now job r s ev.error)
                r).0
              ≡ r
        stage processing = refl
        stage _ = refl
