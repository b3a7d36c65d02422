-- ===== src/Jobs/Redelivery.antt =====
-- JetStream delivers at least once: what a second delivery of a message does.
use corrupt_cv.Common.{
  ◌∙◌, ℕ, ◌≡◌, refl, ap, Option, none, some, arith, Text, Bytes, text_eq, inl, inr, Bool-cases,
}
use corrupt_cv.Events.{
  JobStage, processing, Timestamp, JobStructured, JobRendered, JobFailed, Codec,
}
use corrupt_cv.Store.Rows.{Status, completed, failed, Db}
use corrupt_cv.Store.Query.{
  refused, up, Result, ok, is_pending_job, is_live_job, as_rendering, as_completed, as_failed,
  mark_rendering, mark_completed, mark_failed, mark_failed_processing,
}
use corrupt_cv.Store.Updates.{update_returning_again, update_where_closes, update_where-none}
use corrupt_cv.Jetstream.Subject.{
  parse_subject, event_requested, event_structured, event_rendered, event_failed,
}
use corrupt_cv.Jobs.Runner.{
  Msg, Runner, Settlement, settle, record_terminal, finish, on_structured, mark_structured,
  mark_document, on_rendered, on_failed, mark_by_stage, handle_parsed, apply_to,
  apply_event-refused, apply_event, handle_msg,
}

-- A transition that is made again: no row, and the tables that the first one left.
abbrev MadeAgain : Result (Option ℕ) × Db → Result (Option ℕ) × Db → Type 0
MadeAgain first second = second ≡ (ok none, first.1)

abbrev answered : Option ℕ × Db → Result (Option ℕ) × Db
answered (o, db) = (ok o, db)

module _ (now later : ℕ) (id : Text) (db : Db) where
  mark_rendering_again :
      (cv : Text)
      → mark_rendering up later id cv (mark_rendering up now id cv db).1
        ≡ mark_rendering up now id cv db
  unfolding mark_rendering
  mark_rendering_again cv =
      rw
        (update_where-none (is_pending_job id) (as_rendering later cv) _ (
          update_where_closes (is_pending_job id) (as_rendering now cv) (λ j g. ground arith)
            db.jobs))
        refl

  mark_completed_again :
      (key : Text)
      → MadeAgain
          (mark_completed up now id key db)
          (mark_completed up later id key (mark_completed up now id key db).1)
  unfolding mark_completed
  mark_completed_again key = ap answered (
      update_returning_again (is_live_job id) (as_completed now key) (as_completed later key) db
        (λ j g. ground arith))

  mark_failed_again :
      (error : Text)
      → MadeAgain
          (mark_failed up now id error db)
          (mark_failed up later id error (mark_failed up now id error db).1)
  unfolding mark_failed
  mark_failed_again error = ap answered (
      update_returning_again (is_live_job id) (as_failed now error) (as_failed later error) db
        (λ j g. ground arith))

  mark_failed_processing_again :
      (error : Text)
      → MadeAgain
          (mark_failed_processing up now id error db)
          (mark_failed_processing up later id error (mark_failed_processing up now id error db).1)
  unfolding mark_failed_processing
  mark_failed_processing_again error = ap answered (
      update_returning_again (is_pending_job id) (as_failed now error) (as_failed later error) db
        (λ j g. ground arith))

module _ (now later : ℕ) (status : Status) (at : Timestamp) where
  -- `mark` is the transition of a second delivery, which finds no row.
  finish_again :
      (mark : Db → Result (Option ℕ) × Db) (o : Option ℕ) (db : Db) (r : Runner)
      → mark db ≡ (ok none, db)
      → (let (r', s) = finish now status at (ok o, db) r in finish later status at (mark r'.db) r')
        ≡ finish now status at (ok o, db) r
  unfolding record_terminal
  finish_again mark none db r again = rw again refl
  finish_again mark (some created) db r again = rw again refl

module _ (codec : Codec) (now later : ℕ) (id : Text) (r : Runner) where
  abbrev Absorbed : (Runner → Runner × Settlement) → Runner × Settlement → Type 0
  Absorbed second first = second first.0 ≡ first

  structured_again :
      (o : Option JobStructured)
      → Absorbed (λ r'. on_structured codec up later id r' o) (on_structured codec up now id r o)
  structured_again none = refl
  structured_again (some ev) = go (codec.cv_json ev.cv)
    where
      go :
          (json : Option Text)
          → Absorbed
              (λ r'. mark_structured codec up later id r' json)
              (mark_structured codec up now id r json)
      go none = refl
      go (some json) = document (codec.jsonb json)
        where
          document :
              (o : Option Text)
              → Absorbed
                  (λ r'. mark_document codec up later id r' json o)
                  (mark_document codec up now id r json o)
          document none = unfold mark_rendering in refl
          document (some t) =
              ap (λ (x : Result (Unit {0}) × Db). (record r { db = x.1 }, settle x.0))
                (mark_rendering_again now later id r.db t)

  rendered_again :
      (o : Option JobRendered)
      → Absorbed (λ r'. on_rendered codec up later id r' o) (on_rendered codec up now id r o)
  unfolding mark_completed
  rendered_again none = refl
  rendered_again (some ev) =
      finish_again now later completed ev.occurred_at (mark_completed up later id ev.pdf_object_key)
        _ _ r (mark_completed_again now later id r.db ev.pdf_object_key)

  stage_again :
      (stage : JobStage) (error : Text) (at : Timestamp)
      → Absorbed
          (λ r'. finish later failed at (mark_by_stage codec up later id r' stage error) r')
          (finish now failed at (mark_by_stage codec up now id r stage error) r)
  unfolding mark_failed_processing mark_failed
  stage_again processing error at =
      finish_again now later failed at (mark_failed_processing up later id error) _ _ r
        (mark_failed_processing_again now later id r.db error)
  stage_again _ error at =
      finish_again now later failed at (mark_failed up later id error) _ _ r
        (mark_failed_again now later id r.db error)

  failed_again :
      (o : Option JobFailed)
      → Absorbed (λ r'. on_failed codec up later id r' o) (on_failed codec up now id r o)
  failed_again none = refl
  failed_again (some ev) = stage_again ev.stage ev.error ev.occurred_at

  apply_event_again :
      (event : Text) (payload : Bytes)
      → Absorbed
          (λ r'. apply_event codec up later id r' event payload)
          (apply_event codec up now id r event payload)
  unfolding apply_event
  apply_event_again event payload = elim (Bool-cases (text_eq event event_requested)) [
    | inl e ↦ rw e refl
    | inr e ↦ rw e (elim (Bool-cases (text_eq event event_structured)) [
      | inl e ↦ rw e (structured_again (codec.structured payload))
      | inr e ↦ rw e (elim (Bool-cases (text_eq event event_rendered)) [
        | inl e ↦ rw e (rendered_again (codec.rendered payload))
        | inr e ↦ rw e (elim (Bool-cases (text_eq event event_failed)) [
          | inl e ↦ rw e (failed_again (codec.failed payload))
          | inr e ↦ rw e refl
        ])
      ])
    ])
  ]

-- An update that is never run is settled the same way at any time.
refused_again :
    (codec : Codec) (now later : ℕ) (job : Text) (r : Runner) (event : Text) (payload : Bytes)
    → apply_event codec refused later job r event payload
      ≡ apply_event codec refused now job r event payload
unfolding apply_event mark_rendering mark_completed mark_failed mark_failed_processing
refused_again codec now later job r event payload =
    elim (Bool-cases (text_eq event event_requested)) [
      | inl e ↦ rw e refl
      | inr e ↦ rw e (elim (Bool-cases (text_eq event event_structured)) [
        | inl e ↦ rw e refl
        | inr e ↦ rw e (elim (Bool-cases (text_eq event event_rendered)) [
          | inl e ↦ rw e (rendered_refused (codec.rendered payload))
          | inr e ↦ rw e (elim (Bool-cases (text_eq event event_failed)) [
            | inl e ↦ rw e (failed_refused (codec.failed payload))
            | inr e ↦ rw e refl
          ])
        ])
      ])
    ]
  where
    rendered_refused :
        (o : Option JobRendered)
        → on_rendered codec refused later job r o ≡ on_rendered codec refused now job r o
    rendered_refused none = refl
    rendered_refused (some ev) = refl

    failed_refused :
        (o : Option JobFailed)
        → on_failed codec refused later job r o ≡ on_failed codec refused now job r o
    failed_refused none = refl
    failed_refused (some ev) = stage ev.stage
      where
        stage :
            (s : JobStage)
            → finish later failed ev.occurred_at
                (mark_by_stage codec refused later job r s ev.error)
                r
              ≡ finish now failed ev.occurred_at
                  (mark_by_stage codec refused now job r s ev.error)
                  r
        stage processing = refl
        stage _ = refl

-- If the database answers, a message that is delivered again, at any time, changes nothing: the tables and the
-- counters stay as the first delivery left them, and it is settled the same way.
pub handle_msg_again :
    (codec : Codec) (now later : ℕ) (msg : Msg) (r : Runner)
    → handle_msg codec up later msg (handle_msg codec up now msg r).0
      ≡ handle_msg codec up now msg r
unfolding handle_msg
handle_msg_again codec now later msg r = go (parse_subject msg.subject)
  where
    go :
        (parsed : Option (Text × Text))
        → handle_parsed codec up later msg.payload
            (handle_parsed codec up now msg.payload r parsed).0
            parsed
          ≡ handle_parsed codec up now msg.payload r parsed
    go none = refl
    go (some (job, event)) = at_id (codec.uuid job)
      where
        at_id :
            (o : Option Text)
            → apply_to codec up later job event msg.payload
                (apply_to codec up now job event msg.payload r o).0
                o
              ≡ apply_to codec up now job event msg.payload r o
        at_id none =
            ap (λ r'. apply_event codec refused later job r' event msg.payload)
              (apply_event-refused codec now job r event msg.payload)
            ∙ refused_again codec now later job r event msg.payload
        at_id (some id) = apply_event_again codec now later id r event msg.payload
