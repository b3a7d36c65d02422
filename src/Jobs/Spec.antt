-- ===== src/Jobs/Spec.antt =====
-- The handler and the consume loop refine the projection of facts.
use mathlib.Core.Option
use mathlib.Core.Path.{fun_ext}
use corrupt_cv.Common.{
  ℕ, ◌≡◌, refl, Bool, ◌&&◌, List, [], ◌∷◌, Option, none, some, arith, Text, Bytes, text_eq,
  text_eq_iff, ap, ◌∙◌, if◌then◌else◌, inl, inr, Bool-cases,
}
use corrupt_cv.Events.{
  JobStage, processing, Timestamp, JobStructured, JobRendered, JobFailed, Codec,
}
use corrupt_cv.Store.Rows.{Status, rendering, completed, failed, is_pending, is_live, Job, Db}
use corrupt_cv.Store.Query.{
  up, Result, ok, err, update_where, mark_rendering, mark_completed, mark_failed,
  mark_failed_processing, as_rendering, as_completed, as_failed,
}
use corrupt_cv.Jetstream.Subject.{
  parse_subject, event_requested, event_structured, event_rendered, event_failed,
}
use corrupt_cv.Jobs.Runner.{
  Msg, Runner, Settlement, record_terminal, finish, on_structured, mark_structured, mark_document,
  on_rendered, on_failed, mark_by_stage, handle_parsed, apply_to, apply_event-refused, apply_event,
  handle_msg,
}
use corrupt_cv.Jobs.Fact.{
  Fact, requested, structured, rendered, failed_processing, failed_later, next, document_fact,
  structured_fact, stage_fact, event_fact, status_in, effect, effect_at, message_effect, project,
}

-- An update of one job by its status, seen by any job.
status-update :
    (id job : Text) (allowed : Status → Bool) (change : Job → Job) (t : Status) (rows : List Job)
    → ((j : Job) → (change j).id ≡ j.id)
    → ((j : Job) → (change j).status ≡ t)
    → status_in job (update_where (λ (j : Job). text_eq j.id id && allowed j.status) change rows)
      ≡ Option.map (λ s. if text_eq id job && allowed s then t else s) (status_in job rows)
unfolding update_where
status-update id job allowed change t [] keeps sets = refl
status-update id job allowed change t (j ∷ js) keeps sets = ground (
  arith,
  text_eq_iff j.id id,
  text_eq_iff j.id job,
  text_eq_iff id job,
  keeps j,
  sets j,
  status-update id job allowed change t js keeps sets,
)

module _ (now : ℕ) (id job : Text) (db : Db) where
  -- What a fact does to the status that `job` has in the tables.
  abbrev pub Sees : Fact → Db → Type 0
  Sees fact after =
      status_in job after.jobs ≡ Option.map (effect (some fact) id job) (status_in job db.jobs)

  sees :
      (fact : Fact) (allowed : Status → Bool) (change : Job → Job) (t : Status)
      → ((j : Job) → (change j).id ≡ j.id)
      → ((j : Job) → (change j).status ≡ t)
      → ((s : Status) → (if allowed s then t else s) ≡ next fact s)
      → Sees fact (record db {
        jobs = update_where (λ (j : Job). text_eq j.id id && allowed j.status) change db.jobs;
      })
  sees fact allowed change t keeps sets agrees =
      status-update id job allowed change t db.jobs keeps sets
      ∙ ap (λ f. Option.map f (status_in job db.jobs)) (fun_ext (λ s. ground (arith, agrees s)))

  mark_rendering-Sees : (cv : Text) → Sees structured (mark_rendering up now id cv db).1
  unfolding mark_rendering
  mark_rendering-Sees cv =
      sees structured is_pending (as_rendering now cv) rendering (λ j. refl) (λ j. refl)
        (λ s. ground arith)

  mark_completed-Sees : (key : Text) → Sees rendered (mark_completed up now id key db).1
  unfolding mark_completed
  mark_completed-Sees key =
      sees rendered is_live (as_completed now key) completed (λ j. refl) (λ j. refl)
        (λ s. ground arith)

  pub mark_failed-Sees : (error : Text) → Sees failed_later (mark_failed up now id error db).1
  unfolding mark_failed
  mark_failed-Sees error =
      sees failed_later is_live (as_failed now error) failed (λ j. refl) (λ j. refl)
        (λ s. ground arith)

  mark_failed_processing-Sees :
      (error : Text) → Sees failed_processing (mark_failed_processing up now id error db).1
  unfolding mark_failed_processing
  mark_failed_processing-Sees error =
      sees failed_processing is_pending (as_failed now error) failed (λ j. refl) (λ j. refl)
        (λ s. ground arith)

-- Recording metrics leaves the tables alone.
pub finish-db :
    (now : ℕ) (status : Status) (at : Timestamp) (result : Result (Option ℕ)) (db : Db) (r : Runner)
    → (finish now status at (result, db) r).0.db ≡ db
unfolding record_terminal
finish-db now status at (ok (some created)) db r = refl
finish-db now status at (ok none) db r = refl
finish-db now status at (err e) db r = refl

module _ (codec : Codec) (now : ℕ) (id job : Text) (r : Runner) where
  -- The statuses after a handler, against the effect of a fact.
  abbrev Agrees : Option Fact → Runner × Settlement → Type 0
  Agrees fact out =
      status_in job out.0.db.jobs ≡ Option.map (effect fact id job) (status_in job r.db.jobs)

  unchanged : (o : Option Status) → o ≡ Option.map (effect none id job) o
  unchanged none = refl
  unchanged (some s) = refl

  still : (o : Option Status) → o ≡ Option.map (effect (some requested) id job) o
  still none = refl
  still (some s) = ground arith

  structured-Agrees :
      (o : Option JobStructured)
      → Agrees (structured_fact codec o) (on_structured codec up now id r o)
  structured-Agrees none = unchanged _
  structured-Agrees (some ev) = go (codec.cv_json ev.cv)
    where
      go :
          (json : Option Text)
          → Agrees (document_fact codec json) (mark_structured codec up now id r json)
      go none = unchanged _
      go (some json) = document (codec.jsonb json)
        where
          document :
              (o : Option Text)
              → Agrees (Option.map (λ t. structured) o) (mark_document codec up now id r json o)
          document none = unfold mark_rendering in unchanged _
          document (some t) = mark_rendering-Sees now id job r.db t

  rendered-Agrees :
      (o : Option JobRendered)
      → Agrees (Option.map (λ ev. rendered) o) (on_rendered codec up now id r o)
  rendered-Agrees none = unchanged _
  rendered-Agrees (some ev) =
      rw (finish-db now completed ev.occurred_at _ _ r)
        (mark_completed-Sees now id job r.db ev.pdf_object_key)

  stage-Agrees :
      (stage : JobStage) (error : Text)
      → Sees now id job r.db (stage_fact stage) (mark_by_stage codec up now id r stage error).1
  stage-Agrees processing error = mark_failed_processing-Sees now id job r.db error
  stage-Agrees _ error = mark_failed-Sees now id job r.db error

  failed-Agrees :
      (o : Option JobFailed)
      → Agrees
          (Option.map (λ (ev : JobFailed). stage_fact ev.stage) o)
          (on_failed codec up now id r o)
  failed-Agrees none = unchanged _
  failed-Agrees (some ev) =
      rw (finish-db now failed ev.occurred_at _ _ r) (stage-Agrees ev.stage ev.error)

  apply_event-Agrees :
      (event : Text) (payload : Bytes)
      → Agrees (event_fact codec event payload) (apply_event codec up now id r event payload)
  unfolding apply_event
  apply_event-Agrees event payload = elim (Bool-cases (text_eq event event_requested)) [
    | inl e ↦ rw e (still _)
    | inr e ↦ rw e (elim (Bool-cases (text_eq event event_structured)) [
      | inl e ↦ rw e (structured-Agrees (codec.structured payload))
      | inr e ↦ rw e (elim (Bool-cases (text_eq event event_rendered)) [
        | inl e ↦ rw e (rendered-Agrees (codec.rendered payload))
        | inr e ↦ rw e (elim (Bool-cases (text_eq event event_failed)) [
          | inl e ↦ rw e (failed-Agrees (codec.failed payload))
          | inr e ↦ rw e (unchanged _)
        ])
      ])
    ])
  ]

-- One delivery that reaches the database does to the status of every job exactly what the fact in
-- the message does to it. The job of a fact is the one whose id the database reads in the subject.
pub handle_msg-refines :
    (codec : Codec) (now : ℕ) (msg : Msg) (r : Runner) (job : Text)
    → status_in job (handle_msg codec up now msg r).0.db.jobs
      ≡ Option.map (message_effect codec msg job) (status_in job r.db.jobs)
unfolding handle_msg
handle_msg-refines codec now msg r job = go (parse_subject msg.subject)
  where
    nothing : (o : Option Status) → o ≡ Option.map (λ s. s) o
    nothing none = refl
    nothing (some s) = refl

    go :
        (parsed : Option (Text × Text))
        → status_in job (handle_parsed codec up now msg.payload r parsed).0.db.jobs
          ≡ Option.map
              (λ s. elim parsed [
                | none ↦ s
                | some (id, event) ↦
                    effect_at (event_fact codec event msg.payload) (codec.uuid id) job s
              ])
              (status_in job r.db.jobs)
    go none = nothing _
    go (some (name, event)) = at_id (codec.uuid name)
      where
        at_id :
            (o : Option Text)
            → status_in job (apply_to codec up now name event msg.payload r o).0.db.jobs
              ≡ Option.map
                  (effect_at (event_fact codec event msg.payload) o job)
                  (status_in job r.db.jobs)
        at_id none = rw (apply_event-refused codec now name r event msg.payload) (nothing _)
        at_id (some id) = apply_event-Agrees codec now id job r event msg.payload

-- The consume loop over a sequence of deliveries.
unfoldable pub consume : Codec → List (ℕ × Msg) → Runner → Runner
consume codec [] r = r
consume codec ((now, msg) ∷ ms) r = consume codec ms (handle_msg codec up now msg r).0

map-map :
    (f g : Status → Status) (o : Option Status)
    → Option.map g (Option.map f o) ≡ Option.map (λ s. g (f s)) o
map-map f g none = refl
map-map f g (some s) = refl

map_same : (o : Option Status) → o ≡ Option.map (λ s. s) o
map_same none = refl
map_same (some s) = refl

-- If the database answers, the status of a job after any deliveries is the fold of their facts
-- over the status before. A fact is about the job whose id the database reads, as a uuid, in the
-- subject, however it is spelt there, and a subject in which it reads none states nothing.
pub consume-refines :
    (codec : Codec) (ms : List (ℕ × Msg)) (r : Runner) (job : Text)
    → status_in job (consume codec ms r).db.jobs
      ≡ Option.map (project codec job ms) (status_in job r.db.jobs)
unfolding consume
consume-refines codec [] r job = map_same _
consume-refines codec ((now, msg) ∷ ms) r job =
    consume-refines codec ms (handle_msg codec up now msg r).0 job
    ∙ ap (Option.map (project codec job ms)) (handle_msg-refines codec now msg r job)
    ∙ map-map (message_effect codec msg job) (project codec job ms) (status_in job r.db.jobs)
