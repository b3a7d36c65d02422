-- ===== src/Jobs/Writes.antt =====
-- The runner touches the tables by single writes of the store, at the time of its input.
use corrupt_cv.Common.{
  ap, ℕ, ◌≡◌, ◌⊎◌, refl, ◌∙◌, Option, none, some, Text, Bytes, inl, inr, Bool-cases, ltb,
}
use corrupt_cv.Events.{JobStage, processing, JobStructured, JobRendered, JobFailed, Codec}
use corrupt_cv.Store.Rows.{completed, failed, Db}
use corrupt_cv.Store.Query.{mark_rendering, Link, Result, ok, err, sweep_stuck}
use corrupt_cv.Store.Write.{Write, render, complete, fail_processing, fail, sweep, apply}
use corrupt_cv.Store.Terminal.{IsFresh}
use corrupt_cv.Jetstream.Subject.{parse_subject}
use corrupt_cv.Jobs.Runner.{
  Msg, Runner, record_terminal, on_structured, mark_structured, mark_document, on_rendered,
  on_failed, mark_by_stage, handle_parsed, apply_to, apply_event-refused, fail_job,
  apply_event_cases, handle_msg, Stream, handle_advisory, poison, max_deliveries_error,
  fail_poisoned, lookup_poisoned, fetch_poisoned, add_swept, sweep_tick, ten_minutes,
}
use corrupt_cv.Jobs.Spec.{finish-db}
use corrupt_cv.Jobs.Counting.{Input, delivery, advisory, tick, react}

-- The tables are left alone, or one write that creates no row is run on them.
abbrev pub Wrote : Link → ℕ → Db → Db → Type 0
Wrote link now before after =
    (after ≡ before)
    ⊎ ((w : Write) × (after ≡ apply link now w before) × ((id : Text) → IsFresh id w))

module _ (codec : Codec) (link : Link) (now : ℕ) (id : Text) (r : Runner) where
  Wrote-mark_structured :
      (json : Option Text) → Wrote link now r.db (mark_structured codec link now id r json).0.db
  unfolding apply
  Wrote-mark_structured none = inl refl
  Wrote-mark_structured (some json) = document (codec.jsonb json)
    where
      document :
          (o : Option Text) → Wrote link now r.db (mark_document codec link now id r json o).0.db
      document none = inl (unfold mark_rendering in refl)
      document (some t) = inr (render id t, refl, λ i. tt)

  Wrote-on_structured :
      (o : Option JobStructured) → Wrote link now r.db (on_structured codec link now id r o).0.db
  Wrote-on_structured none = inl refl
  Wrote-on_structured (some ev) = Wrote-mark_structured (codec.cv_json ev.cv)

  Wrote-on_rendered :
      (o : Option JobRendered) → Wrote link now r.db (on_rendered codec link now id r o).0.db
  unfolding apply
  Wrote-on_rendered none = inl refl
  Wrote-on_rendered (some ev) =
      inr (complete id ev.pdf_object_key, finish-db now completed ev.occurred_at _ _ r, λ i. tt)

  Wrote-mark_by_stage :
      (stage : JobStage) (error : Text)
      → (w : Write) × ((mark_by_stage codec link now id r stage error).1 ≡ apply link now w r.db)
        × ((i : Text) → IsFresh i w)
  unfolding apply
  Wrote-mark_by_stage processing error = (fail_processing id error, refl, λ i. tt)
  Wrote-mark_by_stage _ error = (fail id error, refl, λ i. tt)

  Wrote-on_failed :
      (o : Option JobFailed) → Wrote link now r.db (on_failed codec link now id r o).0.db
  Wrote-on_failed none = inl refl
  Wrote-on_failed (some ev) =
      let (w, wrote, plain) = Wrote-mark_by_stage ev.stage ev.error in
      inr (w, finish-db now failed ev.occurred_at _ _ r ∙ wrote, plain)

Wrote-handle_msg :
    (codec : Codec) (link : Link) (now : ℕ) (msg : Msg) (r : Runner)
    → Wrote link now r.db (handle_msg codec link now msg r).0.db
unfolding handle_msg
Wrote-handle_msg codec link now msg r = go (parse_subject msg.subject)
  where
    go :
        (parsed : Option (Text × Text))
        → Wrote link now r.db (handle_parsed codec link now msg.payload r parsed).0.db
    go none = inl refl
    go (some (job, event)) = at_id (codec.uuid job)
      where
        at_id :
            (o : Option Text)
            → Wrote link now r.db (apply_to codec link now job event msg.payload r o).0.db
        at_id none =
            inl
              (ap (λ (r' : Runner). r'.db) (apply_event-refused codec now job r event msg.payload))
        at_id (some id) =
            apply_event_cases codec link now id r (λ out. Wrote link now r.db out.0.db) (inl refl)
              (Wrote-on_structured codec link now id r) (Wrote-on_rendered codec link now id r)
              (Wrote-on_failed codec link now id r) (inl refl) event msg.payload

poison-db :
    (now : ℕ) (event : Text) (result : Result (Option ℕ)) (db : Db) (r : Runner)
    → (poison now event result (record r { db = db })).db ≡ db
unfolding record_terminal
poison-db now event (ok (some created)) db r = refl
poison-db now event (ok none) db r = refl
poison-db now event (err e) db r = refl

Wrote-handle_advisory :
    (codec : Codec) (stream : Stream) (link : Link) (now : ℕ) (payload : Bytes) (r : Runner)
    → Wrote link now r.db (handle_advisory codec stream link now payload r).db
unfolding handle_advisory apply
Wrote-handle_advisory codec stream link now payload r = fetch (stream.advisory payload)
  where
    reach :
        (parsed : Option (Text × Text))
        → Wrote link now r.db (fail_poisoned codec link now r parsed).db
    reach none = inl refl
    reach (some (job, event)) = at_id (codec.uuid job)
      where
        at_id : (o : Option Text) → Wrote link now r.db (fail_job link now event r o).db
        at_id none = inl refl
        at_id (some id) = inr (fail id max_deliveries_error, poison-db now event _ _ r, λ i. tt)

    found :
        (subject : Option Text) → Wrote link now r.db (lookup_poisoned codec link now r subject).db
    found none = inl refl
    found (some subject) = reach (parse_subject subject)

    fetch : (seq : Option ℕ) → Wrote link now r.db (fetch_poisoned codec stream link now r seq).db
    fetch none = inl refl
    fetch (some seq) = elim (Bool-cases stream.reachable) [
      | inl e ↦ rw e (found (stream.get_msg seq))
      | inr e ↦ rw e (inl refl)
    ]

pub add_swept-db : (result : Result ℕ) (r : Runner) → (add_swept result r).db ≡ r.db
add_swept-db (ok n) r = elim (Bool-cases (ltb 0 n)) [ inl e ↦ rw e refl | inr e ↦ rw e refl ]
add_swept-db (err e) r = refl

pub sweep_tick-db :
    (link : Link) (now : ℕ) (r : Runner)
    → (sweep_tick link now r).db ≡ apply link now (sweep ten_minutes) r.db
unfolding sweep_tick apply
sweep_tick-db link now r =
    let (result, db) = sweep_stuck link now ten_minutes r.db in
    add_swept-db result (record r { db = db })

-- The link and the time of an input.
abbrev pub link_of : Input → Link
link_of (delivery link now msg) = link
link_of (advisory stream link now payload) = link
link_of (tick link now) = link

abbrev pub time_of : Input → ℕ
time_of (delivery link now msg) = now
time_of (advisory stream link now payload) = now
time_of (tick link now) = now

-- Whatever the runner does is one write of the store, or none.
pub Wrote-react :
    (codec : Codec) (i : Input) (r : Runner)
    → Wrote (link_of i) (time_of i) r.db (react codec i r).db
unfolding react
Wrote-react codec (delivery link now msg) r = Wrote-handle_msg codec link now msg r
Wrote-react codec (advisory stream link now payload) r =
    Wrote-handle_advisory codec stream link now payload r
Wrote-react codec (tick link now) r = inr (sweep ten_minutes, sweep_tick-db link now r, λ i. tt)
