-- ===== src/Web/Sse/Sync.antt =====
-- The stream of a client against the projection of the same messages into the jobs table.
use corrupt_cv.Common.{
  ℕ, ◌≤◌, ◌<◌, ◌≡◌, ◌≢◌, refl, true, false, List, [], ◌∷◌, some, arith, Text, leb, inl, inr,
  Bool-cases, ap, ◌∙◌, sym,
}
use mathlib.Core.Option
use corrupt_cv.Events.{Codec}
use corrupt_cv.Store.Rows.{Status, rendering, failed, Job}
use corrupt_cv.Store.Query.{up}
use corrupt_cv.Jobs.Runner.{Msg, Runner, handle_msg}
use corrupt_cv.Jobs.Fact.{Fact, failed_processing, next, message_effect, project, status_in}
use corrupt_cv.Jobs.Spec.{consume, handle_msg-refines, consume-refines}
use corrupt_cv.Web.Status.{is_terminal, status_rank, status_from_job}
use corrupt_cv.Web.Sse.{Signal, message, status, finished, leave, send, loop, handle_job_events}
use corrupt_cv.Web.Sse.Order.{last_status}
use corrupt_cv.Web.Sse.Facts.{shown, States, incoming-shows, message_effect-next}

-- Each message states a fact about the job, and no failure of the processing stage comes while
-- the job is rendering.
abbrev pub IsOrderly : Codec → Text → Status → List Msg → Type 0
IsOrderly codec job s [] = Unit
IsOrderly codec job s (msg ∷ ms) =
    (fact : Fact) × States codec job msg fact
    × (fact ≡ failed_processing → s ≢ rendering)
    × IsOrderly codec job (next fact s) ms

-- The messages as the stream meets them, each answered by a successful write.
abbrev pub arriving : List Msg → List Signal
arriving [] = []
arriving (msg ∷ ms) = message msg true ∷ arriving ms

-- The same messages, consumed for the table.
abbrev pub projected : Codec → Text → List Msg → Status → Status
projected codec job [] s = s
projected codec job (msg ∷ ms) s = projected codec job ms (message_effect codec msg job s)

-- A terminal status stays.
projected-terminal :
    (codec : Codec) (job : Text) (ms : List Msg) (s : Status)
    → is_terminal s ≡ true
    → IsOrderly codec job s ms
    → projected codec job ms s ≡ s
projected-terminal codec job [] s t _ = refl
projected-terminal codec job (msg ∷ ms) s t (fact, states, _, later) =
    let same : next fact s ≡ s = ground arith in
    rw (message_effect-next codec job msg fact s states)
      (rw same (projected-terminal codec job ms s t (rw same at later)))

-- A fact that does not outrank the status leaves it, and one that does sets the status shown.
next-low :
    (fact : Fact) (s : Status)
    → is_terminal s ≡ false
    → status_rank (shown fact) ≤ status_rank s
    → next fact s ≡ s
next-low fact s open_s low = ground arith

next-high :
    (fact : Fact) (s : Status)
    → is_terminal s ≡ false
    → (fact ≡ failed_processing → s ≢ rendering)
    → status_rank s < status_rank (shown fact)
    → next fact s ≡ shown fact
next-high fact s open_s timely high = ground arith

-- One message: the frames that the loop sends for it, if the rest of the loop ends right.
loop-message :
    (codec : Codec) (job : Text) (msg : Msg) (ss : List Signal) (s : Status) (fact : Fact)
    (end : Status)
    → is_terminal s ≡ false
    → States codec job msg fact
    → (fact ≡ failed_processing → s ≢ rendering)
    → (is_terminal (next fact s) ≡ true → end ≡ next fact s)
    → (is_terminal (next fact s) ≡ false
        → last_status (next fact s) (loop codec job (status_rank (next fact s)) ss).frames ≡ end)
    → last_status s (loop codec job (status_rank s) (message msg true ∷ ss)).frames ≡ end
unfolding loop
loop-message codec job msg ss s fact end open_s states timely closed later =
    let (u, came, seen) = incoming-shows codec job msg fact states in
    rw (came, loop)
      (elim (Bool-cases (leb (status_rank u.status) (status_rank s))) [
        | inl low ↦
            let same : next fact s ≡ s = next-low fact s open_s (rw (← seen) (ground arith)) in
            rw (low, loop) (rw same at (later (rw same open_s)))
        | inr high ↦
            let same : next fact s ≡ u.status =
              next-high fact s open_s timely (rw (← seen) (ground arith)) ∙ sym seen in
            rw (high, loop)
              (elim (Bool-cases (is_terminal u.status)) [
                | inl e ↦ rw e (sym (closed (rw same e) ∙ same))
                | inr e ↦ rw e (rw same at (later (rw same e)))
              ])
      ])

-- On orderly messages the client ends with the status that the table ends with.
pub loop-projected :
    (codec : Codec) (job : Text) (ms : List Msg) (s : Status)
    → is_terminal s ≡ false
    → IsOrderly codec job s ms
    → last_status s (loop codec job (status_rank s) (arriving ms)).frames ≡ projected codec job ms s
loop-projected codec job [] s open_s _ = unfold loop in refl
loop-projected codec job (msg ∷ ms) s open_s (fact, states, timely, later) =
    loop-message codec job msg (arriving ms) s fact (projected codec job ms (next fact s)) open_s
      states timely (λ t. projected-terminal codec job ms (next fact s) t later)
      (λ t. loop-projected codec job ms (next fact s) t later)
    ∙ ap (projected codec job ms) (sym (message_effect-next codec job msg fact s states))

-- A stream over an open job, from its first frame.
handler-loop :
    (codec : Codec) (j : Job) (ss : List Signal)
    → is_terminal j.status ≡ false
    → handle_job_events codec j true true ss
      ≡ send (status (status_from_job j)) (loop codec j.id (status_rank j.status) ss)
unfolding handle_job_events
handler-loop codec j ss open_j = rw open_j refl

pub handler-projected :
    (codec : Codec) (j : Job) (ms : List Msg)
    → IsOrderly codec j.id j.status ms
    → last_status j.status (handle_job_events codec j true true (arriving ms)).frames
      ≡ projected codec j.id ms j.status
handler-projected codec j ms orderly = elim (Bool-cases (is_terminal j.status)) [
  | inl e ↦
      unfold handle_job_events in rw e (sym (projected-terminal codec j.id ms j.status e orderly))
  | inr e ↦
      rw (handler-loop codec j (arriving ms) e)
        (unfold status_from_job in loop-projected codec j.id ms j.status e orderly)
]

abbrev pub messages : List (ℕ × Msg) → List Msg
messages [] = []
messages ((now, msg) ∷ ms) = msg ∷ messages ms

pub project-projected :
    (codec : Codec) (job : Text) (ms : List (ℕ × Msg)) (s : Status)
    → project codec job ms s ≡ projected codec job (messages ms) s
project-projected codec job [] s = refl
project-projected codec job ((now, msg) ∷ ms) s =
    project-projected codec job ms (message_effect codec msg job s)

-- A client that opens the stream of a job, and a runner that consumes the same orderly messages
-- from the same status, end with the same status of the job, if all writes to the client succeed
-- and the database answers.
pub handle_job_events-consume :
    (codec : Codec) (j : Job) (ms : List (ℕ × Msg)) (r : Runner)
    → status_in j.id r.db.jobs ≡ some j.status
    → IsOrderly codec j.id j.status (messages ms)
    → status_in j.id (consume codec ms r).db.jobs
      ≡ some (
          last_status j.status
            (handle_job_events codec j true true (arriving (messages ms))).frames)
handle_job_events-consume codec j ms r found orderly =
    consume-refines codec ms r j.id
    ∙ ap (Option.map (project codec j.id ms)) found
    ∙ ap some (
        project-projected codec j.id ms j.status
        ∙ sym (handler-projected codec j (messages ms) orderly))

-- Without order they part: a failure of the processing stage that comes late, while the job is
-- rendering, ends a stream whose writes succeed with `failed`, and leaves the job rendering in the
-- table, if the database answers.
pub late_failure :
    (codec : Codec) (now : ℕ) (j : Job) (msg : Msg) (ss : List Signal) (r : Runner)
    → j.status ≡ rendering
    → status_in j.id r.db.jobs ≡ some rendering
    → States codec j.id msg failed_processing
    → let out = handle_job_events codec j true true (message msg true ∷ ss) in
      (out.exit ≡ finished)
      × (last_status j.status out.frames ≡ failed)
      × (status_in j.id (handle_msg codec up now msg r).0.db.jobs ≡ some rendering)
late_failure codec now j msg ss r is_rendering found states =
    let (u, came, seen) = incoming-shows codec j.id msg failed_processing states in
    let step : loop codec j.id 1 (message msg true ∷ ss) ≡ send (status u) (leave finished) =
      unfold loop in
      rw (came, loop)
        (rw (ap (λ s. leb (status_rank s) 1) seen, loop) (rw (ap is_terminal seen) refl)) in
    let whole = handler-loop codec j (message msg true ∷ ss) (rw is_rendering refl) in
    (
      rw whole (rw is_rendering (rw step refl)),
      rw whole (rw is_rendering (rw step seen)),
      handle_msg-refines codec now msg r j.id
          ∙ ap (Option.map (message_effect codec msg j.id)) found
          ∙ ap some (message_effect-next codec j.id msg failed_processing rendering states),
    )
