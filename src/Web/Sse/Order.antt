-- ===== src/Web/Sse/Order.antt =====
-- In which order a client sees statuses, and when the stream ends.
use corrupt_cv.Common.{
  ℕ, ◌+◌, ◌≤◌, ◌<◌, ◌≡◌, ◌↔◌, refl, Bool, true, false, List, [], ◌∷◌, some, arith, Text, length,
  leb, inl, inr, Bool-cases, Option-cases, if◌then◌else◌,
}
use corrupt_cv.Events.{Codec}
use corrupt_cv.Store.Rows.{Status, pending, rendering, completed, failed, Job}
use corrupt_cv.Jobs.Runner.{Msg}
use corrupt_cv.Web.Status.{StatusUpdate, is_terminal, status_rank}
use corrupt_cv.Web.Sse.{
  Signal, done, heartbeat, message, Frame, status, keep_alive, Served, finished, consumer_failed,
  leave, incoming, write_update, loop, handle_job_events,
}

-- The statuses among the frames.
abbrev pub statuses : List Frame → List Status
statuses [] = []
statuses (status u ∷ fs) = u.status ∷ statuses fs
statuses (keep_alive ∷ fs) = statuses fs

-- Each status outranks the one before it.
abbrev pub Rises : ℕ → List Status → Type 0
Rises last [] = Unit
Rises last (s ∷ ss) = (last < status_rank s) × Rises (status_rank s) ss

-- To prove something of the loop at a message, prove it where the message is skipped and where
-- its update is written.
pub loop-message_cases {κ} :
    (codec : Codec) (job : Text) (last : ℕ) (msg : Msg) (written : Bool) (ss : List Signal)
    (P : Served → Type κ)
    → P (loop codec job last ss)
    → ((u : StatusUpdate)
        → incoming codec job msg ≡ some u
        → last < status_rank u.status
        → P (write_update written u (loop codec job (status_rank u.status) ss)))
    → P (loop codec job last (message msg written ∷ ss))
unfolding loop
loop-message_cases codec job last msg written ss P skip write =
    elim (Option-cases (incoming codec job msg)) [
      | inl e ↦ rw (e, loop) skip
      | inr (u, e) ↦ elim (Bool-cases (leb (status_rank u.status) last)) [
        | inl low ↦ rw (e, loop) (rw (low, loop) skip)
        | inr high ↦ rw (e, loop) (rw (high, loop) (write u e (ground arith)))
      ]
    ]

module _ (codec : Codec) (job : Text) where
  Rises-write_update :
      (last : ℕ) (written : Bool) (u : StatusUpdate) (rest : Served)
      → last < status_rank u.status
      → Rises (status_rank u.status) (statuses rest.frames)
      → Rises last (statuses (write_update written u rest).frames)
  Rises-write_update last false u rest high later = tt
  Rises-write_update last true u rest high later = elim (Bool-cases (is_terminal u.status)) [
    | inl e ↦ rw e (high, tt)
    | inr e ↦ rw e (high, later)
  ]

  Rises-loop : (last : ℕ) (ss : List Signal) → Rises last (statuses (loop codec job last ss).frames)
  unfolding loop
  Rises-loop last [] = tt
  Rises-loop last (done ∷ ss) = tt
  Rises-loop last (heartbeat false ∷ ss) = tt
  Rises-loop last (heartbeat true ∷ ss) = Rises-loop last ss
  Rises-loop last (message msg written ∷ ss) =
      loop-message_cases codec job last msg written ss (λ out. Rises last (statuses out.frames))
        (Rises-loop last ss)
        λ u e high. Rises-write_update last written u _ high (Rises-loop (status_rank u.status) ss)

-- Ranks end at 2.
length-le : (last : ℕ) (ss : List Status) → last ≤ 2 → Rises last ss → length ss + last ≤ 2
length-le last [] bound _ = omega arith
length-le last (pending ∷ ss) bound (high, later) = absurd (omega arith)
length-le last (rendering ∷ ss) bound (high, later) =
    omega (arith, length-le 1 ss (omega arith) later)
length-le last (completed ∷ ss) bound (high, later) =
    omega (arith, length-le 2 ss (omega arith) later)
length-le last (failed ∷ ss) bound (high, later) = omega (arith, length-le 2 ss (omega arith) later)

status_rank_bound : (s : Status) → status_rank s ≤ 2
status_rank_bound pending = omega arith
status_rank_bound rendering = omega arith
status_rank_bound completed = omega arith
status_rank_bound failed = omega arith

-- A stream that begins anywhere.
abbrev pub Ascends : List Status → Type 0
Ascends [] = Unit
Ascends (s ∷ ss) = Rises (status_rank s) ss

length-Ascends : (ss : List Status) → Ascends ss → length ss ≤ 3
length-Ascends [] _ = omega arith
length-Ascends (s ∷ ss) h =
    omega (arith, length-le (status_rank s) ss (status_rank_bound s) h, status_rank_bound s)

-- Whatever arrives, replays and repeats included, a client is sent statuses of strictly rising
-- rank, and three of them at most.
pub handle_job_events-Ascends :
    (codec : Codec) (job : Job) (first_write subscribed : Bool) (ss : List Signal)
    → let sent = statuses (handle_job_events codec job first_write subscribed ss).frames in
      Ascends sent × (length sent ≤ 3)
unfolding handle_job_events
handle_job_events-Ascends codec job first_write subscribed ss =
    let up = ascends first_write subscribed in (up, length-Ascends _ up)
  where
    rest :
        (subscribed : Bool)
        → Rises (status_rank job.status) (
            statuses
              (if subscribed
                then loop codec job.id (status_rank job.status) ss
                else leave consumer_failed).frames)
    rest true = Rises-loop codec job.id (status_rank job.status) ss
    rest false = tt

    ascends :
        (first_write subscribed : Bool)
        → Ascends (statuses (handle_job_events codec job first_write subscribed ss).frames)
    ascends false subscribed = tt
    ascends true subscribed = elim (Bool-cases (is_terminal job.status)) [
      | inl e ↦ rw e tt
      | inr e ↦ rw e (rest subscribed)
    ]

-- The status that a client shows in the end.
abbrev pub last_status : Status → List Frame → Status
last_status s [] = s
last_status s (status u ∷ fs) = last_status u.status fs
last_status s (keep_alive ∷ fs) = last_status s fs

-- `finished` says the same as a terminal status at the end.
abbrev EndsRight : Status → Served → Type 0
EndsRight s out = (out.exit ≡ finished) ↔ (is_terminal (last_status s out.frames) ≡ true)

EndsRight-write_update :
    (s : Status) (written : Bool) (u : StatusUpdate) (rest : Served)
    → is_terminal s ≡ false
    → (is_terminal u.status ≡ false → EndsRight u.status rest)
    → EndsRight s (write_update written u rest)
EndsRight-write_update s false u rest open_s later = ground arith
EndsRight-write_update s true u rest open_s later = elim (Bool-cases (is_terminal u.status)) [
  | inl e ↦ rw e ((λ h. e), (λ h. refl))
  | inr e ↦ rw e (later e)
]

EndsRight-loop :
    (codec : Codec) (job : Text) (s : Status) (last : ℕ) (ss : List Signal)
    → is_terminal s ≡ false
    → EndsRight s (loop codec job last ss)
unfolding loop
EndsRight-loop codec job s last [] open_s = ground arith
EndsRight-loop codec job s last (done ∷ ss) open_s = ground arith
EndsRight-loop codec job s last (heartbeat false ∷ ss) open_s = ground arith
EndsRight-loop codec job s last (heartbeat true ∷ ss) open_s =
    EndsRight-loop codec job s last ss open_s
EndsRight-loop codec job s last (message msg written ∷ ss) open_s =
    loop-message_cases codec job last msg written ss (EndsRight s)
      (EndsRight-loop codec job s last ss open_s)
      λ u e high.
        EndsRight-write_update s written u _ open_s
          (EndsRight-loop codec job u.status (status_rank u.status) ss)

-- If the first write succeeds, the handler ends the stream exactly when the last status that it
-- sent is terminal.
pub handle_job_events-finished_iff :
    (codec : Codec) (job : Job) (subscribed : Bool) (ss : List Signal)
    → let out = handle_job_events codec job true subscribed ss in
      (out.exit ≡ finished) ↔ (is_terminal (last_status job.status out.frames) ≡ true)
unfolding handle_job_events
handle_job_events-finished_iff codec job subscribed ss =
    elim (Bool-cases (is_terminal job.status)) [
      | inl e ↦ rw e ((λ h. e), (λ h. refl))
      | inr e ↦ rw e (rest subscribed e)
    ]
  where
    rest :
        (subscribed : Bool)
        → is_terminal job.status ≡ false
        → EndsRight job.status (
            if subscribed
            then loop codec job.id (status_rank job.status) ss
            else leave consumer_failed)
    rest true e = EndsRight-loop codec job.id job.status (status_rank job.status) ss e
    rest false e = ground arith
