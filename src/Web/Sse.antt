-- ===== src/Web/Sse.antt =====
-- `handleJobEvents` of sse.go, behind the lookup of the job. What its `select` meets is a list of
-- signals, in the order in which it takes them; a flag says whether the write that answers a
-- signal succeeds. The channel of 16 messages keeps their order.
pub mod Facts
pub mod Order
pub mod Sync
pub mod Filtered
pub mod Json
pub mod Wire
pub mod Connection
use corrupt_cv.Common.{
  ℕ, Bool, true, false, List, [], ◌∷◌, Option, none, some, Text, leb, if◌then◌else◌,
}
use corrupt_cv.Events.{Codec}
use corrupt_cv.Store.Rows.{Status, Job}
use corrupt_cv.Jetstream.Subject.{parse_subject}
use corrupt_cv.Jobs.Runner.{Msg}
use corrupt_cv.Web.Status.{
  StatusUpdate, is_terminal, status_rank, status_from_job, Mapped, update, unknown, malformed,
  map_event,
}

pub data Signal : Type 0 where
  done : Signal
  heartbeat : (written : Bool) → Signal
  message : Msg → (written : Bool) → Signal

pub data Frame : Type 0 where
  status : StatusUpdate → Frame
  keep_alive : Frame

-- Why a handler returned; `waiting` is a handler that still waits for its next signal.
pub data Exit : Type 0 where
  finished client_gone write_failed consumer_failed waiting : Exit

-- What the client was sent, and the way out.
pub record Served : Type 0 where
  pub frames : List Frame
  pub exit : Exit

abbrev pub leave : Exit → Served
leave exit = record { frames = []; exit = exit }

abbrev pub send : Frame → Served → Served
send frame rest = record rest { frames = frame ∷ rest.frames }

abbrev pub known : Mapped → Option StatusUpdate
known (update u) = some u
known unknown = none
known malformed = none

-- The callback of `Consume` and `MapEvent`: the update that a message means, if any.
abbrev pub incoming : Codec → Text → Msg → Option StatusUpdate
incoming codec job msg = elim (parse_subject msg.subject) [
  | none ↦ none
  | some (id, event) ↦ known (map_event codec job event msg.payload)
]

-- `writeSSE`, and the `return`s behind it.
abbrev pub write_update : Bool → StatusUpdate → Served → Served
write_update false u rest = leave write_failed
write_update true u rest = send (status u) (if is_terminal u.status then leave finished else rest)

-- The `for` loop, with `lastRank`.
unfoldable pub loop : Codec → Text → ℕ → List Signal → Served
loop codec job last [] = leave waiting
loop codec job last (done ∷ ss) = leave client_gone
loop codec job last (heartbeat false ∷ ss) = leave write_failed
loop codec job last (heartbeat true ∷ ss) = send keep_alive (loop codec job last ss)
loop codec job last (message msg written ∷ ss) = elim (incoming codec job msg) [
  | none ↦ loop codec job last ss
  | some u ↦ elim (leb (status_rank u.status) last) [
    | true ↦ loop codec job last ss
    | false ↦ write_update written u (loop codec job (status_rank u.status) ss)
  ]
]

-- `subscribed`: the ordered consumer is created and its consume loop starts.
unfoldable pub handle_job_events :
    Codec → Job → (first_write subscribed : Bool) → List Signal → Served
unfolding loop status_from_job
handle_job_events codec job first_write subscribed signals =
    let rest =
      if subscribed
      then loop codec job.id (status_rank job.status) signals
      else leave consumer_failed in
    write_update first_write (status_from_job job) rest
