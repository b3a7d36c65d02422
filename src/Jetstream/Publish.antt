-- ===== src/Jetstream/Publish.antt =====
-- `PublishJobRequested`. Spans are left out; `marshal` is `proto.Marshal`, and `pairs` is the
-- trace context that the propagator injects.
use corrupt_cv.Common.{
  ◌≡◌, refl, Bool, true, false, List, [], ◌∷◌, Option, none, some, arith, Text, Bytes, codes, All,
  ◌≢◌, text_eq_refl, ◌∙◌,
}
use corrupt_cv.Events.{JobRequested}
use corrupt_cv.Store.Query.{Link, up, refused, lost}
use corrupt_cv.Strings.{Lacks}
use corrupt_cv.Telemetry.Carrier.{Header, get, set, inject_nats, get-set, get-inject_nats}
use corrupt_cv.Jetstream.Subject.{
  subject, msg_id, event_requested, parse_subject, parse_subject-subject,
}

pub record OutMsg : Type 0 where
  pub subject : Text
  pub payload : Bytes
  pub header : Header

-- The message for an event.
unfoldable pub requested_msg : List (Text × Text) → JobRequested → Bytes → OutMsg
unfolding subject msg_id
requested_msg pairs ev payload = record {
  subject = subject ev.job_id event_requested;
  payload = payload;
  header = inject_nats pairs (set (codes "Nats-Msg-Id") (msg_id ev.job_id event_requested) []);
}

-- Whether the call returns no error, and the messages that reach the stream.
abbrev pub deliver : Link → OutMsg → Bool × List OutMsg
deliver up msg = (true, msg ∷ [])
deliver refused msg = (false, [])
deliver lost msg = (false, msg ∷ [])

unfoldable pub publish_job_requested :
    (JobRequested → Option Bytes) → List (Text × Text) → Link → JobRequested → Bool × List OutMsg
unfolding requested_msg
publish_job_requested marshal pairs link ev = elim (marshal ev) [
  | none ↦ (false, [])
  | some payload ↦ deliver link (requested_msg pairs ev payload)
]

-- The message for an event goes to a subject that parses to the job and `requested`, and carries
-- the dedup id of the two, if the job's id holds no dot and the trace context that is injected has
-- no key `Nats-Msg-Id`.
pub requested_msg_addressed :
    (pairs : List (Text × Text)) (ev : JobRequested) (payload : Bytes)
    → Lacks b'.' ev.job_id
    → All (λ (p : Text × Text). p.0 ≢ codes "Nats-Msg-Id") pairs
    → (parse_subject (requested_msg pairs ev payload).subject ≡ some (ev.job_id, event_requested))
      × (get (codes "Nats-Msg-Id") (requested_msg pairs ev payload).header
          ≡ msg_id ev.job_id event_requested)
unfolding requested_msg
requested_msg_addressed pairs ev payload plain other = (
  parse_subject-subject ev.job_id event_requested plain (omega arith),
  get-inject_nats pairs (codes "Nats-Msg-Id") _ other
      ∙ get-set (codes "Nats-Msg-Id") (codes "Nats-Msg-Id") _ []
      ∙ rw (text_eq_refl (codes "Nats-Msg-Id")) refl,
)
