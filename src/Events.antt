-- ===== src/Events.antt =====
-- The messages of services/gateway/gen/cvgen/events/v1/events.pb.go, by their fields. The wire
-- format, protojson and Postgres are not of this repository: `Codec` stands for them.
use corrupt_cv.Common.{ℕ, Option, Text, Bytes}

-- An int32: proto3 passes numbers on that the enum does not name.
pub data JobStage : Type 0 where
  unspecified processing rendering : JobStage
  other : ℕ → JobStage

-- A time in microseconds; `none` is a timestamp that is absent or not `IsValid()`.
abbrev pub Timestamp : Type 0
Timestamp = Option ℕ

pub record JobRequested : Type 0 where
  pub job_id : Text
  pub career_text : Text
  pub job_description : Text
  pub personal_info : Bytes
  pub model_key : Text
  pub occurred_at : Timestamp

-- The CV is a message of its own, held in its wire format.
pub record JobStructured : Type 0 where
  pub job_id : Text
  pub cv : Bytes
  pub occurred_at : Timestamp

pub record JobRendered : Type 0 where
  pub job_id : Text
  pub pdf_object_key : Text
  pub occurred_at : Timestamp

pub record JobFailed : Type 0 where
  pub job_id : Text
  pub stage : JobStage
  pub error : Text
  pub occurred_at : Timestamp

-- `proto.Unmarshal` into each message, and `protojson.Marshal` of a CV; `none` is an error. `uuid`
-- is how Postgres reads a text as the value of a column of type uuid: the text that it then shows
-- for the value, the same for every spelling of it, or `none` where it rejects the text; `jsonb` is
-- that of a column of type jsonb.
pub record Codec : Type 0 where
  pub structured : Bytes → Option JobStructured
  pub cv_json : Bytes → Option Text
  pub rendered : Bytes → Option JobRendered
  pub failed : Bytes → Option JobFailed
  pub uuid : Text → Option Text
  pub jsonb : Text → Option Text
