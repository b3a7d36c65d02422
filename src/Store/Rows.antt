-- ===== src/Store/Rows.antt =====
-- The rows of the tables `profiles` and `jobs`. A timestamp is a number of microseconds; a text of
-- a column uuid or jsonb is the one that the database shows for its value. The CHECK on
-- jobs.status leaves the four values of `Status`.
use corrupt_cv.Common.{ℕ, Bool, true, false, List, Option, Text}

pub data Status : Type 0 where
  pending rendering completed failed : Status

-- `status = 'pending'`
abbrev pub is_pending : Status → Bool
is_pending pending = true
is_pending _ = false

-- `status NOT IN ('completed', 'failed')`
abbrev pub is_live : Status → Bool
is_live pending = true
is_live rendering = true
is_live _ = false

pub record Profile : Type 0 where
  pub id : Text
  pub visitor_id : Text
  pub career_text : Text
  pub personal_info : Option Text
  pub created_at : ℕ
  pub updated_at : ℕ

pub record Job : Type 0 where
  pub id : Text
  pub visitor_id : Text
  pub profile_id : Text
  pub job_description : Text
  pub model_key : Text
  pub status : Status
  pub error : Option Text
  pub pdf_object_key : Option Text
  pub cv : Option Text
  pub created_at : ℕ
  pub updated_at : ℕ

pub record Db : Type 0 where
  pub profiles : List Profile
  pub jobs : List Job
