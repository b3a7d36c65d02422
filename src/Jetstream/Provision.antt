-- ===== src/Jetstream/Provision.antt =====
-- `Provision`, `OrderedJobConsumer` and `DeleteOrderedConsumer`. What the server answers to a
-- request is a parameter.
use corrupt_cv.Common.{
  ℕ, ◌*◌, Bool, true, false, List, [], ◌∷◌, ◌++◌, Text, codes, is_empty, if◌then◌else◌,
}
use corrupt_cv.Jetstream.Subject.{
  stream_name, event_requested, event_structured, event_rendered, event_failed,
}

-- In microseconds, like the model's other times.
abbrev second : ℕ
second = 1000000

pub data Retention : Type 0 where
  limits_policy : Retention

pub data Storage : Type 0 where
  file_storage : Storage

pub data AckPolicy : Type 0 where
  ack_explicit : AckPolicy

pub data DeliverPolicy : Type 0 where
  deliver_all : DeliverPolicy

pub record StreamConfig : Type 0 where
  pub name : Text
  pub subjects : List Text
  pub retention : Retention
  pub storage : Storage
  pub max_age : ℕ
  pub duplicates : ℕ

-- `FilterSubject` is a list of one.
pub record ConsumerConfig : Type 0 where
  pub durable : Text
  pub filter_subjects : List Text
  pub ack_policy : AckPolicy
  pub ack_wait : ℕ
  pub max_deliver : ℕ

pub record OrderedConsumerConfig : Type 0 where
  pub filter_subjects : List Text
  pub deliver_policy : DeliverPolicy

pub data Request : Type 0 where
  create_or_update_stream : StreamConfig → Request
  create_or_update_consumer : (stream : Text) → ConsumerConfig → Request
  create_or_update_key_value : (bucket : Text) → (history : ℕ) → Request
  ordered_consumer : (stream : Text) → OrderedConsumerConfig → Request
  delete_consumer : (stream name : Text) → Request

abbrev pub catalog_bucket : Text
catalog_bucket = codes "model-catalog"

abbrev pub consumer_ai_proc : Text
consumer_ai_proc = codes "AI_PROCESSOR"

abbrev pub consumer_cv_gen : Text
consumer_cv_gen = codes "CV_GENERATOR"

abbrev pub consumer_gateway_evt : Text
consumer_gateway_evt = codes "GATEWAY_EVENTS"

abbrev pub stream_config : StreamConfig
stream_config = record {
  name = stream_name;
  subjects = codes "cv.*.*" ∷ [];
  retention = limits_policy;
  storage = file_storage;
  max_age = 24 * 60 * 60 * second;
  duplicates = 2 * 60 * second;
}

abbrev every_job : Text → Text
every_job event = codes "cv.*." ++ event

abbrev pub consumers : List ConsumerConfig
consumers =
    record {
      durable = consumer_ai_proc;
      filter_subjects = every_job event_requested ∷ [];
      ack_policy = ack_explicit;
      ack_wait = 120 * second;
      max_deliver = 3;
    }
    ∷ record {
      durable = consumer_cv_gen;
      filter_subjects = every_job event_structured ∷ [];
      ack_policy = ack_explicit;
      ack_wait = 60 * second;
      max_deliver = 3;
    }
    ∷ record {
      durable = consumer_gateway_evt;
      filter_subjects =
          every_job event_requested
          ∷ every_job event_structured
          ∷ every_job event_rendered
          ∷ every_job event_failed
          ∷ [];
      ack_policy = ack_explicit;
      ack_wait = 30 * second;
      max_deliver = 5;
    }
    ∷ []

-- Whether all went well, and the requests that were made.
abbrev pub Asked : Type 0
Asked = Bool × List Request

-- One request, and what follows it unless the server answers with an error.
abbrev pub ask : (Request → Bool) → Request → Asked → Asked
ask answers request (good, later) =
    if answers request then (good, request ∷ later) else (false, request ∷ [])

-- The loop over the consumers, and what follows it.
abbrev pub create_consumers : (Request → Bool) → List ConsumerConfig → Asked → Asked
create_consumers answers [] later = later
create_consumers answers (cfg ∷ cfgs) later =
    ask answers (create_or_update_consumer stream_name cfg) (create_consumers answers cfgs later)

-- `Provision`; the bucket is left out of the result.
unfoldable pub provision : (Request → Bool) → Asked
provision answers = ask answers (create_or_update_stream stream_config) (
    create_consumers answers consumers
      (ask answers (create_or_update_key_value catalog_bucket 1) (true, [])))

-- `fmt.Sprintf("cv.%s.>", jobID)`
unfoldable pub job_filter : Text → Text
job_filter job = codes "cv." ++ (job ++ codes ".>")

abbrev pub job_request : Text → Request
job_request job =
    ordered_consumer stream_name
      (record { filter_subjects = job_filter job ∷ []; deliver_policy = deliver_all })

-- `OrderedJobConsumer`
unfoldable pub ordered_job_consumer : (Request → Bool) → Text → Asked
unfolding job_filter
ordered_job_consumer answers job = ask answers (job_request job) (true, [])

-- `DeleteOrderedConsumer`, by the name that the server gave the consumer.
unfoldable pub delete_ordered_consumer : (Request → Bool) → (name : Text) → Asked
delete_ordered_consumer answers name =
    if is_empty name then (true, []) else ask answers (delete_consumer stream_name name) (true, [])
