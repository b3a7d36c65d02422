-- ===== src/Jobs/Instruments.antt =====
-- `NewRunner`: the instruments of the runner. The meter and its fallback are parameters.
use corrupt_cv.Common.{[], ◌∷◌, codes}
use corrupt_cv.Telemetry.Instruments.{
  Kinds, Options, described, Meter, Fallback, int64_counter, float64_histogram, int64_gauge,
}

pub record RunnerInstruments (k : Kinds) : Type 0 where
  pub jobs_total : k.Counter
  pub job_duration : k.FloatHistogram
  pub jobs_swept : k.Counter
  pub jobs_poisoned : k.Counter
  pub cons_pending : k.Gauge
  pub cons_ack_pending : k.Gauge

-- From a second to an hour.
abbrev pub durations : Options
durations = record {
  description = codes "Time from job creation to its terminal event.";
  unit = codes "s";
  boundaries = 1 ∷ 5 ∷ 10 ∷ 30 ∷ 60 ∷ 120 ∷ 300 ∷ 600 ∷ 1200 ∷ 3600 ∷ [];
}

module _ {k : Kinds} (fallback : Fallback k) (meter : Meter k) where
  -- The instruments that `NewRunner` fills in.
  unfoldable pub new_runner : RunnerInstruments k
  unfolding int64_counter float64_histogram int64_gauge
  new_runner = record {
    jobs_total =
        int64_counter fallback meter (codes "cvgen.jobs.total")
          (described "Jobs that reached a terminal status.");
    job_duration = float64_histogram fallback meter (codes "cvgen.job.duration") durations;
    jobs_swept =
        int64_counter fallback meter (codes "cvgen.jobs.swept.total")
          (described "Stuck jobs failed by the sweeper.");
    jobs_poisoned =
        int64_counter fallback meter (codes "cvgen.jobs.poisoned.total")
          (described "Jobs failed after a consumer exhausted its delivery attempts, by event.");
    cons_pending =
        int64_gauge fallback meter (codes "cvgen.consumer.pending")
          (described "Messages waiting to be delivered, per durable consumer.");
    cons_ack_pending =
        int64_gauge fallback meter (codes "cvgen.consumer.ack_pending")
          (described "Delivered-but-unacked messages, per durable consumer.");
  }
