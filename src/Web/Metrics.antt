-- ===== src/Web/Metrics.antt =====
-- `webMetrics` of metrics.go: the instruments of the handlers, and the count of open streams, which
-- a callback of the meter reads. The meter and its fallback are parameters; what the callback
-- observes is `observe` of Web/Sse/Connection/Active.
use corrupt_cv.Common.{[], ◌∷◌, Bool, List, Text, codes, if◌then◌else◌}
use corrupt_cv.Common.Int.{ℤ, pos}
use corrupt_cv.Telemetry.Instruments.{
  Kinds, Options, described, Meter, Fallback, int64_counter, int64_histogram,
  int64_observable_gauge,
}

pub record WebMetrics (k : Kinds) : Type 0 where
  pub jobs_created : k.Counter
  pub jobs_rejected : k.Counter
  pub profiles_saved : k.Counter
  pub downloads : k.Counter
  pub download_bytes : k.IntHistogram
  pub sse_streams : k.Counter
  pub sse_active : k.ObservableGauge
  pub sse_connections : ℤ

-- 10 kB, 100 kB, 1 MiB and 5 MiB.
abbrev pub pdf_sizes : Options
pdf_sizes = record {
  description = codes "Served PDF sizes.";
  unit = codes "By";
  boundaries = 10240 ∷ 102400 ∷ 1048576 ∷ 5242880 ∷ [];
}

module _ {k : Kinds} (fallback : Fallback k) (meter : Meter k)
    (register : k.ObservableGauge → Bool) where
  -- `newWebMetrics` and the warnings it logs: that the callback cannot be registered is no error.
  unfoldable pub new_web_metrics : WebMetrics k × List Text
  unfolding int64_counter int64_histogram int64_observable_gauge
  new_web_metrics =
      let m : WebMetrics k = record {
        jobs_created =
            int64_counter fallback meter (codes "cvgen.jobs.created.total")
              (described "Job rows created, by model.");
        jobs_rejected =
            int64_counter fallback meter (codes "cvgen.jobs.rejected.total") (
              described "Job submissions rejected before a row was created, by validation reason.");
        profiles_saved =
            int64_counter fallback meter (codes "cvgen.profiles.saved.total")
              (described "Career profile upserts.");
        downloads =
            int64_counter fallback meter (codes "cvgen.jobs.downloads.total")
              (described "Completed-CV PDF downloads served.");
        download_bytes = int64_histogram fallback meter (codes "cvgen.download.bytes") pdf_sizes;
        sse_streams =
            int64_counter fallback meter (codes "cvgen.sse.streams.total")
              (described "SSE job-event streams opened.");
        sse_active =
            int64_observable_gauge fallback meter (codes "cvgen.sse.active")
              (described "Currently open SSE job-event streams.");
        sse_connections = pos 0;
      } in
      (m, (if register m.sse_active then [] else codes "register cvgen.sse.active callback" ∷ []))
