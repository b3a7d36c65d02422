-- ===== src/Telemetry/Instruments.antt =====
-- metrics.go: instruments that fall back to no-ops.
use corrupt_cv.Common.{ℕ, List, [], Option, none, some, String, Text, codes}

-- The kinds of instrument of package metric.
pub record Kinds : Type 1 where
  pub Counter : Type 0
  pub FloatHistogram : Type 0
  pub IntHistogram : Type 0
  pub Gauge : Type 0
  pub ObservableGauge : Type 0

-- `WithDescription`, `WithUnit` and `WithExplicitBucketBoundaries`; without an option, its field is
-- empty.
pub record Options : Type 0 where
  pub description : Text
  pub unit : Text
  pub boundaries : List ℕ

-- Only a description.
abbrev pub described : String → Options
described text = record { description = codes text; unit = []; boundaries = [] }

-- A meter; `none` is an error of its constructor.
pub record Meter (k : Kinds) : Type 0 where
  pub counter : Text → Options → Option k.Counter
  pub float_histogram : Text → Options → Option k.FloatHistogram
  pub int_histogram : Text → Options → Option k.IntHistogram
  pub gauge : Text → Options → Option k.Gauge
  pub observable_gauge : Text → Options → Option k.ObservableGauge

-- The instruments of the no-op meter, whose constructors never fail and are given a name only.
pub record Fallback (k : Kinds) : Type 0 where
  pub counter : Text → k.Counter
  pub float_histogram : Text → k.FloatHistogram
  pub int_histogram : Text → k.IntHistogram
  pub gauge : Text → k.Gauge
  pub observable_gauge : Text → k.ObservableGauge

abbrev or_else {ℓ} : {I : Type ℓ} → Option I → I → I
or_else none fallback = fallback
or_else (some i) fallback = i

module _ {k : Kinds} (fallback : Fallback k) (meter : Meter k) (name : Text) (opts : Options) where
  unfoldable pub int64_counter : k.Counter
  int64_counter = or_else (meter.counter name opts) (fallback.counter name)

  unfoldable pub float64_histogram : k.FloatHistogram
  float64_histogram = or_else (meter.float_histogram name opts) (fallback.float_histogram name)

  unfoldable pub int64_histogram : k.IntHistogram
  int64_histogram = or_else (meter.int_histogram name opts) (fallback.int_histogram name)

  unfoldable pub int64_gauge : k.Gauge
  int64_gauge = or_else (meter.gauge name opts) (fallback.gauge name)

  unfoldable pub int64_observable_gauge : k.ObservableGauge
  int64_observable_gauge =
      or_else (meter.observable_gauge name opts) (fallback.observable_gauge name)
