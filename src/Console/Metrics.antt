-- ===== src/Console/Metrics.antt =====
-- web/src/routes/metrics.tsx and web/src/components/charts.tsx: the ranges, and which number of a point
-- each chart draws.
use forgequeue.Common.{
  ℕ, ◌≡◌, refl, Bool, true, false, Option, none, some, List, [], ◌∷◌, map, any, filter_by, length,
  Text, txt, text_eq,
}
use forgequeue.Types.{MetricsPoint}
use forgequeue.Endpoints.{MetricsRange, m5, m15, h1, h6, h24, d7, range_text}

-- The members of `keyof MetricsPoint` that are numbers.
pub data PointKey : Type 0 where
  enqueued completed failed depth latency_ms exec_ms retries dlq workers lease_expirations :
      PointKey

unfoldable pub point_value : PointKey → MetricsPoint → ℕ
point_value enqueued p = p.throughput.enqueued
point_value completed p = p.throughput.completed
point_value failed p = p.throughput.failed
point_value depth p = p.depth
point_value latency_ms p = p.latency_ms
point_value exec_ms p = p.exec_ms
point_value retries p = p.retries
point_value dlq p = p.dlq
point_value workers p = p.workers
point_value lease_expirations p = p.lease_expirations

unfoldable pub point_key_text : PointKey → Text
point_key_text enqueued = txt "enqueued"
point_key_text completed = txt "completed"
point_key_text failed = txt "failed"
point_key_text depth = txt "depth"
point_key_text latency_ms = txt "latencyMs"
point_key_text exec_ms = txt "execMs"
point_key_text retries = txt "retries"
point_key_text dlq = txt "dlq"
point_key_text workers = txt "workers"
point_key_text lease_expirations = txt "leaseExpirations"

pub record SeriesDef : Type 0 where
  pub key : PointKey
  pub label : Text
  pub color : Text

pub record ChartDef : Type 0 where
  pub title : Text
  pub series : List SeriesDef
  pub area : Bool

-- `s`
abbrev pub series_def : PointKey → Text → Text → SeriesDef
series_def key label color = record { key = key; label = label; color = color }

-- `THROUGHPUT`
unfoldable pub throughput_series : List SeriesDef
throughput_series =
    series_def enqueued (txt "enqueued") (txt "var(--chart-1)")
    ∷ series_def completed (txt "completed") (txt "var(--chart-2)")
    ∷ series_def failed (txt "failed") (txt "var(--chart-3)")
    ∷ []

abbrev one_line : Text → SeriesDef → ChartDef
one_line title s = record { title = title; series = s ∷ []; area = false }

abbrev one_area : Text → SeriesDef → ChartDef
one_area title s = record { title = title; series = s ∷ []; area = true }

-- `CHARTS`
unfoldable pub charts : List ChartDef
charts =
    one_area (txt "Jobs enqueued") (series_def enqueued (txt "enqueued") (txt "var(--chart-1)"))
    ∷ one_area (txt "Jobs completed")
        (series_def completed (txt "completed") (txt "var(--chart-2)"))
    ∷ one_area (txt "Jobs failed") (series_def failed (txt "failed") (txt "var(--chart-3)"))
    ∷ one_line (txt "Queue depth (total pending)")
        (series_def depth (txt "depth") (txt "var(--chart-1)"))
    ∷ one_line (txt "Processing latency (avg ms, enqueue→claim)")
        (series_def latency_ms (txt "latency_ms") (txt "var(--chart-4)"))
    ∷ one_line (txt "Job execution latency (avg ms)")
        (series_def exec_ms (txt "exec_ms") (txt "var(--chart-5)"))
    ∷ one_line (txt "Retries") (series_def retries (txt "retries") (txt "var(--chart-4)"))
    ∷ one_line (txt "DLQ size") (series_def dlq (txt "dlq") (txt "var(--chart-3)"))
    ∷ one_line (txt "Worker count") (series_def workers (txt "workers") (txt "var(--chart-2)"))
    ∷ one_line (txt "Lease expirations")
        (series_def lease_expirations (txt "expired") (txt "var(--chart-3)"))
    ∷ []

-- What a chart draws: nothing but a placeholder without data, or the name and the values of each
-- series.
unfoldable pub drawn : Option (List MetricsPoint) → List SeriesDef → Option (List (Text × List ℕ))
unfolding point_value
drawn none series = none
drawn (some points) series = some (map (λ s. (s.label, map (point_value s.key) points)) series)

-- `RANGES`
unfoldable pub ranges : List MetricsRange
ranges = m5 ∷ m15 ∷ h1 ∷ h6 ∷ h24 ∷ d7 ∷ []

-- The radio group: the text of each range, and whether it is the one that is shown.
unfoldable pub range_radios : MetricsRange → List (Text × Bool)
unfolding ranges range_text text_eq
range_radios range = map (λ r. (range_text r, text_eq (range_text range) (range_text r))) ranges

-- Each number of a point is drawn by exactly one chart of the page.
pub charts_once :
    (k : PointKey)
    → length (
        filter_by
          (λ c. any (λ s. text_eq (point_key_text s.key) (point_key_text k)) c.series)
          charts)
      ≡ 1
unfolding charts point_key_text text_eq
charts_once enqueued = refl
charts_once completed = refl
charts_once failed = refl
charts_once depth = refl
charts_once latency_ms = refl
charts_once exec_ms = refl
charts_once retries = refl
charts_once dlq = refl
charts_once workers = refl
charts_once lease_expirations = refl
