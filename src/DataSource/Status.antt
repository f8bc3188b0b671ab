-- ===== src/DataSource/Status.antt =====
-- The import status of a data source: the part of `handlePrometheusMetricsDataSource` (pkg/operator/datasources.go) that records
-- the ranges and the metrics of an import, and its test for a backlog. `1.5*chunk.Seconds()` is computed exactly.
pub mod Coverage
use operator_metering.Prelude.{
  ◌+◌, ◌*◌, ◌/◌, Bool, true, false, Option, none, some, List, [], ◌∷◌, ltb, if◌then◌else◌, last?,
}
use operator_metering.Prom.Chunks.{Time, Duration, Range, second}
use operator_metering.Prom.Import.{Metric, Results}
use operator_metering.DataSource.{ImportStatus, no_import_status}

-- the earlier time; an unset one gives way
abbrev pub no_later : Time → Option Time → Time
no_later t none = t
no_later t (some s) = if ltb t s then t else s

abbrev pub no_earlier : Time → Option Time → Time
no_earlier t none = t
no_earlier t (some e) = if ltb e t then t else e

abbrev pub last_of {ℓ} : {A : Type ℓ} → A → List A → A
last_of x [] = x
last_of x (y ∷ ys) = last_of y ys

-- the status with the time of the import
abbrev pub at_import : Time → Option ImportStatus → ImportStatus
at_import now none = record no_import_status { last_import_time = some now }
at_import now (some s) = record s { last_import_time = some now }

-- ImportDataStartTime and ImportDataEndTime, from the first and the last processed range
unfoldable pub record_ranges : Range → Range → ImportStatus → ImportStatus
record_ranges first last s = record s {
  import_data_start_time = some (no_later first.start s.import_data_start_time);
  import_data_end_time = some (no_earlier last.end s.import_data_end_time);
}

-- The imported data ends more than one and a half chunks ago.
unfoldable pub is_backlogged : Duration → Time → Option Time → Bool
is_backlogged chunk_size now none = false
is_backlogged chunk_size now (some end) = ltb (end + 3 * (chunk_size / second) / 2 * second) now

-- The first metric is older than the earliest imported so far.
unfoldable pub has_older_data : Metric → ImportStatus → Bool
has_older_data first s = elim s.earliest_imported_metric_time [
  | none ↦ false
  | some t ↦ ltb first.timestamp t
]

abbrev pub or_first : Time → Option Time → Option Time
or_first t none = some t
or_first t (some s) = some s

-- EarliestImportedMetricTime and NewestImportedMetricTime, from the first and the last metric
unfoldable pub record_metrics : Metric → Metric → ImportStatus → ImportStatus
record_metrics first last s = record s {
  earliest_imported_metric_time = or_first first.timestamp s.earliest_imported_metric_time;
  newest_imported_metric_time = some (no_earlier last.timestamp s.newest_imported_metric_time);
}

-- The test for a backlog that an import's results lead to.
unfoldable pub finds_backlog : Duration → Time → Results → ImportStatus → Bool
finds_backlog chunk_size now r s = elim r.processed_time_ranges [
  | [] ↦ false
  | first ∷ rest ↦
      is_backlogged chunk_size now (record_ranges first (last_of first rest) s).import_data_end_time
]

-- What the import's results make of the status; the metrics that are there ask for the dependents to be queued.
pub data Recorded : Type 0 where
  nothing_processed : Recorded
  older_data : Recorded
  recorded : ImportStatus → Bool → Recorded

abbrev pub record_first : List Metric → ImportStatus → Recorded
record_first [] s = recorded s false
record_first (m ∷ ms) s =
    if has_older_data m s then older_data else recorded (record_metrics m (last_of m ms) s) true

-- the branches on the results
unfoldable pub record_results : Results → ImportStatus → Recorded
record_results r s = elim r.processed_time_ranges [
  | [] ↦ nothing_processed
  | first ∷ rest ↦ record_first r.metrics (record_ranges first (last_of first rest) s)
]
