-- ===== src/DataSource/Config.antt =====
-- The configuration of a data source's importer: `newPromImporterCfg` and `getQueryIntervalForReportDataSource` of
-- pkg/operator/promsum.go. The durations that the operator itself is configured with are set.
pub mod Bounds
use operator_metering.Prelude.{
  ℕ, zero, suc, ◌+◌, ◌*◌, ◌-◌, ◌/◌, ◌%◌, ◌≤◌, ◌<◌, String, ◌≡◌, ◌≢◌, ◌↔◌, refl, ◌⊎◌, inl, inr, Bool,
  Option, none, some, arith,
}
use operator_metering.Prom.Chunks.{Time, Duration, second, minute, Int64, pos, rounds}
use operator_metering.Prom.Import.{Config}
use operator_metering.Prom.Importer.Runs.{IsBounded}
use operator_metering.Kube.{panicked, Result, ok, err}
use operator_metering.Hive.Tables.{PrestoTable}
use operator_metering.Report.Run.Table.{fully_qualified_table_name}
use operator_metering.DataSource.{QueryConfig, MetricsImporter}

-- The fields of the operator's Config that are read here.
pub record OperatorConfig : Type 0 where
  pub enable_finalizers : Bool
  pub disable_prometheus_metrics_importer : Bool
  pub query_interval : Duration
  pub step_size : Duration
  pub chunk_size : Duration
  pub max_query_range_duration : Duration
  pub max_backfill_import_duration : Duration
  pub global_import_from_time : Option Time

-- a field of the data source's configuration, where it has one
abbrev pub override : Duration → Option Duration → Duration
override d none = d
override d (some d') = d'

abbrev pub overriding : (QueryConfig → Option Duration) → Duration → Option QueryConfig → Duration
overriding field d none = d
overriding field d (some q) = override d (field q)

-- `d.Truncate(time.Second)`
abbrev pub whole_seconds : Duration → Duration
whole_seconds d = d - d % second

module _ (op : OperatorConfig) where
  -- getQueryIntervalForReportDataSource
  unfoldable pub get_query_interval : MetricsImporter → Duration
  get_query_interval m = overriding (λ q. q.query_interval) op.query_interval m.query_config

  unfoldable pub chunk_size_of : MetricsImporter → Duration
  chunk_size_of m = whole_seconds (overriding (λ q. q.chunk_size) op.chunk_size m.query_config)

  unfoldable pub step_size_of : MetricsImporter → Duration
  step_size_of m = whole_seconds (overriding (λ q. q.step_size) op.step_size m.query_config)

  -- the cap on the time ranges of an import; the division by a chunk of no length panics
  abbrev pub default_max_prom_time_ranges : Duration → Result ℕ
  default_max_prom_time_ranges zero = err (panicked "integer divide by zero")
  default_max_prom_time_ranges (suc chunk') = ok (op.max_query_range_duration / suc chunk')

  abbrev pub config_with : MetricsImporter → Result ℕ → Result String → Result Config
  config_with m (err e) name = err e
  config_with m (ok ranges) (err e) = err e
  config_with m (ok ranges) (ok name) = ok (record {
    prometheus_query = m.query;
    presto_table_name = name;
    chunk_size = chunk_size_of m;
    step_size = step_size_of m;
    max_time_ranges = pos ranges;
    max_query_range_duration = op.max_query_range_duration;
    import_from_time = op.global_import_from_time;
    max_backfill_import_duration = op.max_backfill_import_duration;
  })

  -- newPromImporterCfg
  unfoldable pub new_prom_importer_cfg : MetricsImporter → PrestoTable → Result Config
  new_prom_importer_cfg m t =
      config_with m (default_max_prom_time_ranges (chunk_size_of m)) (fully_qualified_table_name t)

  -- The chunk size of the data source is below a second.
  abbrev pub IsTooShort : MetricsImporter → Type 0
  IsTooShort m = overriding (λ q. q.chunk_size) op.chunk_size m.query_config < second
