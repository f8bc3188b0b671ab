-- ===== src/DataSource/Import.antt =====
-- The import of a data source's metrics: `handlePrometheusMetricsDataSource` (pkg/operator/datasources.go) from the importer on.
pub mod Others
use operator_metering.Prelude.{
  ◌*◌, String, Bool, true, false, Option, none, some, ltb, str_eq, if◌then◌else◌,
}
use operator_metering.Prom.Chunks.{Time, Duration, second}
use operator_metering.Prom.Import.{Config, Results, ImportError}
use operator_metering.Prom.Importer.{Outcome, import_from_last_timestamp}
use operator_metering.Kube.{
  invalid, call_failed, panicked, Failure, Result, ok, err, Act, continue, ◌>>=◌, return, fail,
}
use operator_metering.Dependencies.{put}
use operator_metering.Hive.Tables.{PrestoTable}
use operator_metering.DataSource.{
  MetricsImporter, ReportDataSource, ImportStatus, Entry, Operator, DataSourceApi,
  set_import_status, on_world, of_result, with_world, update_report_data_source,
}
use operator_metering.DataSource.Config.{OperatorConfig, get_query_interval, new_prom_importer_cfg}
use operator_metering.DataSource.Importers.{importer_for}
use operator_metering.DataSource.Status.{
  at_import, finds_backlog, Recorded, nothing_processed, older_data, recorded, record_results,
}
use operator_metering.DataSource.Dependents.{queue_dependents}
use operator_metering.DataSource.Tables.{found_table, create_metric_table}

-- What an import returns: its results or its error; `unfinished` is an import whose chunking does not end.
pub data Imported : Type 0 where
  results : Results → Imported
  import_failed : Imported
  unfinished : Imported

abbrev pub imported_of : Option ImportError → Option Results → Imported
imported_of none (some r) = results r
imported_of none none = import_failed
imported_of (some e) r = import_failed

module _ {W : Type 0} (api : DataSourceApi W) (op : OperatorConfig)
    (to_lower replace : String → String) where
  -- The importer remembers how far it came, and the metrics of its labels are counted.
  abbrev pub imported : String → Entry → Option (Outcome W) → Operator W → Imported × Operator W
  imported name e none o = (unfinished, o)
  imported name e (some out) o = (
    imported_of out.error out.results,
    record {
      importers = put name (record e { importer = out.importer }) o.importers;
      world = api.set_collectors e.labels out.counters out.world;
    },
  )

  -- `importer.ImportFromLastTimestamp` of the data source's importer; incomplete chunks are allowed.
  unfoldable pub run_import : String → Entry → Operator W → Imported × Operator W
  run_import name e o =
      imported name e
        (import_from_last_timestamp (api.env e.connection) api.get_last e.importer
          (api.reports.clock o.world) true (api.collectors e.labels o.world) o.world)
        o

  -- The delay until the next import: the interval, or a jitter of five seconds where there is a backlog.
  abbrev pub import_delay : Bool → Duration → W → Duration × W
  import_delay true interval w = api.jitter (5 * second) 20 w
  import_delay false interval w = (interval, w)

  abbrev pub enqueue_again : ReportDataSource → Duration → Act W (Unit {0})
  enqueue_again d delay w = (ok tt, api.enqueue_data_source_after d delay w)

  abbrev pub queue_if : Bool → ReportDataSource → Act W (Unit {0})
  queue_if true d = queue_dependents api d
  queue_if false d = return tt

  -- After an update that failed, the message reads the name of the nil pointer that it returned.
  abbrev pub status_stored : Duration → Result ReportDataSource × W → Result (Unit {0}) × W
  status_stored delay (ok d', w) = enqueue_again d' delay w
  status_stored delay (err e, w) = (err (panicked "nil pointer dereference"), w)

  unfoldable pub store_status : ReportDataSource → ImportStatus → Duration → Act W (Unit {0})
  store_status d s delay w =
      status_stored delay
        (update_report_data_source api d.meta.namespace d.meta.name (set_import_status s) w)

  -- what is done with the status; older data ends it, without another import
  abbrev pub finish_import : ReportDataSource → Duration → Recorded → Act W (Unit {0})
  finish_import d delay nothing_processed = enqueue_again d delay
  finish_import d delay older_data = return tt
  finish_import d delay (recorded s has_metrics) =
      queue_if has_metrics d >>= λ _. store_status d s delay

  -- The end of the imported data, as the test for a backlog reads it; older data is found after the test.
  unfoldable pub after_import :
      ReportDataSource → MetricsImporter → Config → ImportStatus → Results → Act W (Unit {0})
  after_import d m cfg s r w =
      let (delay, v) =
        import_delay (finds_backlog cfg.chunk_size (api.reports.clock w) r s)
          (get_query_interval op m) w in
      finish_import d delay (record_results r s) v

  abbrev pub by_import :
      ReportDataSource → MetricsImporter → Config → ImportStatus → Imported → Act W (Unit {0})
  by_import d m cfg s (results r) = after_import d m cfg s r
  by_import d m cfg s import_failed = fail (invalid "ImportFromLastTimestamp errored")
  by_import d m cfg s unfinished = fail (invalid "the import does not end")

  abbrev pub finished_import :
      ReportDataSource
      → MetricsImporter
      → Config
      → ImportStatus
      → Imported × Operator W
      → Result (Unit {0}) × Operator W
  finished_import d m cfg s (i, o) = on_world (by_import d m cfg s i) o

  -- from the importer on
  unfoldable pub import_with :
      ReportDataSource → MetricsImporter → Config → Entry → Act (Operator W) (Unit {0})
  import_with d m cfg e o =
      finished_import d m cfg (at_import (api.reports.clock o.world) d.status.import_status)
        (run_import d.meta.name e o)

  unfoldable pub import_metrics :
      ReportDataSource → MetricsImporter → PrestoTable → Act (Operator W) (Unit {0})
  import_metrics d m t = of_result (new_prom_importer_cfg op m t) >>= λ cfg.
      importer_for api d m cfg >>= λ e. import_with d m cfg e

  -- the branch of a data source with a table
  unfoldable pub import_to_table : ReportDataSource → MetricsImporter → Act (Operator W) (Unit {0})
  import_to_table d m = on_world (found_table api op to_lower replace d) >>= λ t.
      if op.disable_prometheus_metrics_importer then return tt else import_metrics d m t.0

  abbrev pub by_importer : ReportDataSource → Option MetricsImporter → Act (Operator W) (Unit {0})
  by_importer d none = fail (invalid "not a PrometheusMetricsImporter ReportDataSource")
  by_importer d (some m) =
      if str_eq d.status.table_ref ""
      then on_world (create_metric_table api op to_lower replace d m)
      else import_to_table d m

  -- handlePrometheusMetricsDataSource
  unfoldable pub handle_prometheus_metrics : ReportDataSource → Act (Operator W) (Unit {0})
  handle_prometheus_metrics d = by_importer d d.spec.prometheus_metrics_importer
