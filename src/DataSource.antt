-- ===== src/DataSource.antt =====
-- ReportDataSources: pkg/operator/datasources.go, and what it uses of promsum.go and aws_usage_hive.go, with the resource of
-- pkg/apis/metering/v1/report_datasource.go. What the handlers call is the record `DataSourceApi`; the importers that the
-- operator keeps in memory are the state `Operator`. The lock of the importers is left out: each use of the map is one step.
pub mod Config
pub mod Importers
pub mod Status
pub mod Dependents
pub mod Tables
pub mod Import
pub mod Billing
pub mod View
pub mod Handler
pub mod Queries
pub mod OnDemand
pub mod Log
use operator_metering.Prelude.{String, ◌≡◌, refl, Option, none, some, List, ◌∷◌}
use operator_metering.Prom.Chunks.{Time, Duration}
use operator_metering.Prom.Import.{Collectors, Env}
use operator_metering.Prom.Importer.{Importer, LastTimestamp}
use operator_metering.Kube.{Meta, Result, ok, err, Act, continue, ◌>>=◌}
use operator_metering.Dependencies.{Query, InputValue}
use operator_metering.Dependencies.Validate.{QueryDependencies}
use operator_metering.Hive.Tables.{HiveTable, PrestoTable, Creation}
use operator_metering.Hive.Billing.{Manifest}
use operator_metering.Report.Run.{ReportApi, HiveStorage}

-- PrometheusQueryConfig: the overrides of a data source
pub record QueryConfig : Type 0 where
  pub query_interval : Option Duration
  pub step_size : Option Duration
  pub chunk_size : Option Duration

-- PrometheusMetricsImporterDataSource; the storage and the Prometheus URL of its configuration are "" where it has none.
pub record MetricsImporter : Type 0 where
  pub query : String
  pub query_config : Option QueryConfig
  pub storage : Option String
  pub prometheus_url : String

-- S3Bucket
pub record S3Bucket : Type 0 where
  pub bucket : String
  pub region : String
  pub prefix : String

-- AWSBillingDataSource
pub record AwsBilling : Type 0 where
  pub source : Option S3Bucket
  pub database_name : String

-- ReportQueryViewDataSource
pub record QueryView : Type 0 where
  pub query_name : String
  pub inputs : List InputValue
  pub storage : Option String

-- ReportDataSourceSpec; `presto_table` is the name in its table reference.
pub record DataSourceSpec : Type 0 where
  pub prometheus_metrics_importer : Option MetricsImporter
  pub aws_billing : Option AwsBilling
  pub presto_table : Option String
  pub report_query_view : Option QueryView

-- PrometheusMetricsImportStatus
pub record ImportStatus : Type 0 where
  pub last_import_time : Option Time
  pub import_data_start_time : Option Time
  pub import_data_end_time : Option Time
  pub earliest_imported_metric_time : Option Time
  pub newest_imported_metric_time : Option Time

-- ReportDataSourceStatus; `table_ref` is a name.
pub record DataSourceStatus : Type 0 where
  pub table_ref : String
  pub import_status : Option ImportStatus

-- ReportDataSource
pub record ReportDataSource : Type 0 where
  pub meta : Meta
  pub spec : DataSourceSpec
  pub status : DataSourceStatus

abbrev pub no_import_status : ImportStatus
no_import_status = record {
  last_import_time = none;
  import_data_start_time = none;
  import_data_end_time = none;
  earliest_imported_metric_time = none;
  newest_imported_metric_time = none;
}

abbrev pub set_table_ref : String → ReportDataSource → ReportDataSource
set_table_ref name d = let s = d.status in record d { status = record s { table_ref = name } }

abbrev pub set_import_status : ImportStatus → ReportDataSource → ReportDataSource
set_import_status i d =
    let s = d.status in record d { status = record s { import_status = some i } }

-- The labels of a data source's Prometheus metrics.
pub record Labels : Type 0 where
  pub name : String
  pub namespace : String
  pub table_name : String

-- An importer as the operator keeps it: with the URL of its connection, if it has one of its own, and its metrics.
pub record Entry : Type 0 where
  pub importer : Importer
  pub connection : Option String
  pub labels : Labels

-- The state of the operator: `op.importers` by name, and the rest of the world.
pub record Operator (W : Type 0) : Type 0 where
  pub importers : List (String × Entry)
  pub world : W

-- A StorageLocation with Hive storage, with the database of its specification too.
pub record DataStorage : Type 0 where
  pub spec_database_name : String
  pub storage : HiveStorage

pub record DataSourceApi (W : Type 0) : Type 0 where
  pub reports : ReportApi W
  pub lister_data_source : String → String → Act W ReportDataSource
  pub get_data_source : String → String → Act W ReportDataSource
  pub update_data_source : ReportDataSource → Act W ReportDataSource
  pub retry_on_conflict : Act W ReportDataSource → Act W ReportDataSource
  pub list_data_sources : String → Act W (List ReportDataSource)
  pub enqueue_data_source : ReportDataSource → W → W
  pub enqueue_data_source_after : ReportDataSource → Duration → W → W
  -- `wait.Jitter`, with its factor in tenths
  pub jitter : Duration → Duration → W → Duration × W
  pub get_hive_storage : Option String → String → Act W DataStorage
  pub connect : String → W → Option String × W
  pub env : Option String → Env W
  pub get_last : String → W → LastTimestamp × W
  pub collectors : Labels → W → Collectors
  pub set_collectors : Labels → Collectors → W → W
  pub retrieve_manifests : S3Bucket → Act W (List Manifest)
  pub uncached_hive_table : String → String → Act W HiveTable
  pub update_hive_table : HiveTable → Act W HiveTable
  pub create_presto_table : PrestoTable → W → Creation PrestoTable × W
  pub render_view : Query → QueryDependencies → ReportDataSource → Act W String

-- reportDataSourceFinalizer
abbrev pub report_data_source_finalizer : String
report_data_source_finalizer = "metering.openshift.io/reportdatasource"

module _ {W : Type 0} where
  abbrev pub with_world : {T : Type 0} → Operator W → Result T × W → Result T × Operator W
  with_world o (r, w) = (r, record o { world = w })

  -- A step that leaves the importers alone.
  abbrev pub on_world : {T : Type 0} → Act W T → Act (Operator W) T
  on_world act o = with_world o (act o.world)

  abbrev pub of_result : {T : Type 0} → Result T → Act W T
  of_result r w = (r, w)

module _ {W : Type 0} (api : DataSourceApi W) where
  -- updateReportDataSource: what is updated is read afresh in every attempt.
  unfoldable pub update_report_data_source :
      String → String → (ReportDataSource → ReportDataSource) → Act W ReportDataSource
  update_report_data_source namespace name update =
      api.retry_on_conflict
        (api.get_data_source namespace name >>= λ d. api.update_data_source (update d))
