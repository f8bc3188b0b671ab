-- ===== src/DataSource/Tables.antt =====
-- The table of a data source that imports Prometheus metrics: the first part of `handlePrometheusMetricsDataSource`
-- (pkg/operator/datasources.go), and `DataSourceTableName` of pkg/operator/reportingutil/util.go.
use operator_metering.Prelude.{◌*◌, String, ◌<>◌, Bool, false, List, [], ◌∷◌, str_eq}
use operator_metering.Prom.Chunks.{second}
use operator_metering.Columns.{Column}
use operator_metering.Kube.{invalid, ok, Act, ◌>>=◌, ◌>>◌, return, reject}
use operator_metering.Hive.Tables.{HiveTable, PrestoTable, TableParameters}
use operator_metering.Hive.Tables.Resource.{
  no_table_parameters, new_hive_table, create_hive_table_cr,
}
use operator_metering.Report.Run.{HiveStorage}
use operator_metering.Report.Run.Table.{fully_qualified_table_name, table_formats}
use operator_metering.DataSource.{
  MetricsImporter, ReportDataSource, DataSourceApi, set_table_ref, of_result,
  update_report_data_source,
}
use operator_metering.DataSource.Config.{OperatorConfig}
use operator_metering.DataSource.Dependents.{queue_dependents}

-- The two lists of columns of the table, from pkg/operator/prestostore/prometheusmetric.go.
abbrev pub prometheus_metric_hive_table_columns : List Column
prometheus_metric_hive_table_columns =
    record { name = "amount"; type = "double" }
    ∷ record { name = "timestamp"; type = "timestamp" }
    ∷ record { name = "timePrecision"; type = "double" }
    ∷ record { name = "labels"; type = "map<string, string>" }
    ∷ []

abbrev pub prometheus_metric_hive_partition_columns : List Column
prometheus_metric_hive_partition_columns = record { name = "dt"; type = "string" } ∷ []

module _ {W : Type 0} (api : DataSourceApi W) (op : OperatorConfig)
    (to_lower replace : String → String) where
  -- DataSourceTableName; `replace` is the replacer of the characters that a name cannot have
  unfoldable pub data_source_table_name : ReportDataSource → String
  data_source_table_name d =
      "datasource_" <> (replace d.meta.namespace <> ("_" <> replace d.meta.name))

  -- A PrestoTable is there with a name that is complete.
  unfoldable pub found_table : ReportDataSource → Act W (PrestoTable × String)
  found_table d = api.reports.get_presto_table d.meta.namespace d.status.table_ref >>= λ p.
      of_result (fully_qualified_table_name p) >>= λ name. return (p, name)

  abbrev pub metric_table : ReportDataSource → HiveStorage → TableParameters
  metric_table d s = table_formats s.formats (record no_table_parameters {
    database = s.database_name;
    name = data_source_table_name d;
    columns = prometheus_metric_hive_table_columns;
    partitioned_by = prometheus_metric_hive_partition_columns;
  })

  -- A table is made for the data source, and Hive and Presto have it.
  unfoldable pub made_tables : HiveTable → Act W (HiveTable × PrestoTable)
  made_tables t =
      create_hive_table_cr api.reports.create_hive_table api.reports.get_hive_table t >>= λ h.
      api.reports.wait_for_hive_table h.meta.namespace h.meta.name >>= λ h'.
      api.reports.wait_for_presto_table h'.meta.namespace h'.meta.name >>= λ p. return (h', p)

  abbrev pub data_source_hive_table : ReportDataSource → TableParameters → Bool → HiveTable
  data_source_hive_table d params manage_partitions =
      new_hive_table to_lower op.enable_finalizers "ReportDataSource" d.meta.namespace d.meta.name
        params manage_partitions []

  -- The table is noted, the dependents are queued, and the data source is queued again a little later.
  unfoldable pub note_new_table : ReportDataSource → HiveTable → Act W (Unit {0})
  note_new_table d t =
      update_report_data_source api d.meta.namespace d.meta.name (set_table_ref t.meta.name)
      >>= λ d'. queue_dependents api d' >> λ w.
          let (delay, v) = api.jitter (2 * second) 25 w in
          (ok tt, api.enqueue_data_source_after d' delay v)

  -- the branch of a data source without a table
  unfoldable pub create_metric_table : ReportDataSource → MetricsImporter → Act W (Unit {0})
  create_metric_table d m = api.get_hive_storage m.storage d.meta.namespace >>= λ s.
      reject (str_eq s.storage.database_name "") (invalid "Hive database does not exist yet")
      >> (made_tables (data_source_hive_table d (metric_table d s.storage) false) >>= λ ts.
          note_new_table d ts.0)
