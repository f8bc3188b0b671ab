-- ===== src/DataSource/Handler.antt =====
-- `syncReportDataSource` and `handleReportDataSource` of pkg/operator/datasources.go, on a key that splits, with the
-- finalizer of a data source.
pub mod Deleted
use operator_metering.Prelude.{String, Bool, ◌&&◌, Option, none, some, List, [], ◌∷◌, if◌then◌else◌}
use operator_metering.Slice.{contains_string}
use operator_metering.Prom.Chunks.{Time}
use operator_metering.Kube.{
  invalid, call_failed, not_found, panicked, Result, ok, err, Act, continue, ◌>>=◌, return, fail,
  needs_finalizer, with_finalizer, without_finalizer,
}
use operator_metering.Hive.Billing.{Text}
use operator_metering.DataSource.{
  MetricsImporter, AwsBilling, QueryView, DataSourceSpec, ReportDataSource, Operator, DataSourceApi,
  report_data_source_finalizer, with_world, on_world,
}
use operator_metering.DataSource.Config.{OperatorConfig}
use operator_metering.DataSource.Import.{handle_prometheus_metrics}
use operator_metering.DataSource.Billing.{handle_aws_billing}
use operator_metering.DataSource.View.{handle_presto_table, handle_report_query_view}

module _ {W : Type 0} (api : DataSourceApi W) (text : Text) (op : OperatorConfig)
    (replace : String → String) where
  -- addReportDataSourceFinalizer
  unfoldable pub add_report_data_source_finalizer : ReportDataSource → Act W ReportDataSource
  add_report_data_source_finalizer d =
      api.update_data_source
        (record d { meta = with_finalizer report_data_source_finalizer d.meta })

  -- removeReportDataSourceFinalizer
  unfoldable pub remove_report_data_source_finalizer : ReportDataSource → Act W ReportDataSource
  remove_report_data_source_finalizer d =
      if contains_string d.meta.finalizers report_data_source_finalizer none
      then api.update_data_source
          (record d { meta = without_finalizer report_data_source_finalizer d.meta })
      else return d

  -- the cases of the switch, in their order
  abbrev pub by_view : ReportDataSource → Option QueryView → Act W (Unit {0})
  by_view d none = fail (invalid "improperly configured ReportDataSource")
  by_view d (some v) = handle_report_query_view api op text.to_lower replace d v

  abbrev pub by_presto_table :
      ReportDataSource → Option String → Option QueryView → Act W (Unit {0})
  by_presto_table d none v = by_view d v
  by_presto_table d (some name) v = handle_presto_table api op text.to_lower replace d name

  abbrev pub by_aws_billing :
      ReportDataSource → Option AwsBilling → Option String → Option QueryView → Act W (Unit {0})
  by_aws_billing d none p v = by_presto_table d p v
  by_aws_billing d (some b) p v = handle_aws_billing api text op replace d b

  abbrev pub by_spec :
      ReportDataSource → Option MetricsImporter → DataSourceSpec → Act (Operator W) (Unit {0})
  by_spec d (some m) s = handle_prometheus_metrics api op text.to_lower replace d
  by_spec d none s = on_world (by_aws_billing d s.aws_billing s.presto_table s.report_query_view)

  unfoldable pub handle_kind : ReportDataSource → Act (Operator W) (Unit {0})
  handle_kind d = by_spec d d.spec.prometheus_metrics_importer d.spec

  -- handleReportDataSource
  unfoldable pub handle_report_data_source : ReportDataSource → Act (Operator W) (Unit {0})
  handle_report_data_source d =
      if op.enable_finalizers && needs_finalizer report_data_source_finalizer d.meta
      then (on_world (add_report_data_source_finalizer d) >>= handle_kind)
      else handle_kind d

  abbrev pub cleaned_up : ReportDataSource → Act W (Unit {0})
  cleaned_up d = remove_report_data_source_finalizer d >>= λ d'. return tt

  abbrev pub sync_found : Option Time → ReportDataSource → Act (Operator W) (Unit {0})
  sync_found none d = handle_report_data_source d
  sync_found (some at) d = on_world (cleaned_up d)

  abbrev pub sync_got : Result ReportDataSource × Operator W → Result (Unit {0}) × Operator W
  sync_got (ok d, o) = sync_found d.meta.deletion_timestamp d o
  sync_got (err (not_found what), o) = (ok tt, o)
  sync_got (err (invalid what), o) = (err (invalid what), o)
  sync_got (err (call_failed what e), o) = (err (call_failed what e), o)
  sync_got (err (panicked what), o) = (err (panicked what), o)

  -- syncReportDataSource
  unfoldable pub sync_report_data_source : String → String → Act (Operator W) (Unit {0})
  sync_report_data_source namespace name o =
      sync_got (on_world (api.lister_data_source namespace name) o)
