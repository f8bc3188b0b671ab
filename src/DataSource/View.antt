-- ===== src/DataSource/View.antt =====
-- Data sources that are Presto tables or views of a query: `handlePrestoTableDataSource` and
-- `handleReportQueryViewDataSource` of pkg/operator/datasources.go.
pub mod Ready
use operator_metering.Prelude.{
  String, Bool, true, false, ◌||◌, Option, none, some, List, [], str_eq, if◌then◌else◌,
}
use operator_metering.Kube.{
  invalid, call_failed, not_found, Result, ok, err, Act, continue, ◌>>=◌, ◌>>◌, return, fail,
  reject,
}
use operator_metering.Dependencies.{Query, DataSource, Reply, found, missing}
use operator_metering.Dependencies.Validate.{
  QueryDependencies, DependencyError, validate_query_dependencies,
  is_uninitialized_dependency_error, is_invalid_dependency_error,
}
use operator_metering.Dependencies.Validated.{
  QueryResult, resolved, unresolved, get_query_dependencies,
}
use operator_metering.Hive.Tables.{PrestoTable}
use operator_metering.Presto.Resource.{create_presto_table_cr}
use operator_metering.Report.Run.{enqueue_data_sources}
use operator_metering.DataSource.{
  QueryView, ReportDataSource, DataStorage, DataSourceApi, set_table_ref, of_result,
  update_report_data_source,
}
use operator_metering.DataSource.Config.{OperatorConfig}
use operator_metering.DataSource.Dependents.{queue_dependents}
use operator_metering.DataSource.Tables.{data_source_table_name, found_table}

module _ {W : Type 0} (api : DataSourceApi W) (op : OperatorConfig)
    (to_lower replace : String → String) where
  abbrev pub noted : Act W ReportDataSource → Act W (Unit {0})
  noted act = act >>= λ d'. return tt

  -- The reference to a table is stored.
  abbrev pub note_table : ReportDataSource → PrestoTable → Act W ReportDataSource
  note_table d p =
      update_report_data_source api d.meta.namespace d.meta.name (set_table_ref p.meta.name)

  -- handlePrestoTableDataSource
  unfoldable pub handle_presto_table : ReportDataSource → String → Act W (Unit {0})
  handle_presto_table d name =
      reject (str_eq name "") (invalid "spec.prestoTable.tableRef.name must be set")
      >> (if str_eq d.status.table_ref ""
          then (api.reports.wait_for_presto_table d.meta.namespace name >>= λ p.
              noted (note_table d p))
          else (found_table api op to_lower replace d >>= λ t. return tt))

  -- The name of the view, which is only used where it is made; a table that is there has a complete name.
  unfoldable pub view_name : ReportDataSource → Act W String
  view_name d =
      if str_eq d.status.table_ref ""
      then return (data_source_table_name api op to_lower replace d)
      else (found_table api op to_lower replace d >>= λ t. return t.1)

  -- The view is made in the database of the default storage.
  unfoldable pub create_view :
      ReportDataSource → Query → QueryDependencies → String → Act W ReportDataSource
  create_view d q deps name = api.get_hive_storage none d.meta.namespace >>= λ s.
      reject (str_eq s.storage.database_name "") (invalid "Hive database does not exist yet")
      >> (api.render_view q deps d >>= λ statement.
          create_presto_table_cr api.create_presto_table api.reports.get_presto_table to_lower
            op.enable_finalizers "ReportDataSource" d.meta.namespace d.meta.name "hive"
            s.storage.database_name name (api.reports.query_columns q) false true statement
          >>= λ p. api.reports.wait_for_presto_table p.meta.namespace p.meta.name >>= note_table d)

  unfoldable pub ensure_view :
      ReportDataSource → Query → QueryDependencies → String → Act W ReportDataSource
  ensure_view d q deps name =
      if str_eq d.status.table_ref "" then create_view d q deps name else return d

  -- Dependencies that are not initialised or not valid end it without an error.
  abbrev pub by_verdict :
      ReportDataSource
      → Query
      → QueryDependencies
      → String
      → List DataSource × Option DependencyError
      → Act W (Unit {0})
  by_verdict d q deps name (called, some e) w = (
    if is_uninitialized_dependency_error e
        then ok tt
        else if is_invalid_dependency_error e
        then ok tt
        else err (invalid "unable to get or validate ReportQuery dependencies"),
    enqueue_data_sources api.reports called w,
  )
  by_verdict d q deps name (called, none) w =
      (ensure_view d q deps name >>= queue_dependents api)
        (enqueue_data_sources api.reports called w)

  -- The inputs of the view are not among the values: there are none.
  abbrev pub by_dependencies : ReportDataSource → Query → String → QueryResult → Act W (Unit {0})
  by_dependencies d q name (unresolved e) = fail (invalid "dependencies")
  by_dependencies d q name (resolved deps) =
      by_verdict d q deps name (validate_query_dependencies deps true)

  abbrev pub view_of : ReportDataSource → Reply Query → Act W (Unit {0})
  view_of d (missing e) = fail (call_failed "get ReportQuery" e)
  view_of d (found q) = view_name d >>= λ name w.
      by_dependencies d q name (get_query_dependencies (api.reports.sources w) q []) w

  -- handleReportQueryViewDataSource
  unfoldable pub handle_report_query_view : ReportDataSource → QueryView → Act W (Unit {0})
  handle_report_query_view d v =
      reject (str_eq v.query_name "") (invalid "spec.reportQueryView.queryName must be set") >> λ w.
      view_of d ((api.reports.sources w).get_report_query v.query_name) w
