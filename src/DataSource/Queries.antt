-- ===== src/DataSource/Queries.antt =====
-- ReportQueries: `syncReportQuery`, `handleReportQuery` and `queueDependentReportDataSourcesForQuery` of
-- pkg/operator/reportquery.go, on a key that splits.
use operator_metering.Prelude.{
  String, Bool, false, Option, none, some, List, [], ◌∷◌, str_eq, if◌then◌else◌,
}
use operator_metering.Kube.{invalid, call_failed, not_found, panicked, Result, ok, err, Act, ◌>>=◌}
use operator_metering.Dependencies.{Query}
use operator_metering.DataSource.{QueryView, ReportDataSource, DataSourceApi}

-- The data source is a view of the query of this name.
abbrev pub is_view_of : String → Option QueryView → Bool
is_view_of name none = false
is_view_of name (some v) = str_eq v.query_name name

-- The lister of queries, and the list of data sources that the API server gives.
module _ {W : Type 0} (api : DataSourceApi W) (get_query : String → String → Act W Query)
    (client_data_sources : String → Act W (List ReportDataSource)) where
  unfoldable pub queue_views_of : String → List ReportDataSource → Act W (Unit {0})
  queue_views_of name [] w = (ok tt, w)
  queue_views_of name (d ∷ ds) w =
      queue_views_of name ds
        (if is_view_of name d.spec.report_query_view then api.enqueue_data_source d w else w)

  -- handleReportQuery, which is queueDependentReportDataSourcesForQuery
  unfoldable pub handle_report_query : String → Query → Act W (Unit {0})
  handle_report_query namespace q = client_data_sources namespace >>= queue_views_of q.name

  abbrev pub query_got : String → Result Query × W → Result (Unit {0}) × W
  query_got namespace (ok q, w) = handle_report_query namespace q w
  query_got namespace (err (not_found what), w) = (ok tt, w)
  query_got namespace (err (invalid what), w) = (err (invalid what), w)
  query_got namespace (err (call_failed what e), w) = (err (call_failed what e), w)
  query_got namespace (err (panicked what), w) = (err (panicked what), w)

  -- syncReportQuery
  unfoldable pub sync_report_query : String → String → Act W (Unit {0})
  sync_report_query namespace name w = query_got namespace (get_query namespace name w)
