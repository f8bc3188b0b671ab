-- ===== src/DataSource/Dependents.antt =====
-- What depends on a data source: `queueDependentReportDataSourcesForDataSource` and `queueDependentReportsForDataSource` of
-- pkg/operator/datasources.go.
pub mod Names
use operator_metering.Prelude.{
  String, ◌≡◌, refl, ap, ◌∙◌, Bool, true, false, ◌||◌, Option, none, some, List, [], ◌∷◌, str_eq,
  if◌then◌else◌,
}
use operator_metering.Kube.{invalid, Result, ok, err, Act, continue, ◌>>=◌, ignored}
use operator_metering.Dependencies.{DataSource}
use operator_metering.Dependencies.Validated.{QueryResult, resolved, unresolved}
use operator_metering.Report.{Report}
use operator_metering.Report.Run.Dependents.{queue_one, query_dependencies}
use operator_metering.DataSource.{QueryView, ReportDataSource, DataSourceApi}

-- some dependency has the data source's name
abbrev pub uses : String → List DataSource → Bool
uses name [] = false
uses name (d ∷ ds) = str_eq d.name name || uses name ds

module _ {W : Type 0} (api : DataSourceApi W) where
  -- The query that is looked up has the name of the data source, and not that of its view's query.
  abbrev pub queue_view :
      String → ReportDataSource → Option QueryView → Act W (Unit {0}) → Act W (Unit {0})
  queue_view name d none rest w = rest w
  queue_view name d (some v) rest w =
      queue_one (λ deps. uses name deps.report_data_sources) (api.enqueue_data_source d)
        (query_dependencies api.reports d.meta.name v.inputs w) rest w

  unfoldable pub queue_data_sources_of : String → List ReportDataSource → Act W (Unit {0})
  queue_data_sources_of name [] w = (ok tt, w)
  queue_data_sources_of name (d ∷ ds) w =
      queue_view name d d.spec.report_query_view (queue_data_sources_of name ds) w

  unfoldable pub queue_reports_using : String → List Report → Act W (Unit {0})
  queue_reports_using name [] w = (ok tt, w)
  queue_reports_using name (r ∷ rs) w =
      queue_one (λ deps. uses name deps.report_data_sources)
        (api.reports.enqueue_dependent_report r)
        (query_dependencies api.reports r.spec.query_name (api.reports.report_inputs r) w)
        (queue_reports_using name rs) w

  -- queueDependentReportDataSourcesForDataSource
  unfoldable pub queue_dependent_data_sources : ReportDataSource → Act W (Unit {0})
  queue_dependent_data_sources d =
      api.list_data_sources d.meta.namespace >>= queue_data_sources_of d.meta.name

  -- queueDependentReportsForDataSource
  unfoldable pub queue_dependent_reports : ReportDataSource → Act W (Unit {0})
  queue_dependent_reports d =
      api.reports.list_reports d.meta.namespace >>= queue_reports_using d.meta.name

  -- The handlers call both and only log their errors.
  unfoldable pub queue_dependents : ReportDataSource → Act W (Unit {0})
  queue_dependents d w =
      ignored (queue_dependent_data_sources d (ignored (queue_dependent_reports d w)).1)
