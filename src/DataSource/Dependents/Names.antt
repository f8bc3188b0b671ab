-- ===== src/DataSource/Dependents/Names.antt =====
-- Which queries `queueDependentReportDataSourcesForDataSource` (pkg/operator/datasources.go) reads.
use operator_metering.Prelude.{
  Bool, String, ◌≡◌, refl, ap, ◌∙◌, Option, none, some, List, [], ◌∷◌, map, if◌then◌else◌,
}
use operator_metering.Kube.{Act}
use operator_metering.Dependencies.Validate.{QueryDependencies}
use operator_metering.Dependencies.Validated.{QueryResult, resolved, unresolved}
use operator_metering.Report.Run.Dependents.{queue_one, query_dependencies}
use operator_metering.DataSource.{QueryView, ReportDataSource, DataSourceApi}
use operator_metering.DataSource.Dependents.{uses, queue_view, queue_data_sources_of}

-- The data source with another query for its view, if it is a view.
abbrev pub view_with : String → Option QueryView → Option QueryView
view_with q none = none
view_with q (some v) = some (record v { query_name = q })

abbrev pub with_query : String → ReportDataSource → ReportDataSource
with_query q d =
    let s = d.spec in
    record d { spec = record s { report_query_view = view_with q s.report_query_view } }

-- Putting a data source into its queue is about its namespace and its name.
abbrev pub QueuesByKey : {W : Type 0} → DataSourceApi W → Type 0
QueuesByKey {W} api =
    (d d' : ReportDataSource) (w : W)
    → d.meta ≡ d'.meta
    → api.enqueue_data_source d w ≡ api.enqueue_data_source d' w

module _ {W : Type 0} (api : DataSourceApi W) (by_key : QueuesByKey api) where
  if-same :
      (test : QueryDependencies → Bool) (f g : W → W) (r : QueryResult)
      (rest rest' : Act W (Unit {0})) (w : W)
      → f w ≡ g w
      → ((v : W) → rest v ≡ rest' v)
      → queue_one test f r rest w ≡ queue_one test g r rest' w
  if-same test f g (unresolved e) rest rest' w h k = refl
  if-same test f g (resolved deps) rest rest' w h k =
      ap (λ x. rest (if test deps then x else w)) h ∙ k _

  view-same :
      (name q : String) (d : ReportDataSource) (v : Option QueryView)
      (rest rest' : Act W (Unit {0})) (w : W)
      → ((v : W) → rest v ≡ rest' v)
      → queue_view api name (with_query q d) (view_with q v) rest w
        ≡ queue_view api name d v rest' w
  view-same name q d none rest rest' w k = k w
  view-same name q d (some v) rest rest' w k =
      if-same (λ deps. uses name deps.report_data_sources)
        (api.enqueue_data_source (with_query q d)) (api.enqueue_data_source d)
        (query_dependencies api.reports d.meta.name v.inputs w) rest rest' w
        (by_key (with_query q d) d w refl) k

  -- With a queue of names, which data sources are queued as dependents of `name` does not depend on the queries of their views.
  pub queue_data_sources-with_query :
      (name : String) (query_of : ReportDataSource → String) (ds : List ReportDataSource) (w : W)
      → queue_data_sources_of api name (map (λ d. with_query (query_of d) d) ds) w
        ≡ queue_data_sources_of api name ds w
  unfolding queue_data_sources_of
  queue_data_sources-with_query name query_of [] w = refl
  queue_data_sources-with_query name query_of (d ∷ ds) w =
      view-same name (query_of d) d d.spec.report_query_view _ _ w
        (queue_data_sources-with_query name query_of ds)
