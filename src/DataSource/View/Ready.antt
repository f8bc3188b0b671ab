-- ===== src/DataSource/View/Ready.antt =====
-- When `handleReportQueryViewDataSource` (pkg/operator/datasources.go) makes a view.
use operator_metering.Prelude.{
  String, ◌≡◌, ◌≢◌, refl, ◌∙◌, Bool, true, false, Option, none, some, List, [], ◌∷◌, str_eq, eq_iff,
  if◌then◌else◌, arith, Bool-cases, inl, inr,
}
use operator_metering.Kube.Keeps.{keeps-return}
use operator_metering.Kube.{Result, ok, err, Act, continue, ◌>>=◌, return}
use operator_metering.Dependencies.{Query, DataSource, Reply, found, missing}
use operator_metering.Dependencies.Validate.{
  QueryDependencies, DependencyError, validate_query_dependencies, validate-HasTables,
}
use operator_metering.Dependencies.Validated.{
  QueryResult, resolved, unresolved, get_query_dependencies, HasTables,
}
use operator_metering.Hive.Tables.{PrestoTable}
use operator_metering.Report.Run.{enqueue_data_sources}
use operator_metering.Report.Run.Table.{fully_qualified_table_name}
use operator_metering.DataSource.{QueryView, ReportDataSource, DataSourceApi, of_result}
use operator_metering.DataSource.Config.{OperatorConfig}
use operator_metering.DataSource.Tables.{found_table}
use operator_metering.DataSource.View.{
  view_name, by_verdict, by_dependencies, view_of, handle_report_query_view,
}

-- An observation that queuing data sources and looking a Presto table up keep.
pub record IsQuiet {W X : Type 0} (f : W → X) (api : DataSourceApi W) : Type 0 where
  pub enqueue_data_source : (d : DataSource) (w : W) → f (api.reports.enqueue_data_source d w) ≡ f w
  pub get_presto_table : (n m : String) (w : W) → f (api.reports.get_presto_table n m w).1 ≡ f w

module _ {W : Type 0} (api : DataSourceApi W) (op : OperatorConfig)
    (to_lower replace : String → String) where
  -- The view has a query, whose dependencies are found and all have tables.
  pub record ViewReady (d : ReportDataSource) (v : QueryView) (w : W) : Type 0 where
    pub query : Query
    pub deps : QueryDependencies
    pub name : String
    pub after : W
    pub is_named : v.query_name ≢ ""
    pub is_found : (api.reports.sources w).get_report_query v.query_name ≡ found query
    pub has_name : view_name api op to_lower replace d w ≡ (ok name, after)
    pub has_dependencies :
        get_query_dependencies (api.reports.sources after) query [] ≡ resolved deps
    pub has_tables : HasTables deps

  module _ {X : Type 0} (f : W → X) (quiet : IsQuiet f api) where
    enqueue-keeps : (ds : List DataSource) (w : W) → f (enqueue_data_sources api.reports ds w) ≡ f w
    unfolding enqueue_data_sources
    enqueue-keeps [] w = refl
    enqueue-keeps (d ∷ ds) w =
        enqueue-keeps ds (api.reports.enqueue_data_source d w) ∙ quiet.enqueue_data_source d w

    found-keeps :
        (d : ReportDataSource) (r : Result PrestoTable × W)
        → f
            (continue {V = PrestoTable × String} r
              (λ p. of_result (fully_qualified_table_name p) >>= λ name. return (p, name))).1
          ≡ f r.1
    found-keeps d (err e, w) = refl
    found-keeps d (ok p, w) = keeps-return f (fully_qualified_table_name p, w) (λ name. (p, name))

    name-if :
        (b : Bool) (x : Act W String) (s : String) (w : W)
        → f (x w).1 ≡ f w
        → f ((if b then return s else x) w).1 ≡ f w
    name-if true x s w h = refl
    name-if false x s w h = h

    name-keeps : (d : ReportDataSource) (w : W) → f (view_name api op to_lower replace d w).1 ≡ f w
    unfolding view_name found_table
    name-keeps d w = name-if (str_eq d.status.table_ref "") _ _ w (
        keeps-return f (found_table api op to_lower replace d w) (λ t. t.1)
        ∙ found-keeps d (api.reports.get_presto_table d.meta.namespace d.status.table_ref w)
        ∙ quiet.get_presto_table d.meta.namespace d.status.table_ref w)

    verdict-ready :
        (d : ReportDataSource) (q : Query) (deps : QueryDependencies) (name : String)
        (r : List DataSource × Option DependencyError) (w : W)
        → f (by_verdict api op to_lower replace d q deps name r w).1 ≢ f w
        → r.1 ≡ none
    verdict-ready d q deps name (ds, none) w h = refl
    verdict-ready d q deps name (ds, some e) w h = absurd (h (enqueue-keeps ds w))

    dependencies-ready :
        (d : ReportDataSource) (q : Query) (name : String) (r : QueryResult) (w : W)
        → f (by_dependencies api op to_lower replace d q name r w).1 ≢ f w
        → (deps : QueryDependencies) × ((r ≡ resolved deps) × HasTables deps)
    dependencies-ready d q name (unresolved e) w h = absurd (h refl)
    dependencies-ready d q name (resolved deps) w h =
        let t =
          (validate-HasTables deps true).0
            (verdict-ready d q deps name (validate_query_dependencies deps true) w h) in
        (deps, (refl, record { data_sources = t.0; reports = t.1 }))

    module _ (d : ReportDataSource) (v : QueryView) (w : W) where
      named-ready :
          (q : Query) (r : Result String × W)
          → v.query_name ≢ ""
          → (api.reports.sources w).get_report_query v.query_name ≡ found q
          → view_name api op to_lower replace d w ≡ r
          → f r.1 ≡ f w
          → f
              (continue r (λ name u.
                by_dependencies api op to_lower replace d q name
                  (get_query_dependencies (api.reports.sources u) q [])
                  u)).1
            ≢ f w
          → ViewReady d v w
      named-ready q (err e, u) n g a k h = absurd (h k)
      named-ready q (ok name, u) n g a k h =
          let (deps, (x, y)) =
            dependencies-ready d q name (get_query_dependencies (api.reports.sources u) q []) u
              (λ e. h (e ∙ k)) in
          record {
            query = q;
            deps = deps;
            name = name;
            after = u;
            is_named = n;
            is_found = g;
            has_name = a;
            has_dependencies = x;
            has_tables = y;
          }

      query-ready :
          (r : Reply Query)
          → v.query_name ≢ ""
          → (api.reports.sources w).get_report_query v.query_name ≡ r
          → f (view_of api op to_lower replace d r w).1 ≢ f w
          → ViewReady d v w
      query-ready (missing e) n g h = absurd (h refl)
      query-ready (found q) n g h =
          named-ready q (view_name api op to_lower replace d w) n g refl (name-keeps d w) h

    -- If handling a data source that is a view changes an observation of the world that looking a Presto table up and queuing
    -- data sources that are not initialised keep, then the view names a query that is there, and its dependencies, without the
    -- view's inputs, are found and all have tables.
    pub view-ViewReady :
        (d : ReportDataSource) (v : QueryView) (w : W)
        → f (handle_report_query_view api op to_lower replace d v w).1 ≢ f w
        → ViewReady d v w
    unfolding handle_report_query_view
    view-ViewReady d v w h = elim (Bool-cases (str_eq v.query_name "")) [
      | inl e ↦ absurd (h (rw e refl))
      | inr e ↦
          query-ready d v w ((api.reports.sources w).get_report_query v.query_name)
            (λ n. ground (arith, e, n, eq_iff v.query_name "")) refl (rw e at h)
    ]
