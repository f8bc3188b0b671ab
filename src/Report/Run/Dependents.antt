-- ===== src/Report/Run/Dependents.antt =====
-- The resources that depend on a Report: `queueDependentReportQueriesForReport`, `queueDependentReportsForReport` and
-- `getReportDependencies` of pkg/operator/reports.go, and `getQueryDependencies` of pkg/operator/datasources.go.
use operator_metering.Prelude.{
  String, ◌≡◌, refl, ◌∙◌, Bool, true, false, ◌||◌, List, [], ◌∷◌, str_eq, if◌then◌else◌,
}
use operator_metering.Kube.Keeps.{Keeps, keeps-continue}
use operator_metering.Kube.{invalid, ok, err, Act, ◌>>=◌}
use operator_metering.Dependencies.{Query, ReportRef, InputValue, Reply, found, missing, not_found}
use operator_metering.Dependencies.Validate.{QueryDependencies}
use operator_metering.Dependencies.Validated.{
  QueryResult, resolved, unresolved, get_query_dependencies,
}
use operator_metering.Report.{Report}
use operator_metering.Report.Run.{ReportApi}

-- some dependency has the name
abbrev pub depends_on : String → List ReportRef → Bool
depends_on name [] = false
depends_on name (r ∷ rs) = str_eq r.name name || depends_on name rs

-- The body of the loops over what may depend on a resource: an error ends the loop.
abbrev pub queue_one :
    {W : Type 0}
    → (QueryDependencies → Bool)
    → (W → W)
    → QueryResult
    → Act W (Unit {0})
    → Act W (Unit {0})
queue_one test enqueue (unresolved e) rest w = (err (invalid "dependencies"), w)
queue_one test enqueue (resolved deps) rest w = rest (if test deps then enqueue w else w)

module _ {W : Type 0} (api : ReportApi W) where
  abbrev pub of_reply : Reply Query → List InputValue → W → QueryResult
  of_reply (missing e) vals w = unresolved (not_found e)
  of_reply (found q) vals w = get_query_dependencies (api.sources w) q vals

  -- getQueryDependencies
  unfoldable pub query_dependencies : String → List InputValue → W → QueryResult
  query_dependencies name vals w = of_reply ((api.sources w).get_report_query name) vals w

  unfoldable pub queue_reports_of : String → List Report → Act W (Unit {0})
  queue_reports_of name [] w = (ok tt, w)
  queue_reports_of name (r ∷ rs) w =
      queue_one (λ deps. depends_on name deps.reports) (api.enqueue_dependent_report r)
        (query_dependencies r.spec.query_name (api.report_inputs r) w) (queue_reports_of name rs) w

  unfoldable pub queue_queries_of : String → List Query → Act W (Unit {0})
  queue_queries_of name [] w = (ok tt, w)
  queue_queries_of name (q ∷ qs) w =
      queue_one (λ deps. depends_on name deps.reports) (api.enqueue_report_query q)
        (query_dependencies q.name [] w) (queue_queries_of name qs) w

  -- queueDependentReportsForReport
  unfoldable pub queue_dependent_reports_for_report : Report → Act W (Unit {0})
  queue_dependent_reports_for_report r = api.list_reports r.namespace >>= queue_reports_of r.name

  -- queueDependentReportQueriesForReport
  unfoldable pub queue_dependent_report_queries_for_report : Report → Act W (Unit {0})
  queue_dependent_report_queries_for_report r =
      api.list_queries r.namespace >>= queue_queries_of r.name

  -- `runReport` calls both; an error of the first is only logged.
  unfoldable pub queue_dependents : Report → Act W (Unit {0})
  queue_dependents r w =
      queue_dependent_reports_for_report r (queue_dependent_report_queries_for_report r w).1

-- Listing resources and putting dependents into their queues keeps an observation of the world.
pub record QueuesQuietly {W X : Type 0} (f : W → X) (api : ReportApi W) : Type 0 where
  pub list_reports : (n : String) (w : W) → f (api.list_reports n w).1 ≡ f w
  pub list_queries : (n : String) (w : W) → f (api.list_queries n w).1 ≡ f w
  pub enqueue_dependent_report : (r : Report) (w : W) → f (api.enqueue_dependent_report r w) ≡ f w
  pub enqueue_report_query : (q : Query) (w : W) → f (api.enqueue_report_query q w) ≡ f w

module _ {W X : Type 0} (f : W → X) where
  pub one-keeps :
      (test : QueryDependencies → Bool) (enqueue : W → W) (q : QueryResult)
      (rest : Act W (Unit {0})) (w : W)
      → f (enqueue w) ≡ f w
      → Keeps f rest
      → f (queue_one test enqueue q rest w).1 ≡ f w
  one-keeps test enqueue (unresolved e) rest w h k = refl
  one-keeps test enqueue (resolved deps) rest w h k = k _ ∙ on_if (test deps)
    where
      on_if : (b : Bool) → f (if b then enqueue w else w) ≡ f w
      on_if true = h
      on_if false = refl

module _ {W X : Type 0} (f : W → X) (api : ReportApi W) (quiet : QueuesQuietly f api) where
  reports-keep :
      (name : String) (rs : List Report) (w : W) → f (queue_reports_of api name rs w).1 ≡ f w
  unfolding queue_reports_of
  reports-keep name [] w = refl
  reports-keep name (r ∷ rs) w =
      one-keeps f (λ deps. depends_on name deps.reports) (api.enqueue_dependent_report r)
        (query_dependencies api r.spec.query_name (api.report_inputs r) w)
        (queue_reports_of api name rs) w (quiet.enqueue_dependent_report r w) (reports-keep name rs)

  queries-keep :
      (name : String) (qs : List Query) (w : W) → f (queue_queries_of api name qs w).1 ≡ f w
  unfolding queue_queries_of
  queries-keep name [] w = refl
  queries-keep name (q ∷ qs) w =
      one-keeps f (λ deps. depends_on name deps.reports) (api.enqueue_report_query q)
        (query_dependencies api q.name [] w) (queue_queries_of api name qs) w
        (quiet.enqueue_report_query q w) (queries-keep name qs)

  -- Queuing the dependents of a report keeps what listing and queuing keep.
  pub dependents-keep : (r : Report) (w : W) → f (queue_dependents api r w).1 ≡ f w
  unfolding queue_dependents queue_dependent_reports_for_report
      queue_dependent_report_queries_for_report
  dependents-keep r w =
      let v = (queue_dependent_report_queries_for_report api r w).1 in
      keeps-continue f (api.list_reports r.namespace v) (queue_reports_of api r.name)
        (reports-keep r.name)
      ∙ quiet.list_reports r.namespace v
      ∙ keeps-continue f (api.list_queries r.namespace w) (queue_queries_of api r.name)
          (queries-keep r.name)
      ∙ quiet.list_queries r.namespace w
