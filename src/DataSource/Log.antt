-- ===== src/DataSource/Log.antt =====
-- What the handlers of data sources (pkg/operator/datasources.go) send and queue, as a log that is read from the world: the
-- updates of data sources that succeeded, and the data sources put into the queue for later.
pub mod Imports
use operator_metering.Prelude.{
  String, ◌≡◌, refl, sym, ap, ◌∙◌, Bool, true, false, Option, none, some, List, [], ◌∷◌,
  if◌then◌else◌,
}
use mathlib.Core.Path.{subst}
use operator_metering.Prom.Chunks.{Duration}
use operator_metering.Prom.Import.{Collectors}
use operator_metering.Prom.Importer.Keeps.{EnvKeeps}
use operator_metering.Kube.Keeps.{keeps-continue}
use operator_metering.Kube.{Failure, Result, ok, err, Act, continue, ◌>>=◌, ignored, ignored-world}
use operator_metering.Dependencies.Validated.{QueryResult, resolved, unresolved}
use operator_metering.Report.{Report}
use operator_metering.Report.Run.Dependents.{query_dependencies, one-keeps}
use operator_metering.DataSource.{
  QueryView, ReportDataSource, Labels, DataSourceApi, update_report_data_source,
}
use operator_metering.DataSource.Dependents.{
  uses, queue_view, queue_data_sources_of, queue_reports_using, queue_dependent_data_sources,
  queue_dependent_reports, queue_dependents,
}

pub data Event : Type 0 where
  stored : ReportDataSource → Event
  queued : ReportDataSource → Duration → Event

-- Listing and queuing for now keeps an observation.
pub record QueuesQuietly {W X : Type 0} (f : W → X) (api : DataSourceApi W) : Type 0 where
  pub list_data_sources : (n : String) (w : W) → f (api.list_data_sources n w).1 ≡ f w
  pub list_reports : (n : String) (w : W) → f (api.reports.list_reports n w).1 ≡ f w
  pub enqueue_data_source : (d : ReportDataSource) (w : W) → f (api.enqueue_data_source d w) ≡ f w
  pub enqueue_dependent_report :
      (r : Report) (w : W) → f (api.reports.enqueue_dependent_report r w) ≡ f w

-- An act that leaves the log as it was where it fails.
abbrev pub FailsQuietly : {W T : Type 0} → (W → List Event) → Act W T → Type 0
FailsQuietly log act = (w : _) (e : Failure) → (act w).0 ≡ err e → log (act w).1 ≡ log w

-- The data source of this namespace and name.
abbrev pub IsNamed : String → String → ReportDataSource → Type 0
IsNamed namespace name d = (d.meta.namespace ≡ namespace) × (d.meta.name ≡ name)

-- A data source is read by its namespace and name, and an update answers with the one that was sent by these.
-- `RetryOnConflict` gives what its last attempt gives; the attempts before it failed. Nothing else writes to the log.
pub record Logs {W : Type 0} (log : W → List Event) (api : DataSourceApi W) : Type 0 where
  pub queues : QueuesQuietly log api
  pub env : (c : Option String) → EnvKeeps log (api.env c)
  pub get_last : (t : String) (w : W) → log (api.get_last t w).1 ≡ log w
  pub set_collectors :
      (l : Labels) (c : Collectors) (w : W) → log (api.set_collectors l c w) ≡ log w
  pub jitter : (a b : Duration) (w : W) → log (api.jitter a b w).1 ≡ log w
  pub get_data_source : (n m : String) (w : W) → log (api.get_data_source n m w).1 ≡ log w
  pub got :
      (n m : String) (d : ReportDataSource) (w : W)
      → (api.get_data_source n m w).0 ≡ ok d
      → IsNamed n m d
  pub answered :
      (d d' : ReportDataSource) (w : W)
      → (api.update_data_source d w).0 ≡ ok d'
      → IsNamed d.meta.namespace d.meta.name d'
  pub updated :
      (d d' : ReportDataSource) (w : W)
      → (api.update_data_source d w).0 ≡ ok d'
      → log (api.update_data_source d w).1 ≡ stored d ∷ log w
  pub not_updated : (d : ReportDataSource) → FailsQuietly log (api.update_data_source d)
  pub retried :
      (act : Act W ReportDataSource) (w : W)
      → FailsQuietly log act
      → (v : W) × ((log v ≡ log w) × (api.retry_on_conflict act w ≡ act v))
  pub enqueued_after :
      (d : ReportDataSource) (t : Duration) (w : W)
      → log (api.enqueue_data_source_after d t w) ≡ queued d t ∷ log w

module _ {W X : Type 0} (f : W → X) (api : DataSourceApi W) (quiet : QueuesQuietly f api) where
  view-keeps :
      (name : String) (d : ReportDataSource) (v : Option QueryView) (rest : Act W (Unit {0}))
      (w : W)
      → ((u : W) → f (rest u).1 ≡ f u)
      → f (queue_view api name d v rest w).1 ≡ f w
  view-keeps name d none rest w k = k w
  view-keeps name d (some v) rest w k =
      one-keeps f (λ deps. uses name deps.report_data_sources) (api.enqueue_data_source d)
        (query_dependencies api.reports d.meta.name v.inputs w) rest w
        (quiet.enqueue_data_source d w) k

  data_sources-keep :
      (name : String) (ds : List ReportDataSource) (w : W)
      → f (queue_data_sources_of api name ds w).1 ≡ f w
  unfolding queue_data_sources_of
  data_sources-keep name [] w = refl
  data_sources-keep name (d ∷ ds) w =
      view-keeps name d d.spec.report_query_view (queue_data_sources_of api name ds) w
        (data_sources-keep name ds)

  reports-keep :
      (name : String) (rs : List Report) (w : W) → f (queue_reports_using api name rs w).1 ≡ f w
  unfolding queue_reports_using
  reports-keep name [] w = refl
  reports-keep name (r ∷ rs) w =
      one-keeps f (λ deps. uses name deps.report_data_sources)
        (api.reports.enqueue_dependent_report r)
        (query_dependencies api.reports r.spec.query_name (api.reports.report_inputs r) w)
        (queue_reports_using api name rs) w (quiet.enqueue_dependent_report r w)
        (reports-keep name rs)

  -- Queuing the dependents of a data source keeps what listing and queuing keep.
  pub dependents-keep : (d : ReportDataSource) (w : W) → f (queue_dependents api d w).1 ≡ f w
  unfolding queue_dependents queue_dependent_reports queue_dependent_data_sources
  dependents-keep d w =
      let x = queue_dependent_reports api d w in
      ap f (ignored-world (queue_dependent_data_sources api d (ignored x).1))
      ∙ keeps-continue f (api.list_data_sources d.meta.namespace (ignored x).1)
          (queue_data_sources_of api d.meta.name) (data_sources-keep d.meta.name)
      ∙ quiet.list_data_sources d.meta.namespace (ignored x).1
      ∙ ap f (ignored-world x)
      ∙ keeps-continue f (api.reports.list_reports d.meta.namespace w)
          (queue_reports_using api d.meta.name) (reports-keep d.meta.name)
      ∙ quiet.list_reports d.meta.namespace w

module _ {W : Type 0} (log : W → List Event) (api : DataSourceApi W) (logs : Logs log api) where
  -- What an update of the data source of a name leaves of the log: an entry for that data source if it succeeds.
  abbrev pub IsUpdated :
      String
      → String
      → (ReportDataSource → ReportDataSource)
      → List Event
      → Result ReportDataSource × W
      → Type 0
  IsUpdated n m update before (ok d, w) =
      IsNamed n m d
      × ((was : ReportDataSource) × (IsNamed n m was × (log w ≡ stored (update was) ∷ before)))
  IsUpdated n m update before (err e, w) = log w ≡ before

  module _ (n m : String) (update : ReportDataSource → ReportDataSource)
      (same : (d : ReportDataSource) → (update d).meta ≡ d.meta) where
    sent-IsUpdated :
        (was : ReportDataSource) (w : W) (r : Result ReportDataSource × W)
        → IsNamed n m was
        → r ≡ api.update_data_source (update was) w
        → IsUpdated n m update (log w) r
    sent-IsUpdated was w (ok d, v) k h =
        let e = ap (λ x. x.0) (sym h) in
        let a = logs.answered (update was) d w e in
        (
          (a.0 ∙ ap (λ x. x.namespace) (same was) ∙ k.0, a.1 ∙ ap (λ x. x.name) (same was) ∙ k.1),
          (was, (k, ap (λ x. log x.1) h ∙ logs.updated (update was) d w e)),
        )
    sent-IsUpdated was w (err e, v) k h =
        ap (λ x. log x.1) h ∙ logs.not_updated (update was) w e (ap (λ x. x.0) (sym h))

    got-IsUpdated :
        (w : W) (r : Result ReportDataSource × W)
        → ((d : ReportDataSource) → r.0 ≡ ok d → IsNamed n m d)
        → log r.1 ≡ log w
        → IsUpdated n m update (log w) (continue r (λ d. api.update_data_source (update d)))
    got-IsUpdated w (err e, v) k h = h
    got-IsUpdated w (ok d, v) k h =
        subst (λ l. IsUpdated n m update l (api.update_data_source (update d) v)) h
          (sent-IsUpdated d v (api.update_data_source (update d) v) (k d refl) refl)

    fails :
        (before : List Event) (r : Result ReportDataSource × W) (e : Failure)
        → IsUpdated n m update before r
        → r.0 ≡ err e
        → log r.1 ≡ before
    fails before (ok d, w) e h k = cc
    fails before (err f, w) e h k = h

    -- An update that succeeds stores the change of the data source of the name, once, and answers with that data source; one
    -- that fails stores nothing.
    pub update-IsUpdated :
        (w : W) → IsUpdated n m update (log w) (update_report_data_source api n m update w)
    unfolding update_report_data_source
    update-IsUpdated w =
        let attempt : Act W ReportDataSource =
          api.get_data_source n m >>= λ d. api.update_data_source (update d) in
        let once : (u : W) → IsUpdated n m update (log u) (attempt u) = λ u.
          got-IsUpdated u (api.get_data_source n m u) (λ d. logs.got n m d u)
            (logs.get_data_source n m u) in
        let (v, (kept, retried)) =
          logs.retried attempt w (λ u e. fails (log u) (attempt u) e (once u)) in
        subst (IsUpdated n m update (log w)) (sym retried)
          (subst (λ l. IsUpdated n m update l (attempt v)) kept (once v))
