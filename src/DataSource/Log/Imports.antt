-- ===== src/DataSource/Log/Imports.antt =====
-- What an import of a data source's metrics stores and queues: `handlePrometheusMetricsDataSource` (pkg/operator/datasources.go) from
-- the importer on.
use operator_metering.Prelude.{String, ◌*◌, ◌≡◌, Bool, true, false, List, ◌∷◌}
use operator_metering.Prom.Chunks.{Time, Duration, second}
use operator_metering.Prom.Import.{Config, Results}
use operator_metering.Kube.{Result, ok, err}
use operator_metering.DataSource.{
  MetricsImporter, ReportDataSource, ImportStatus, Operator, DataSourceApi, set_import_status,
}
use operator_metering.DataSource.Config.{OperatorConfig, get_query_interval}
use operator_metering.DataSource.Status.{
  finds_backlog, Recorded, nothing_processed, older_data, recorded, record_results,
}
use operator_metering.DataSource.Import.{Imported, results}
use operator_metering.DataSource.Log.{Event, stored, queued, Logs, IsNamed}

-- The delay until the next import: with a backlog the jitter that was asked for, and else the interval.
abbrev pub IsDelay : {W : Type 0} → DataSourceApi W → Bool → Duration → Duration → Type 0
IsDelay {W} api true interval delay = (w : W) × (delay ≡ (api.jitter (5 * second) 20 w).0)
IsDelay {W} api false interval delay = delay ≡ interval

-- What follows from what an import recorded: without a processed range the data source is queued, older data leaves it
-- off the queue, and otherwise the new status is stored, in the data source of the same namespace and name, before
-- this data source is queued. It is queued for a time that `P` says.
abbrev pub Follows :
    (Duration → Type 0) → ReportDataSource → Recorded → List Event → List Event → Type 0
Follows P d nothing_processed before after =
    (delay : Duration) × (P delay × (after ≡ queued d delay ∷ before))
Follows P d older_data before after = after ≡ before
Follows P d (recorded s b) before after =
    (was : ReportDataSource) × ((d' : ReportDataSource) × ((delay : Duration) × (P delay
          × (IsNamed d.meta.namespace d.meta.name was
              × (IsNamed d.meta.namespace d.meta.name d'
                  × (after ≡ queued d' delay ∷ stored (set_import_status s was) ∷ before))))))

module _ {W : Type 0} (log : W → List Event) (api : DataSourceApi W) (logs : Logs log api)
    (op : OperatorConfig) (to_lower replace : String → String) where
  -- an act that did what `P` says, or failed and left the log
  abbrev pub Settles : (List Event → Type 0) → List Event → Result (Unit {0}) × W → Type 0
  Settles P before (ok u, w) = P (log w)
  Settles P before (err e, w) = log w ≡ before

  -- The delay that follows from results, for an import that was over at `now`.
  abbrev pub Delays : MetricsImporter → Config → ImportStatus → Time → Results → Duration → Type 0
  Delays m cfg s now r =
      IsDelay api (finds_backlog cfg.chunk_size now r s) (get_query_interval op m)

  -- An import that ends well had results, and what follows from them followed; one that fails left the log.
  abbrev pub IsSettled :
      ReportDataSource
      → MetricsImporter
      → Config
      → ImportStatus
      → List Event
      → Imported × Operator W
      → Result (Unit {0}) × Operator W
      → Type 0
  IsSettled d m cfg s before i (err e, o) = log o.world ≡ before
  IsSettled d m cfg s before i (ok u, o) =
      (r : Results) × ((i.0 ≡ results r)
        × Follows (Delays m cfg s (api.reports.clock i.1.world) r) d (record_results r s) before
            (log o.world))
