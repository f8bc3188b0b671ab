-- ===== src/DataSource/Import/Others.antt =====
-- What `handlePrometheusMetricsDataSource` (pkg/operator/datasources.go) leaves of the importers of other data sources.
use operator_metering.Prelude.{
  String, ◌≡◌, ◌≢◌, refl, Option, none, some, List, [], ◌∷◌, str_eq, eq_iff, arith,
}
use operator_metering.Prom.Import.{Config}
use operator_metering.Prom.Importer.{Outcome}
use operator_metering.Kube.Keeps.{keeps-then, keeps-if}
use operator_metering.Kube.{Act}
use operator_metering.Dependencies.{put}
use operator_metering.Hive.Tables.{PrestoTable}
use operator_metering.DataSource.{
  MetricsImporter, ReportDataSource, Entry, Operator, DataSourceApi, on_world, of_result,
}
use operator_metering.DataSource.Config.{OperatorConfig, new_prom_importer_cfg}
use operator_metering.DataSource.Importers.{
  find, found_or_new, keep, importer_for, new_prom_importer,
}
use operator_metering.DataSource.Tables.{found_table}
use operator_metering.DataSource.Import.{
  imported, run_import, import_with, import_metrics, import_to_table, by_importer,
  handle_prometheus_metrics,
}

find-put_other :
    (n k : String) (e : Entry) (m : List (String × Entry)) → n ≢ k → find n (put k e m) ≡ find n m
find-put_other n k e [] h = ground (arith, h, eq_iff k n)
find-put_other n k e ((j, x) ∷ m) h =
    ground (arith, h, find-put_other n k e m h, eq_iff j k, eq_iff j n, eq_iff k n)

module _ {W : Type 0} (n : String) where
  -- An act of the operator keeps the importer of the name.
  abbrev pub KeepsImporter : {T : Type 0} → Act (Operator W) T → Type 0
  KeepsImporter act = (o : Operator W) → find n (act o).1.importers ≡ find n o.importers

  abbrev of_name : Operator W → Option Entry
  of_name o = find n o.importers

  module _ (api : DataSourceApi W) (op : OperatorConfig) (to_lower replace : String → String)
      (d : ReportDataSource) (other : n ≢ d.meta.name) where
    keep-keeps : (e : Entry) → KeepsImporter (keep api d.meta.name e)
    keep-keeps e o = find-put_other n d.meta.name e o.importers other

    entry-keeps :
        (m : MetricsImporter) (cfg : Config) (e : Option Entry)
        → KeepsImporter (found_or_new api d m cfg e)
    entry-keeps m cfg (some e) = keep-keeps _
    entry-keeps m cfg none =
        keeps-then of_name (on_world (new_prom_importer api d m cfg)) (keep api d.meta.name)
          (λ o. refl) keep-keeps

    importer_for-keeps :
        (m : MetricsImporter) (cfg : Config) → KeepsImporter (importer_for api d m cfg)
    unfolding importer_for
    importer_for-keeps m cfg o = entry-keeps m cfg (find d.meta.name o.importers) o

    imported-keeps :
        (e : Entry) (x : Option (Outcome W)) (o : Operator W)
        → find n (imported api op to_lower replace d.meta.name e x o).1.importers
          ≡ find n o.importers
    imported-keeps e none o = refl
    imported-keeps e (some out) o = find-put_other n d.meta.name _ o.importers other

    with-keeps :
        (m : MetricsImporter) (cfg : Config) (e : Entry)
        → KeepsImporter (import_with api op to_lower replace d m cfg e)
    unfolding import_with run_import
    with-keeps m cfg e o = imported-keeps e _ o

    metrics-keep :
        (m : MetricsImporter) (t : PrestoTable)
        → KeepsImporter (import_metrics api op to_lower replace d m t)
    unfolding import_metrics
    metrics-keep m t =
        keeps-then of_name (of_result (new_prom_importer_cfg op m t)) _ (λ o. refl)
          λ cfg.
            keeps-then of_name (importer_for api d m cfg) _ (importer_for-keeps m cfg)
              (with-keeps m cfg)

    table-keeps :
        (m : MetricsImporter) → KeepsImporter (import_to_table api op to_lower replace d m)
    unfolding import_to_table
    table-keeps m =
        keeps-then of_name (on_world (found_table api op to_lower replace d)) _ (λ o. refl)
          λ t.
            keeps-if of_name op.disable_prometheus_metrics_importer _ _ (λ o. refl)
              (metrics-keep m t.0)

    by-keeps :
        (m : Option MetricsImporter) → KeepsImporter (by_importer api op to_lower replace d m)
    by-keeps none = λ o. refl
    by-keeps (some m) =
        keeps-if of_name (str_eq d.status.table_ref "") _ _ (λ o. refl) (table-keeps m)

    -- Whatever is answered: handling a data source that imports metrics leaves the importers of all other names as they are.
    pub handle-KeepsImporter : KeepsImporter (handle_prometheus_metrics api op to_lower replace d)
    unfolding handle_prometheus_metrics
    handle-KeepsImporter = by-keeps d.spec.prometheus_metrics_importer
