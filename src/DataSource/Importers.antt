-- ===== src/DataSource/Importers.antt =====
-- The importers that the operator keeps: the closure of `handlePrometheusMetricsDataSource` (pkg/operator/datasources.go), and
-- `newPromImporter` and the labels of `newPromImporterMetricsCollectors` of pkg/operator/promsum.go.
pub mod Resumes
use operator_metering.Prelude.{
  String, ◌≡◌, refl, ap, Bool, true, false, Option, none, some, List, [], ◌∷◌, str_eq,
  if◌then◌else◌,
}
use operator_metering.Prom.Import.{Config}
use operator_metering.Prom.Importer.{Importer, new_prometheus_importer, update_config}
use operator_metering.Kube.{call_failed, Result, ok, err, Act, return, ◌>>=◌, called}
use operator_metering.Dependencies.{put}
use operator_metering.DataSource.{
  MetricsImporter, ReportDataSource, Labels, Entry, Operator, DataSourceApi, on_world,
}

-- `importers[name]`
abbrev pub find : String → List (String × Entry) → Option Entry
find name [] = none
find name ((k, e) ∷ m) = let rest = find name m in if str_eq k name then some e else rest

-- newPromImporterMetricsCollectors: the collectors are those of the labels
abbrev pub labels_of : ReportDataSource → Config → Labels
labels_of d cfg = record {
  name = d.meta.name;
  namespace = d.meta.namespace;
  table_name = cfg.presto_table_name;
}

abbrev pub entry_with : Config → Entry → Entry
entry_with cfg e = record e { importer = update_config e.importer cfg }

module _ {W : Type 0} (api : DataSourceApi W) where
  abbrev pub connected : Entry → Option String × W → Result Entry × W
  connected e (none, w) = (ok e, w)
  connected e (some x, w) = (err (call_failed "connect to Prometheus" x), w)

  abbrev pub new_entry : ReportDataSource → Config → Option String → Entry
  new_entry d cfg url = record {
    importer = new_prometheus_importer cfg;
    connection = url;
    labels = labels_of d cfg;
  }

  -- newPromImporter
  unfoldable pub new_prom_importer : ReportDataSource → MetricsImporter → Config → Act W Entry
  new_prom_importer d m cfg w =
      if str_eq m.prometheus_url ""
      then (ok (new_entry d cfg none), w)
      else connected (new_entry d cfg (some m.prometheus_url)) (api.connect m.prometheus_url w)

  -- `op.importers[name] = importer`
  abbrev pub keep : String → Entry → Act (Operator W) Entry
  keep name e o = (ok e, record o { importers = put name e o.importers })

  abbrev pub found_or_new :
      ReportDataSource → MetricsImporter → Config → Option Entry → Act (Operator W) Entry
  found_or_new d m cfg (some e) = keep d.meta.name (entry_with cfg e)
  found_or_new d m cfg none = on_world (new_prom_importer d m cfg) >>= keep d.meta.name

  -- the closure: the importer of the data source's name, with the new configuration, or a new one
  unfoldable pub importer_for : ReportDataSource → MetricsImporter → Config → Act (Operator W) Entry
  importer_for d m cfg o = found_or_new d m cfg (find d.meta.name o.importers) o
