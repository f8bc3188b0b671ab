-- ===== src/DataSource/Importers/Resumes.antt =====
-- The importer that the operator keeps for a name, from one import to the next (pkg/operator/datasources.go).
use operator_metering.Prelude.{
  ◌≤◌, ◌<◌, String, ◌≡◌, refl, sym, ap, ◌∙◌, true, Option, none, some, List, [], ◌∷◌, eq_iff, All,
  last?, arith,
}
use operator_metering.Prom.Chunks.{minute, Range}
use operator_metering.Prom.Import.{Config, Results, ImportError}
use operator_metering.Prom.Importer.{Outcome, update_config, import_from_last_timestamp}
use operator_metering.Prom.Importer.Resume.{run_remembers, run_starts_after}
use operator_metering.Kube.{ok, ok-injective}
use operator_metering.Dependencies.{put}
use operator_metering.DataSource.{MetricsImporter, ReportDataSource, Entry, Operator, DataSourceApi}
use operator_metering.DataSource.Config.{OperatorConfig}
use operator_metering.DataSource.Importers.{find, entry_with, found_or_new, importer_for}
use operator_metering.DataSource.Import.{results, imported_of, imported, run_import}

find-put :
    (name : String) (e : Entry) (m : List (String × Entry)) → find name (put name e m) ≡ some e
find-put name e [] = ground (arith, eq_iff name name)
find-put name e ((k, x) ∷ m) = ground (arith, find-put name e m, eq_iff name name)

results-injective : (t r : Results) → results t ≡ results r → t ≡ r
results-injective t r h = cc

imported_of-some :
    (e : Option ImportError) (o : Option Results) (r : Results)
    → imported_of e o ≡ results r
    → (e ≡ none) × (o ≡ some r)
imported_of-some (some x) o r h = cc
imported_of-some none none r h = cc
imported_of-some none (some t) r h = (refl, ap some (results-injective t r h))

module _ {W : Type 0} (api : DataSourceApi W) (op : OperatorConfig)
    (to_lower replace : String → String) where
  -- The run of an import with results, and the importer that it leaves.
  pub record Ran (name : String) (e : Entry) (o : Operator W) (r : Results) : Type 0 where
    pub outcome : Outcome W
    pub run :
        import_from_last_timestamp
          (api.env e.connection)
          api.get_last
          e.importer
          (api.reports.clock o.world)
          true
          (api.collectors e.labels o.world)
          o.world
        ≡ some outcome
    pub ok : outcome.error ≡ none
    pub got : outcome.results ≡ some r
    pub kept :
        find name (run_import api op to_lower replace name e o).1.importers
        ≡ some (record e { importer = outcome.importer })

  run_import-Ran :
      (name : String) (e : Entry) (o : Operator W) (r : Results)
      → (run_import api op to_lower replace name e o).0 ≡ results r
      → Ran name e o r
  unfolding run_import
  run_import-Ran name e o r = on _ refl
    where
      on :
          (x : Option (Outcome W))
          → import_from_last_timestamp
              (api.env e.connection)
              api.get_last
              e.importer
              (api.reports.clock o.world)
              true
              (api.collectors e.labels o.world)
              o.world
            ≡ x
          → (imported api op to_lower replace name e x o).0 ≡ results r
          → Ran name e o r
      on none h k = absurd (cc)
      on (some out) h k =
          let (x, y) = imported_of-some out.error out.results r k in
          record {
            outcome = out;
            run = h;
            ok = x;
            got = y;
            kept =
                ap (λ x. find name (imported api op to_lower replace name e x o).1.importers) h
                ∙ find-put name _ o.importers;
          }

  importer_for-found :
      (d : ReportDataSource) (m : MetricsImporter) (cfg : Config) (e e' : Entry) (o : Operator W)
      → find d.meta.name o.importers ≡ some e
      → (importer_for api d m cfg o).0 ≡ ok e'
      → e' ≡ entry_with cfg e
  unfolding importer_for
  importer_for-found d m cfg e e' o h k =
      sym (ok-injective _ e' (ap (λ x. (found_or_new api d m cfg x o).0) (sym h) ∙ k))

  -- The importer of a data source goes on after the last range that a data source of this name imported, in its own or
  -- in another namespace, whatever the state of the world by then, with a step of a minute or more; it counts under
  -- the labels of that data source, and uses the connection of that data source.
  pub next_import_starts_after :
      (d d' : ReportDataSource) (m : MetricsImporter) (cfg : Config) (e e' : Entry)
      (o o' o'' : Operator W) (res res' : Results) (r : Range)
      → d'.meta.name ≡ d.meta.name
      → minute ≤ cfg.step_size
      → (run_import api op to_lower replace d.meta.name e o).0 ≡ results res
      → last? res.processed_time_ranges ≡ some r
      → o'.importers ≡ (run_import api op to_lower replace d.meta.name e o).1.importers
      → (importer_for api d' m cfg o').0 ≡ ok e'
      → (run_import api op to_lower replace d'.meta.name e' o'').0 ≡ results res'
      → All (λ r'. r.end < r'.start) res'.processed_time_ranges
        × ((e'.labels ≡ e.labels) × (e'.connection ≡ e.connection))
  unfolding update_config
  next_import_starts_after d d' m cfg e e' o o' o'' res res' r same step h l here f h' =
      let a = run_import-Ran d.meta.name e o res h in
      let b = run_import-Ran d'.meta.name e' o'' res' h' in
      let was : Entry = record e { importer = a.outcome.importer } in
      let at : find d'.meta.name o'.importers ≡ some was =
        ap (λ n. find n o'.importers) same ∙ ap (find d.meta.name) here ∙ a.kept in
      let is = importer_for-found d' m cfg was e' o' at f in
      let (t, al) =
        run_remembers (api.env e.connection) api.get_last e.importer (api.reports.clock o.world)
          true (api.collectors e.labels o.world) o.world a.outcome res r a.run a.ok a.got l in
      (
        run_starts_after (api.env e'.connection) api.get_last e'.importer
            (api.reports.clock o''.world) true (api.collectors e'.labels o''.world) o''.world
            b.outcome res' r.end
            (omega (arith, step, ap (λ (x : Entry). x.importer.cfg.step_size) is))
            (ap (λ (x : Entry). x.importer.last_timestamp) is ∙ t) al b.run b.got,
        (ap (λ (x : Entry). x.labels) is, ap (λ (x : Entry). x.connection) is),
      )
