-- ===== src/DataSource/OnDemand.antt =====
-- The import of a given time range on demand: `importPrometheusForTimeRange` of pkg/operator/promsum.go, the choice of the data
-- sources and the import of each. The group that runs the imports beside each other is left out.
use operator_metering.Prelude.{
  ℕ, String, ◌≡◌, ◌≢◌, refl, ◌⊎◌, inl, inr, Bool, true, ◌&&◌, not, Option, none, some, List, [],
  ◌∷◌, str_eq, eq_iff, if◌then◌else◌, length, All, arith, Bool-cases,
}
use mathlib.Core.Path.{subst}
use operator_metering.Prom.Chunks.{Time}
use operator_metering.Prom.Import.{Config, Step, import_from_time_range}
use operator_metering.Kube.{
  invalid, call_failed, Result, ok, err, ok-injective, Act, continue, ◌>>=◌, return, fail,
}
use operator_metering.DataSource.{
  MetricsImporter, ReportDataSource, Entry, DataSourceApi, of_result,
}
use operator_metering.DataSource.Config.{OperatorConfig, new_prom_importer_cfg}
use operator_metering.DataSource.Importers.{new_prom_importer}

-- prometheusImportResults
pub record ImportedCount : Type 0 where
  pub report_data_source : String
  pub namespace : String
  pub metrics_imported_count : ℕ

-- A data source with the importer that it has.
abbrev pub Chosen : Type 0
Chosen = ReportDataSource × MetricsImporter

abbrev pub and_chosen : Chosen → Result (List Chosen) → Result (List Chosen)
and_chosen c (err e) = err e
and_chosen c (ok cs) = ok (c ∷ cs)

-- the name asks for the data source; "" asks for all
abbrev pub is_asked : String → ReportDataSource → Bool
is_asked name d = not (not (str_eq name "") && not (str_eq name d.meta.name))

abbrev pub choose_one :
    String → ReportDataSource → Option MetricsImporter → Result (List Chosen) → Result (List Chosen)
choose_one name d none rest = rest
choose_one name d (some m) rest =
    if is_asked name d
    then (if str_eq d.status.table_ref ""
        then err (invalid "ReportDataSource has no table created yet")
        else and_chosen (d, m) rest)
    else rest

-- the first loop: it ends with an error at a data source that is asked for and has no table
unfoldable pub sources_to_import : String → List ReportDataSource → Result (List Chosen)
sources_to_import name [] = ok []
sources_to_import name (d ∷ ds) =
    choose_one name d d.spec.prometheus_metrics_importer (sources_to_import name ds)

-- The range is imported whatever the operator's import-from time is.
abbrev pub without_import_from : Config → Config
without_import_from cfg = record cfg { import_from_time = none }

module _ {W : Type 0} (api : DataSourceApi W) (op : OperatorConfig) where
  abbrev pub counted : ReportDataSource → Entry → Option (Step W) → W → Result ImportedCount × W
  counted d e none w = (err (invalid "the import does not end"), w)
  counted d e (some (p, some x)) w = (
    err (invalid "error importing Prometheus data"),
    api.set_collectors e.labels p.counters p.world,
  )
  counted d e (some (p, none)) w = (
    ok (record {
      report_data_source = d.meta.name;
      namespace = d.meta.namespace;
      metrics_imported_count = length p.results.metrics;
    }),
    api.set_collectors e.labels p.counters p.world,
  )

  abbrev pub import_range : Chosen → Config → Time → Time → Entry → Act W ImportedCount
  import_range (d, m) cfg start end e w =
      counted d e
        (import_from_time_range (api.env e.connection) cfg start end true
          (api.collectors e.labels w) w)
        w

  -- the function that imports one of the data sources
  unfoldable pub import_on_demand : Chosen → Time → Time → Act W ImportedCount
  import_on_demand (d, m) start end =
      api.reports.get_presto_table d.meta.namespace d.status.table_ref >>= λ t.
      of_result (new_prom_importer_cfg op m t) >>= λ cfg.
      let cfg' = without_import_from cfg in
      new_prom_importer api d m cfg' >>= import_range (d, m) cfg' start end

-- A data source that is imported has a table, has the importer, and was asked for.
abbrev pub MayImport : String → Chosen → Type 0
MayImport name (d, m) =
    (d.status.table_ref ≢ "")
    × ((d.spec.prometheus_metrics_importer ≡ some m) × ((name ≡ "") ⊎ (name ≡ d.meta.name)))

asked :
    (name : String) (d : ReportDataSource)
    → is_asked name d ≡ true
    → (name ≡ "") ⊎ (name ≡ d.meta.name)
asked name d h = elim (Bool-cases (str_eq name "")) [
  | inl e ↦ inl (ground (arith, e, eq_iff name ""))
  | inr n ↦ inr (ground (arith, h, n, eq_iff name d.meta.name))
]

and-MayImport :
    (name : String) (c : Chosen) (r : Result (List Chosen)) (cs : List Chosen)
    → MayImport name c
    → ((xs : List Chosen) → r ≡ ok xs → All (MayImport name) xs)
    → and_chosen c r ≡ ok cs
    → All (MayImport name) cs
and-MayImport name c (err e) cs m k h = absurd (cc)
and-MayImport name c (ok xs) cs m k h =
    subst (All (MayImport name)) (ok-injective _ cs h) (m, k xs refl)

one-MayImport :
    (name : String) (d : ReportDataSource) (o : Option MetricsImporter) (r : Result (List Chosen))
    (cs : List Chosen)
    → d.spec.prometheus_metrics_importer ≡ o
    → ((xs : List Chosen) → r ≡ ok xs → All (MayImport name) xs)
    → choose_one name d o r ≡ ok cs
    → All (MayImport name) cs
one-MayImport name d none r cs e k h = k cs h
one-MayImport name d (some m) r cs e k h = elim (Bool-cases (is_asked name d)) [
  | inr n ↦ k cs (rw n at h)
  | inl y ↦ elim (Bool-cases (str_eq d.status.table_ref "")) [
    | inl t ↦ absurd (refused (rw (y, t) at h))
    | inr t ↦
        and-MayImport name (d, m) r cs
          (λ x. ground (arith, t, x, eq_iff d.status.table_ref ""), (e, asked name d y)) k
          (rw (y, t) at h)
  ]
]
  where
    refused : {x : operator_metering.Kube.Failure} → err x ≡ ok cs → ⊥
    refused h = cc

-- If data sources are chosen for an import, then each has a table and an importer, and was asked for by its name unless all were.
pub sources_to_import-MayImport :
    (name : String) (ds : List ReportDataSource) (cs : List Chosen)
    → sources_to_import name ds ≡ ok cs
    → All (MayImport name) cs
unfolding sources_to_import
sources_to_import-MayImport name [] cs h = subst (All (MayImport name)) (ok-injective _ cs h) tt
sources_to_import-MayImport name (d ∷ ds) cs h =
    one-MayImport name d d.spec.prometheus_metrics_importer (sources_to_import name ds) cs refl
      (sources_to_import-MayImport name ds) h
