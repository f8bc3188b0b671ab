-- ===== src/Examples/Prestos.antt =====
-- Presto tables on concrete worlds (pkg/operator/prestotables.go).
use operator_metering.Prelude.{
  String, ◌≡◌, ◌≢◌, refl, Bool, true, false, Option, none, some, List, [], ◌∷◌, arith, str_eq,
  eq_iff,
}
use operator_metering.Kube.{ok, err, call_failed}
use operator_metering.Prom.Chunks.{Time}
use operator_metering.Hive.Tables.{PrestoTable, PrestoParameters, no_presto_parameters}
use operator_metering.Presto.{Properties, PrestoApi, presto_table_finalizer}
use operator_metering.Presto.Copy.{copied_status, copied-stale_columns, copied_status-eq}
use operator_metering.Presto.Handler.{
  handle_presto_table, sync_presto_table, drop, create, remove_presto_table_finalizer,
  queue_dependents_of_presto_table,
}
use operator_metering.Presto.Managed.{IsValidTable, handle-creates}

-- The stored table, and the names of the tables that Presto has.
abbrev World : Type 0
World = PrestoTable × List String

abbrev api : PrestoApi World
api = record {
  create_view = λ c s n q w. (none, (w.0, n ∷ w.1));
  create_table = λ c s n cs comment ps ignore w. (none, (w.0, n ∷ w.1));
  create_table_as = λ c s n cs comment ps ignore q w. (none, (w.0, n ∷ w.1));
  drop_view = λ c s n ignore w. (some "no view", w);
  drop_table = λ c s n ignore w. (some "unavailable", w);
  update_presto_table = λ t w. (ok t, (t, w.1));
  get_presto_table = λ namespace name w. (ok w.0, w);
  list_reports = λ n w. (ok [], w);
  list_data_sources = λ n w. (ok [], w);
  enqueue_report = λ r w. w;
  enqueue_data_source = λ d w. w;
}

-- Only properties without an entry are the same here.
abbrev same_properties : Properties → Properties → Bool
same_properties [] [] = true
same_properties _ _ = false

same-eq : (a b : Properties) → same_properties a b ≡ true → a ≡ b
same-eq [] [] h = refl
same-eq [] (x ∷ b) h = cc
same-eq (x ∷ a) [] h = cc
same-eq (x ∷ a) (y ∷ b) h = cc

abbrev spec : String → PrestoParameters
spec type = record no_presto_parameters {
  catalog = "hive";
  schema = "metering";
  table_name = "usage";
  columns = record { name = "amount"; type = type } ∷ [];
}

abbrev table : Bool → Option Time → PrestoParameters → PrestoTable
table unmanaged deleted status = record {
  meta = record {
    namespace = "metering";
    name = "usage";
    finalizers = presto_table_finalizer ∷ [];
    deletion_timestamp = deleted;
  };
  unmanaged = unmanaged;
  spec = spec "DOUBLE";
  status = status;
}

ne : (s t : String) → str_eq s t ≡ false → s ≢ t
ne s t h x = ground (arith, eq_iff s t, h, x)

-- A column that changes its type is not copied; all else is.
copied_status-eq_example :
    copied_status (λ cs. cs) same_properties (spec "BIGINT") (spec "DOUBLE")
    ≡ record (spec "DOUBLE") { columns = (spec "BIGINT").columns }
copied_status-eq_example =
    copied_status-eq (λ cs. cs) same_properties (λ cs. refl) same-eq (spec "BIGINT") (spec "DOUBLE")

handle-creates_example :
    let w : World = (table false none no_presto_parameters, []) in
    let made = create api (λ cs. cs) same_properties (spec "DOUBLE") w in
    let stored = api.update_presto_table (table false none (spec "DOUBLE")) made.1 in
    IsValidTable (spec "DOUBLE")
    × (made.0 ≡ none)
    × ((t' : PrestoTable) × ((stored.0 ≡ ok t')
          × ((handle_presto_table api
                (λ cs. cs)
                same_properties
                true
                (table false none no_presto_parameters)
                w).1
              ≡ (queue_dependents_of_presto_table api (λ cs. cs) same_properties t' stored.1).1)))
unfolding handle_presto_table operator_metering.Presto.Handler.ensure_finalizer
    operator_metering.Kube.needs_finalizer operator_metering.Slice.contains_string
    operator_metering.Presto.Handler.check_spec operator_metering.Presto.Handler.create_and_store
    operator_metering.Presto.Handler.ensure_created create operator_metering.Presto.Handler.store
    operator_metering.Presto.Copy.copy_presto_table_spec_to_status
    operator_metering.Presto.Copy.needs_update
handle-creates_example =
    handle-creates api (λ cs. cs) same_properties true (table false none no_presto_parameters) refl
      (λ cs. refl) same-eq refl refl (table false none no_presto_parameters, []) refl ran
  where
    ran :
        (handle_presto_table api
          (λ cs. cs)
          same_properties
          true
          (table false none no_presto_parameters)
          (table false none no_presto_parameters, [])).0
        ≡ ok tt
    ran = refl
