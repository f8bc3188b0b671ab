-- ===== src/Examples/Resolutions.antt =====
-- The dependencies of a query with a data source that is a view of another query, and a query that
-- depends on itself (pkg/operator/reporting).
use operator_metering.Prelude.{
  ◌≡◌, refl, true, none, some, List, [], ◌∷◌, All, str_eq, if◌then◌else◌,
}
use operator_metering.Prom.Chunks.{pos}
use operator_metering.Dependencies.{
  InputDefinition, InputValue, Query, DataSource, found, missing, Sources, ResolverContext, ok, err,
  cycle_detected, is_supported, parse_type, given_value, check_supported,
}
use operator_metering.Dependencies.Resolver.{
  resolve, resolve_dependencies, resolve_inputs, resolve_input, resolve_value, resolve_query,
  resolve_data_source, input_type,
}
use operator_metering.Dependencies.Resolver.Closed.{IsAnswered, IsClosed}
use operator_metering.Dependencies.Resolver.Answers.{resolve-IsClosed}
use operator_metering.Dependencies.Validate.{
  QueryDependencies, validate_query_dependencies, uninitialized_data_sources, uninitialized_reports,
}
use operator_metering.Dependencies.Validated.{
  valid, get_and_validate_query_dependencies, get_query_dependencies, dependencies_of, sort_by_name,
  insert_by_name, HasTables, get_and_validate-HasTables,
}

abbrev pods : DataSource
pods = record { name = "pods"; report_query_view = some "raw"; table_ref = "" }

abbrev pods_input : InputDefinition
pods_input = record { name = "Pods"; type = "ReportDataSource"; default = some "pods" }

abbrev start_input : InputDefinition
start_input = record { name = "ReportingStart"; type = "time"; default = none }

-- The query "loop" depends on itself; every other name is that of a query with no inputs. The JSON text
-- of a string is the string here.
abbrev sources : Sources
sources = record {
  get_report_query = λ n. found (record {
    name = n;
    inputs =
        if str_eq n "loop"
        then record { name = "Self"; type = "reportquery"; default = some "loop" } ∷ []
        else [];
  });
  get_report_data_source = λ n. found pods;
  get_report = λ n. missing n;
  to_lower = λ s. if str_eq s "ReportDataSource" then "reportdatasource" else s;
  unmarshal_string = λ s. found s;
  unmarshal_time = λ s. found 0;
  unmarshal_int = λ s. found (pos 0);
}

abbrev given : List InputValue
given = record { name = "ReportingStart"; value = some "2020" } ∷ []

resolve-IsClosed_example :
    (c : ResolverContext) × (resolve sources (pods_input ∷ start_input ∷ []) given ≡ ok c)
    × (IsClosed c × All (IsAnswered given c.input_values) (pods_input ∷ start_input ∷ []))
unfolding resolve resolve_dependencies resolve_inputs resolve_input resolve_value resolve_query
    resolve_data_source input_type parse_type given_value check_supported
resolve-IsClosed_example =
    (_, refl, resolve-IsClosed sources (λ n q h. cc) (pods_input ∷ start_input ∷ []) given _ refl)

-- The self-reference is found out at the depth limit.
loop_is_a_cycle :
    resolve sources (record { name = "Self"; type = "reportquery"; default = some "loop" } ∷ []) []
    ≡ err cycle_detected
unfolding resolve resolve_dependencies resolve_inputs resolve_input resolve_value resolve_query
    input_type parse_type given_value check_supported
loop_is_a_cycle = refl

abbrev without_table : QueryDependencies
without_table = record { report_queries = []; report_data_sources = pods ∷ []; reports = [] }

-- The data source has a table now.
abbrev ready_sources : Sources
ready_sources = record sources {
  get_report_data_source = λ n. found (record pods { table_ref = "pods" });
}

abbrev usage : Query
usage = record { name = "usage"; inputs = pods_input ∷ start_input ∷ [] }

get_and_validate-HasTables_example :
    (deps : QueryDependencies) × ((get_and_validate_query_dependencies ready_sources usage given
        true).1
      ≡ valid deps)
    × (((get_and_validate_query_dependencies ready_sources usage given true).0 ≡ [])
        × (HasTables deps
            × All (λ (v : InputValue). is_supported usage.inputs v.name ≡ true) given))
unfolding get_and_validate_query_dependencies get_query_dependencies dependencies_of sort_by_name
    insert_by_name validate_query_dependencies uninitialized_data_sources uninitialized_reports
    resolve resolve_dependencies resolve_inputs resolve_input resolve_value resolve_query
    resolve_data_source input_type parse_type given_value check_supported
get_and_validate-HasTables_example =
    (_, refl, get_and_validate-HasTables ready_sources usage given true _ refl)
