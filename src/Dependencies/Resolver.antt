-- ===== src/Dependencies/Resolver.antt =====
-- `resolveDependencies`, `resolveQuery`, `resolveDataSource`, `resolveReport` and
-- `ResolveDependencies` of pkg/operator/reporting/dependencies.go. The fuel is `maxDepth - depth`, so that
-- running out of it is the error of the source's own test.
pub mod Closed
pub mod Answers
pub mod Supported
use operator_metering.Prelude.{
  ℕ, zero, suc, String, ◌≡◌, Bool, true, false, ◌||◌, Option, none, some, List, [], ◌∷◌, map,
  str_eq, if◌then◌else◌,
}
use operator_metering.Dependencies.{
  InputDefinition, InputValue, Query, DataSource, ReportRef, Reply, found, missing, Sources, Input,
  string_value, time_value, int_value, ResolveError, cycle_detected, not_found, unsupported_type,
  not_valid, has, put, ResolverContext, Resolved, ok, err, and_then, InputType, string_input,
  time_input, int_input, data_source_input, query_input, report_input, unsupported, parse_type,
  reporting_start_input_name, reporting_end_input_name, given_value, or_default, check_supported,
}

abbrev pub max_depth : ℕ
max_depth = 50

-- the recursive call of `resolveDependencies`, one level deeper and with no given values
abbrev pub Deeper : Type 0
Deeper = List InputDefinition → ResolverContext → Resolved

module _ (sources : Sources) where
  abbrev pub add_input : String → Input → ResolverContext → ResolverContext
  add_input name x c = record c { input_values = put name x c.input_values }

  abbrev pub add_query : Query → ResolverContext → ResolverContext
  add_query q c = record c { query_accumulator = put q.name q c.query_accumulator }

  abbrev pub add_data_source : DataSource → ResolverContext → ResolverContext
  add_data_source d c = record c { datasource_accumulator = put d.name d c.datasource_accumulator }

  abbrev pub add_report : ReportRef → ResolverContext → ResolverContext
  add_report r c = record c { report_accumulator = put r.name r c.report_accumulator }

  abbrev pub fetched_query : Deeper → Reply Query → ResolverContext → Resolved
  fetched_query deeper (missing e) c = err (not_found e)
  fetched_query deeper (found q) c = and_then (deeper q.inputs c) (λ c'. ok (add_query q c'))

  unfoldable pub resolve_query : Deeper → String → ResolverContext → Resolved
  resolve_query deeper name c =
      if has name c.query_accumulator
      then ok c
      else fetched_query deeper (sources.get_report_query name) c

  abbrev pub view_query : Deeper → Option String → ResolverContext → Resolved
  view_query deeper none c = ok c
  view_query deeper (some query_name) c = resolve_query deeper query_name c

  abbrev pub fetched_data_source : Deeper → Reply DataSource → ResolverContext → Resolved
  fetched_data_source deeper (missing e) c = err (not_found e)
  fetched_data_source deeper (found d) c =
      and_then (view_query deeper d.report_query_view c) (λ c'. ok (add_data_source d c'))

  unfoldable pub resolve_data_source : Deeper → String → ResolverContext → Resolved
  resolve_data_source deeper name c =
      if has name c.datasource_accumulator
      then ok c
      else fetched_data_source deeper (sources.get_report_data_source name) c

  abbrev pub fetched_report : Deeper → Reply ReportRef → ResolverContext → Resolved
  fetched_report deeper (missing e) c = err (not_found e)
  fetched_report deeper (found r) c =
      and_then (resolve_query deeper r.query_name c) (λ c'. ok (add_report r c'))

  unfoldable pub resolve_report : Deeper → String → ResolverContext → Resolved
  resolve_report deeper name c =
      if has name c.report_accumulator
      then ok c
      else fetched_report deeper (sources.get_report name) c

  -- A value that does not parse is an error; else it is stored.
  abbrev pub store :
      {A : Type 0} → String → String → Reply A → (A → Input) → ResolverContext → Resolved
  store name raw (missing e) input c = err (not_valid name raw)
  store name raw (found a) input c = ok (add_input name (input a) c)

  -- the value names a resource, which is resolved before the value is stored
  abbrev pub store_resource :
      String
      → String
      → Reply String
      → (String → ResolverContext → Resolved)
      → ResolverContext
      → Resolved
  store_resource name raw (missing e) resolve c = err (not_valid name raw)
  store_resource name raw (found s) resolve c =
      and_then (resolve s c) (λ c'. ok (add_input name (string_value s) c'))

  unfoldable pub resolve_value : Deeper → InputType → String → String → ResolverContext → Resolved
  resolve_value deeper string_input name raw c =
      store name raw (sources.unmarshal_string raw) string_value c
  resolve_value deeper time_input name raw c =
      store name raw (sources.unmarshal_time raw) time_value c
  resolve_value deeper int_input name raw c = store name raw (sources.unmarshal_int raw) int_value c
  resolve_value deeper data_source_input name raw c =
      store_resource name raw (sources.unmarshal_string raw) (resolve_data_source deeper) c
  resolve_value deeper query_input name raw c =
      store_resource name raw (sources.unmarshal_string raw) (resolve_query deeper) c
  resolve_value deeper report_input name raw c =
      store_resource name raw (sources.unmarshal_string raw) (resolve_report deeper) c
  resolve_value deeper unsupported name raw c = err (unsupported_type name)

  unfoldable pub input_type : InputDefinition → InputType
  unfolding parse_type
  input_type d =
      if str_eq d.name reporting_start_input_name || str_eq d.name reporting_end_input_name
      then time_input
      else parse_type (sources.to_lower d.type)

  abbrev pub resolve_given : Deeper → InputDefinition → Option String → ResolverContext → Resolved
  resolve_given deeper d none c = ok c
  resolve_given deeper d (some raw) c = resolve_value deeper (input_type d) d.name raw c

  -- the body of the loop over the definitions
  unfoldable pub resolve_input :
      Deeper → List InputValue → InputDefinition → ResolverContext → Resolved
  resolve_input deeper vals d c =
      if has d.name c.input_values
      then ok c
      else resolve_given deeper d (or_default (given_value d.name vals) d.default) c

  unfoldable pub resolve_inputs :
      Deeper → List InputValue → List InputDefinition → ResolverContext → Resolved
  resolve_inputs deeper vals [] c = ok c
  resolve_inputs deeper vals (d ∷ ds) c =
      and_then (resolve_input deeper vals d c) (resolve_inputs deeper vals ds)

  abbrev pub checked : Option ResolveError → Resolved → Resolved
  checked none r = r
  checked (some e) r = err e

  -- resolveDependencies, with `maxDepth - depth` levels left
  unfoldable pub resolve_dependencies :
      ℕ → List InputValue → List InputDefinition → ResolverContext → Resolved
  resolve_dependencies zero vals defs c = err cycle_detected
  resolve_dependencies (suc left) vals defs c =
      checked (check_supported defs vals)
        (resolve_inputs (resolve_dependencies left []) vals defs c)

  abbrev pub empty_context : ResolverContext
  empty_context = record {
    report_accumulator = [];
    query_accumulator = [];
    datasource_accumulator = [];
    input_values = [];
  }

  -- ResolveDependencies: the context that the result is read from
  unfoldable pub resolve : List InputDefinition → List InputValue → Resolved
  resolve defs vals = resolve_dependencies max_depth vals defs empty_context
