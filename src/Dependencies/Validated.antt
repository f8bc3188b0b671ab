-- ===== src/Dependencies/Validated.antt =====
-- The result of `ResolveDependencies` (pkg/operator/reporting/dependencies.go), and `GetQueryDependencies`
-- and `GetAndValidateQueryDependencies` of pkg/operator/reporting/validate.go. Names are compared
-- code point by code point.
use operator_metering.Prelude.{
  String, ◌≡◌, ◌≢◌, refl, Bool, true, false, Option, none, some, List, [], ◌∷◌, ltb, if◌then◌else◌,
  All,
}
use mathlib.Core.Path.{subst}
use Prim.Native.Char.{code}
use operator_metering.Dependencies.{
  InputValue, Query, DataSource, ReportRef, Sources, ResolveError, ResolverContext, Resolved, ok,
  err, is_supported,
}
use operator_metering.Dependencies.Resolver.{resolve}
use operator_metering.Dependencies.Resolver.Supported.{resolve-supported}
use operator_metering.Dependencies.Validate.{
  QueryDependencies, DependencyError, validate_query_dependencies, validate-HasTables,
  validate-handled,
}

-- `s <= t` on strings
unfoldable pub str_leb : String → String → Bool
str_leb String.[] t = true
str_leb (String.◌∷◌ c s) String.[] = false
str_leb (String.◌∷◌ c s) (String.◌∷◌ d t) =
    let rest = str_leb s t in
    if ltb (code c) (code d) then true else if ltb (code d) (code c) then false else rest

module _ {A : Type 0} (name : A → String) where
  unfoldable pub insert_by_name : A → List A → List A
  insert_by_name x [] = x ∷ []
  insert_by_name x (y ∷ ys) =
      let rest = insert_by_name x ys in if str_leb (name x) (name y) then x ∷ y ∷ ys else y ∷ rest

  -- `sort.Slice` by name
  unfoldable pub sort_by_name : List A → List A
  sort_by_name [] = []
  sort_by_name (x ∷ xs) = insert_by_name x (sort_by_name xs)

abbrev values : {A : Type 0} → List (String × A) → List A
values [] = []
values ((k, a) ∷ m) = a ∷ values m

-- the lists of the result, from the accumulators
unfoldable pub dependencies_of : ResolverContext → QueryDependencies
dependencies_of c = record {
  report_queries = sort_by_name (λ (q : Query). q.name) (values c.query_accumulator);
  report_data_sources = sort_by_name (λ (d : DataSource). d.name) (values c.datasource_accumulator);
  reports = sort_by_name (λ (r : ReportRef). r.name) (values c.report_accumulator);
}

-- GetQueryDependencies
pub data QueryResult : Type 0 where
  resolved : QueryDependencies → QueryResult
  unresolved : ResolveError → QueryResult

abbrev pub result_of : Resolved → QueryResult
result_of (ok c) = resolved (dependencies_of c)
result_of (err e) = unresolved e

unfoldable pub get_query_dependencies : Sources → Query → List InputValue → QueryResult
get_query_dependencies sources query vals = result_of (resolve sources query.inputs vals)

pub data Validated : Type 0 where
  valid : QueryDependencies → Validated
  not_resolved : ResolveError → Validated
  not_valid : DependencyError → Validated

abbrev pub verdict : QueryDependencies → Option DependencyError → Validated
verdict deps none = valid deps
verdict deps (some e) = not_valid e

abbrev pub validated : QueryResult → Bool → List DataSource × Validated
validated (unresolved e) has_handler = ([], not_resolved e)
validated (resolved deps) has_handler =
    let (called, e) = validate_query_dependencies deps has_handler in (called, verdict deps e)

-- GetAndValidateQueryDependencies, with what the handler is called with
unfoldable pub get_and_validate_query_dependencies :
    Sources → Query → List InputValue → Bool → List DataSource × Validated
get_and_validate_query_dependencies sources query vals has_handler =
    validated (get_query_dependencies sources query vals) has_handler

-- Every data source and every report has a table.
pub record HasTables (deps : QueryDependencies) : Type 0 where
  pub data_sources : All (λ (d : DataSource). d.table_ref ≢ "") deps.report_data_sources
  pub reports : All (λ (r : ReportRef). r.table_ref ≢ "") deps.reports

verdict-none :
    (deps deps' : QueryDependencies) (e : Option DependencyError)
    → verdict deps e ≡ valid deps'
    → (e ≡ none) × (deps ≡ deps')
verdict-none deps deps' none h = (refl, cc)
verdict-none deps deps' (some e) h = cc

module _ (sources : Sources) (query : Query) (vals : List InputValue) (has_handler : Bool)
    (deps : QueryDependencies) where
  checked_result :
      (r : Resolved)
      → resolve sources query.inputs vals ≡ r
      → (validated (result_of r) has_handler).1 ≡ valid deps
      → ((validated (result_of r) has_handler).0 ≡ [])
        × (HasTables deps × All (λ (v : InputValue). is_supported query.inputs v.name ≡ true) vals)
  checked_result (err e) x h = cc
  checked_result (ok c) x h =
      let (n, same) =
        verdict-none (dependencies_of c) deps
          (validate_query_dependencies (dependencies_of c) has_handler).1 h in
      let t = (validate-HasTables (dependencies_of c) has_handler).0 n in
      (
        validate-handled (dependencies_of c) has_handler n,
        (
          subst HasTables same (record { data_sources = t.0; reports = t.1 }),
          resolve-supported sources query.inputs vals c x,
        ),
      )

  -- If the dependencies of a query are found and accepted, the handler of uninitialized data sources
  -- was not called, every data source and report among them has a table, and the query defines every
  -- input that was given.
  pub get_and_validate-HasTables :
      (get_and_validate_query_dependencies sources query vals has_handler).1 ≡ valid deps
      → ((get_and_validate_query_dependencies sources query vals has_handler).0 ≡ [])
        × (HasTables deps × All (λ (v : InputValue). is_supported query.inputs v.name ≡ true) vals)
  unfolding get_and_validate_query_dependencies get_query_dependencies
  get_and_validate-HasTables h = checked_result (resolve sources query.inputs vals) refl h
