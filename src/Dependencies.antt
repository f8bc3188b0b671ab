-- ===== src/Dependencies.antt =====
-- The resolution of a query's dependencies: pkg/operator/reporting/dependencies.go. A Go map is an
-- association list with one entry for a key. The getters, encoding/json and strings.ToLower are
-- the parameter `Sources`; they are called for one namespace.
pub mod Resolver
pub mod Validate
pub mod Validated
use operator_metering.Prelude.{
  ℕ, zero, suc, String, ◌≡◌, Bool, true, false, ◌||◌, Option, none, some, List, [], ◌∷◌, map,
  str_eq, if◌then◌else◌,
}
use operator_metering.Prom.Chunks.{Time, Int64}

-- ReportQueryInputDefinition; the default is JSON text.
pub record InputDefinition : Type 0 where
  pub name : String
  pub type : String
  pub default : Option String

-- ReportQueryInputValue
pub record InputValue : Type 0 where
  pub name : String
  pub value : Option String

-- The fields of the resources that are read here.
pub record Query : Type 0 where
  pub name : String
  pub inputs : List InputDefinition

pub record DataSource : Type 0 where
  pub name : String
  pub report_query_view : Option String
  pub table_ref : String

pub record ReportRef : Type 0 where
  pub name : String
  pub query_name : String
  pub table_ref : String

pub data Reply {ℓ} (A : Type ℓ) : Type ℓ where
  found : A → Reply A
  missing : String → Reply A

pub record Sources : Type 0 where
  pub get_report_query : String → Reply Query
  pub get_report_data_source : String → Reply DataSource
  pub get_report : String → Reply ReportRef
  pub to_lower : String → String
  pub unmarshal_string : String → Reply String
  pub unmarshal_time : String → Reply Time
  pub unmarshal_int : String → Reply Int64

-- What a value of `inputValues` points to.
pub data Input : Type 0 where
  string_value : String → Input
  time_value : Time → Input
  int_value : Int64 → Input

pub data ResolveError : Type 0 where
  cycle_detected : ResolveError
  invalid_input : String → ResolveError
  not_found : String → ResolveError
  unsupported_type : String → ResolveError
  not_valid : String → String → ResolveError

module _ {ℓ} {A : Type ℓ} where
  abbrev pub has : String → List (String × A) → Bool
  has k [] = false
  has k ((k', a) ∷ m) = str_eq k' k || has k m

  -- `m[k] = a`
  abbrev pub put : String → A → List (String × A) → List (String × A)
  put k a [] = (k, a) ∷ []
  put k a ((k', b) ∷ m) = let rest = put k a m in if str_eq k' k then (k, a) ∷ m else (k', b) ∷ rest

-- resolverContext
pub record ResolverContext : Type 0 where
  pub report_accumulator : List (String × ReportRef)
  pub query_accumulator : List (String × Query)
  pub datasource_accumulator : List (String × DataSource)
  pub input_values : List (String × Input)

-- The context is dropped where there is an error.
pub data Resolved : Type 0 where
  ok : ResolverContext → Resolved
  err : ResolveError → Resolved

abbrev pub and_then : Resolved → (ResolverContext → Resolved) → Resolved
and_then (ok c) next = next c
and_then (err e) next = err e

-- The cases of the switch on the type of an input.
pub data InputType : Type 0 where
  string_input : InputType
  time_input : InputType
  int_input : InputType
  data_source_input : InputType
  query_input : InputType
  report_input : InputType
  unsupported : InputType

unfoldable pub parse_type : String → InputType
parse_type t =
    if str_eq t "" || str_eq t "string"
    then string_input
    else if str_eq t "time"
    then time_input
    else if str_eq t "int" || str_eq t "integer"
    then int_input
    else if str_eq t "reportdatasource"
    then data_source_input
    else if str_eq t "reportquery"
    then query_input
    else if str_eq t "report"
    then report_input
    else unsupported

-- ReportingStartInputName and ReportingEndInputName
abbrev reporting_start_input_name : String
reporting_start_input_name = "ReportingStart"

abbrev reporting_end_input_name : String
reporting_end_input_name = "ReportingEnd"

-- the last given value of a name: `givenInputs[name].Value`
unfoldable pub given_value : String → List InputValue → Option String
given_value name [] = none
given_value name (v ∷ vs) =
    let rest = given_value name vs in
    if is_given name vs then rest else if str_eq v.name name then v.value else none
  where
    is_given : String → List InputValue → Bool
    is_given name [] = false
    is_given name (v ∷ vs) = str_eq v.name name || is_given name vs

abbrev pub or_default : Option String → Option String → Option String
or_default none default = default
or_default (some v) default = some v

abbrev pub is_supported : List InputDefinition → String → Bool
is_supported [] name = false
is_supported (d ∷ ds) name = str_eq d.name name || is_supported ds name

-- the loop over the given values, which returns at the first unsupported name
unfoldable pub check_supported : List InputDefinition → List InputValue → Option ResolveError
check_supported defs [] = none
check_supported defs (v ∷ vs) =
    let rest = check_supported defs vs in
    if is_supported defs v.name then rest else some (invalid_input v.name)
