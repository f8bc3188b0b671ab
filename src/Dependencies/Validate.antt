-- ===== src/Dependencies/Validate.antt =====
-- `ValidateQueryDependencies` and the tests of its error: pkg/operator/reporting/validate.go. What the
-- handler is called with is returned as a list.
use operator_metering.Prelude.{
  String, ◌≡◌, ◌≢◌, ◌↔◌, refl, Bool, true, false, ◌||◌, not, Option, none, some, List, [], ◌∷◌, map,
  str_eq, eq_iff, if◌then◌else◌, arith, All, is_empty, Bool-cases, inl, inr,
}
use operator_metering.Dependencies.{Query, DataSource, ReportRef}

-- ReportQueryDependencies
pub record QueryDependencies : Type 0 where
  pub report_queries : List Query
  pub report_data_sources : List DataSource
  pub reports : List ReportRef

pub data DependencyError : Type 0 where
  validation_error : List String → List String → DependencyError
  other_error : String → DependencyError

unfoldable pub uninitialized_data_sources : List DataSource → List DataSource
uninitialized_data_sources [] = []
uninitialized_data_sources (d ∷ ds) =
    let rest = uninitialized_data_sources ds in if str_eq d.table_ref "" then d ∷ rest else rest

unfoldable pub uninitialized_reports : List ReportRef → List ReportRef
uninitialized_reports [] = []
uninitialized_reports (r ∷ rs) =
    let rest = uninitialized_reports rs in if str_eq r.table_ref "" then r ∷ rest else rest

-- ValidateQueryDependencies: the data sources that the handler is called with, and the error
unfoldable pub validate_query_dependencies :
    QueryDependencies → Bool → List DataSource × Option DependencyError
validate_query_dependencies deps has_handler =
    let data_sources = uninitialized_data_sources deps.report_data_sources in
    let reports = uninitialized_reports deps.reports in
    (
      if has_handler then data_sources else [],
      if not (is_empty data_sources) || not (is_empty reports)
          then some (validation_error (map (λ d. d.name) data_sources) (map (λ r. r.name) reports))
          else none,
    )

-- IsUninitializedDependencyError
unfoldable pub is_uninitialized_dependency_error : DependencyError → Bool
is_uninitialized_dependency_error (validation_error ds rs) = not (is_empty ds) || not (is_empty rs)
is_uninitialized_dependency_error (other_error e) = false

-- IsInvalidDependencyError
unfoldable pub is_invalid_dependency_error : DependencyError → Bool
is_invalid_dependency_error (validation_error ds rs) = true
is_invalid_dependency_error (other_error e) = false

data_sources-All :
    (ds : List DataSource)
    → (is_empty (uninitialized_data_sources ds) ≡ true)
      ↔ All (λ (d : DataSource). d.table_ref ≢ "") ds
unfolding uninitialized_data_sources
data_sources-All [] = (λ h. tt, λ h. refl)
data_sources-All (d ∷ ds) = elim (Bool-cases (str_eq d.table_ref "")) [
  | inl e ↦ rw e (λ h. cc, λ h. ground (arith, h.0, eq_iff d.table_ref ""))
  | inr e ↦ rw e (
    λ h. (λ x. ground (arith, eq_iff d.table_ref ""), (data_sources-All ds).0 h),
    λ h. (data_sources-All ds).1 h.1,
  )
]

reports-All :
    (rs : List ReportRef)
    → (is_empty (uninitialized_reports rs) ≡ true) ↔ All (λ (r : ReportRef). r.table_ref ≢ "") rs
unfolding uninitialized_reports
reports-All [] = (λ h. tt, λ h. refl)
reports-All (d ∷ ds) = elim (Bool-cases (str_eq d.table_ref "")) [
  | inl e ↦ rw e (λ h. cc, λ h. ground (arith, h.0, eq_iff d.table_ref ""))
  | inr e ↦ rw e (
    λ h. (λ x. ground (arith, eq_iff d.table_ref ""), (reports-All ds).0 h),
    λ h. (reports-All ds).1 h.1,
  )
]

-- Dependencies are accepted exactly if every data source and every report has a table.
pub validate-HasTables :
    (deps : QueryDependencies) (has_handler : Bool)
    → ((validate_query_dependencies deps has_handler).1 ≡ none) ↔ (
        All (λ (d : DataSource). d.table_ref ≢ "") deps.report_data_sources
        × All (λ (r : ReportRef). r.table_ref ≢ "") deps.reports)
unfolding validate_query_dependencies
validate-HasTables deps has_handler = (
  λ h. (
    (data_sources-All deps.report_data_sources).0 (ground arith),
    (reports-All deps.reports).0 (ground arith),
  ),
  λ h.
      let d = (data_sources-All deps.report_data_sources).1 h.0 in
      let r = (reports-All deps.reports).1 h.1 in ground (arith, d, r),
)

is_empty-nil : {A : Type 0} (xs : List A) → is_empty xs ≡ true → xs ≡ []
is_empty-nil [] h = refl
is_empty-nil (x ∷ xs) h = cc

if-same : {A : Type 0} (b : Bool) (x : A) → (if b then x else x) ≡ x
if-same true x = refl
if-same false x = refl

-- The handler is not called where there is no error.
pub validate-handled :
    (deps : QueryDependencies) (has_handler : Bool)
    → (validate_query_dependencies deps has_handler).1 ≡ none
    → (validate_query_dependencies deps has_handler).0 ≡ []
unfolding validate_query_dependencies
validate-handled deps has_handler h =
    let ds = uninitialized_data_sources deps.report_data_sources in
    let e : ds ≡ [] = is_empty-nil ds (ground arith) in rw e (if-same has_handler [])

is_empty-map : {A : Type 0} (f : A → String) (xs : List A) → is_empty (map f xs) ≡ is_empty xs
is_empty-map f [] = refl
is_empty-map f (x ∷ xs) = refl

-- An error of the validation names a data source or a report without a table, so printing it does
-- not panic, and it is recognized by both tests.
pub validate-is_uninitialized :
    (deps : QueryDependencies) (has_handler : Bool) (e : DependencyError)
    → (validate_query_dependencies deps has_handler).1 ≡ some e
    → (is_uninitialized_dependency_error e ≡ true) × (is_invalid_dependency_error e ≡ true)
unfolding validate_query_dependencies is_uninitialized_dependency_error is_invalid_dependency_error
validate-is_uninitialized deps has_handler e h =
    let ds = uninitialized_data_sources deps.report_data_sources in
    let rs = uninitialized_reports deps.reports in
    ground (
      arith,
      is_empty-map (λ (d : DataSource). d.name) ds,
      is_empty-map (λ (r : ReportRef). r.name) rs,
    )
