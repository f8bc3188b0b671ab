-- ===== src/Dependencies/Resolver/Closed.antt =====
-- What a context holds after the resolution of dependencies (pkg/operator/reporting/dependencies.go).
use operator_metering.Prelude.{
  String, ◌≡◌, Bool, true, Option, none, some, List, [], ◌∷◌, str_eq, eq_iff, arith, All,
  Bool-cases, inl, inr,
}
use operator_metering.Dependencies.{
  InputDefinition, InputValue, Query, DataSource, ReportRef, Sources, Input, has, put,
  ResolverContext, given_value, or_default,
}
use operator_metering.Dependencies.Resolver.{add_input, add_query, add_data_source, add_report}

module _ {ℓ} {A : Type ℓ} where
  pub has-put :
      (j k : String) (a : A) (m : List (String × A)) → has j m ≡ true → has j (put k a m) ≡ true
  has-put j k a [] h = cc
  has-put j k a ((k', b) ∷ m) h = ground (arith, has-put j k a m, eq_iff k' k)

  pub has-put_self : (k : String) (a : A) (m : List (String × A)) → has k (put k a m) ≡ true
  has-put_self k a [] = ground (arith, eq_iff k k)
  has-put_self k a ((k', b) ∷ m) = ground (arith, has-put_self k a m, eq_iff k k)

  All-put {κ} :
      (P : String × A → Type κ) (k : String) (a : A) (m : List (String × A))
      → P (k, a)
      → All P m
      → All P (put k a m)
  All-put P k a [] p h = (p, tt)
  All-put P k a ((k', b) ∷ m) p h = elim (Bool-cases (str_eq k' k)) [
    | inl e ↦ rw e (p, h.1)
    | inr e ↦ rw e (h.0, All-put P k a m p h.1)
  ]

  pub All-map {κ κ'} :
      (P : A → Type κ) (Q : A → Type κ')
      → ((a : A) → P a → Q a)
      → (xs : List A) → All P xs
      → All Q xs
  All-map P Q f [] h = tt
  All-map P Q f (x ∷ xs) h = (f x h.0, All-map P Q f xs h.1)

-- A value that is given or a default one is stored.
abbrev pub IsStored : Option String → Bool → Type 0
IsStored none stored = Unit
IsStored (some v) stored = stored ≡ true

-- The input has a value in the context, if one is given or there is a default.
abbrev pub IsAnswered : List InputValue → List (String × Input) → InputDefinition → Type 0
IsAnswered vals m d = IsStored (or_default (given_value d.name vals) d.default) (has d.name m)

abbrev pub IsViewOf : List (String × Query) → Option String → Type 0
IsViewOf qs none = Unit
IsViewOf qs (some query_name) = has query_name qs ≡ true

-- The query of every report and of every data source that is a view is there, and the inputs with a
-- default of every query have values.
pub record IsClosed (c : ResolverContext) : Type 0 where
  pub reports :
      All
        (λ (p : String × ReportRef). has p.1.query_name c.query_accumulator ≡ true)
        c.report_accumulator
  pub data_sources :
      All
        (λ (p : String × DataSource). IsViewOf c.query_accumulator p.1.report_query_view)
        c.datasource_accumulator
  pub queries :
      All
        (λ (p : String × Query). All (IsAnswered [] c.input_values) p.1.inputs)
        c.query_accumulator

pub record Grows (c c' : ResolverContext) : Type 0 where
  pub queries : (k : String) → has k c.query_accumulator ≡ true → has k c'.query_accumulator ≡ true
  pub inputs : (k : String) → has k c.input_values ≡ true → has k c'.input_values ≡ true

pub Grows-refl : (c : ResolverContext) → Grows c c
Grows-refl c = record { queries = λ k h. h; inputs = λ k h. h }

pub Grows-trans : (a b c : ResolverContext) → Grows a b → Grows b c → Grows a c
Grows-trans a b c g h = record {
  queries = λ k x. h.queries k (g.queries k x);
  inputs = λ k x. h.inputs k (g.inputs k x);
}

IsStored-map :
    (o : Option String) (b b' : Bool) → (b ≡ true → b' ≡ true) → IsStored o b → IsStored o b'
IsStored-map none b b' f h = tt
IsStored-map (some v) b b' f h = f h

IsViewOf-map :
    (qs qs' : List (String × Query)) (o : Option String)
    → ((k : String) → has k qs ≡ true → has k qs' ≡ true)
    → IsViewOf qs o
    → IsViewOf qs' o
IsViewOf-map qs qs' none f h = tt
IsViewOf-map qs qs' (some k) f h = f k h

pub IsAnswered-map :
    (vals : List InputValue) (m m' : List (String × Input)) (ds : List InputDefinition)
    → ((k : String) → has k m ≡ true → has k m' ≡ true)
    → All (IsAnswered vals m) ds
    → All (IsAnswered vals m') ds
IsAnswered-map vals m m' ds f =
    All-map _ _ (λ d h. IsStored-map _ (has d.name m) (has d.name m') (f d.name) h) ds

module _ (sources : Sources) where
  pub add_input-IsClosed :
      (c : ResolverContext) (name : String) (x : Input)
      → IsClosed c
      → IsClosed (add_input sources name x c)
  add_input-IsClosed c name x h = record {
    reports = h.reports;
    data_sources = h.data_sources;
    queries =
        All-map _ _
          (λ p a.
            IsAnswered-map [] c.input_values _ p.1.inputs (λ k. has-put k name x c.input_values) a)
          c.query_accumulator h.queries;
  }

  pub add_query-IsClosed :
      (c : ResolverContext) (q : Query)
      → IsClosed c
      → All (IsAnswered [] c.input_values) q.inputs
      → IsClosed (add_query sources q c)
  add_query-IsClosed c q h a = record {
    reports =
        All-map _ _ (λ p x. has-put p.1.query_name q.name q c.query_accumulator x)
          c.report_accumulator h.reports;
    data_sources =
        All-map _ _
          (λ p x.
            IsViewOf-map c.query_accumulator _ p.1.report_query_view
              (λ k. has-put k q.name q c.query_accumulator) x)
          c.datasource_accumulator h.data_sources;
    queries = All-put _ q.name q c.query_accumulator a h.queries;
  }

  pub add_data_source-IsClosed :
      (c : ResolverContext) (d : DataSource)
      → IsClosed c
      → IsViewOf c.query_accumulator d.report_query_view
      → IsClosed (add_data_source sources d c)
  add_data_source-IsClosed c d h v = record {
    reports = h.reports;
    data_sources = All-put _ d.name d c.datasource_accumulator v h.data_sources;
    queries = h.queries;
  }

  pub add_report-IsClosed :
      (c : ResolverContext) (r : ReportRef)
      → IsClosed c
      → has r.query_name c.query_accumulator ≡ true
      → IsClosed (add_report sources r c)
  add_report-IsClosed c r h v = record {
    reports = All-put _ r.name r c.report_accumulator v h.reports;
    data_sources = h.data_sources;
    queries = h.queries;
  }
