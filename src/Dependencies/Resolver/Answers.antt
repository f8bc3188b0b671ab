-- ===== src/Dependencies/Resolver/Answers.antt =====
-- The resolution of dependencies keeps a context closed and answers every input
-- (pkg/operator/reporting/dependencies.go). The getters return what has the name that they were asked for.
use operator_metering.Prelude.{
  ℕ, zero, suc, String, ◌≡◌, refl, Bool, true, false, Option, none, some, List, [], ◌∷◌,
  if◌then◌else◌, All,
}
use mathlib.Core.Path.{subst}
use operator_metering.Dependencies.{
  InputDefinition, InputValue, Query, DataSource, ReportRef, Reply, found, missing, Sources, Input,
  string_value, time_value, int_value, ResolveError, has, put, ResolverContext, Resolved, ok, err,
  and_then, InputType, string_input, time_input, int_input, data_source_input, query_input,
  report_input, unsupported, given_value, or_default, check_supported,
}
use operator_metering.Dependencies.Resolver.{
  Deeper, add_input, fetched_query, resolve_query, view_query, fetched_data_source,
  resolve_data_source, fetched_report, resolve_report, store, store_resource, resolve_value,
  input_type, resolve_given, resolve_input, resolve_inputs, checked, resolve_dependencies,
  empty_context, max_depth, resolve,
}
use operator_metering.Dependencies.Resolver.Closed.{
  has-put, has-put_self, IsAnswered, IsStored, IsViewOf, IsClosed, Grows, Grows-refl, Grows-trans,
  IsAnswered-map, add_input-IsClosed, add_query-IsClosed, add_data_source-IsClosed,
  add_report-IsClosed,
}

abbrev After : (ResolverContext → Type 0) → Resolved → Type 0
After P (ok c) = P c
After P (err e) = Unit

and_then-After :
    (P Q : ResolverContext → Type 0) (r : Resolved) (f : ResolverContext → Resolved)
    → After P r
    → ((c : ResolverContext) → P c → After Q (f c))
    → After Q (and_then r f)
and_then-After P Q (ok c) f h k = k c h
and_then-After P Q (err e) f h k = tt

if-After :
    (P : ResolverContext → Type 0) (b : Bool) (r s : Resolved)
    → (b ≡ true → After P r)
    → (b ≡ false → After P s)
    → After P (if b then r else s)
if-After P true r s h k = h refl
if-After P false r s h k = k refl

-- From the context `c`, a closed one is reached that has all of its queries and inputs, and for which
-- `P` holds.
abbrev Reaches : (ResolverContext → Type 0) → ResolverContext → ResolverContext → Type 0
Reaches P c c' = IsClosed c' × Grows c c' × P c'

module _ (sources : Sources)
    (named : (name : String) (q : Query)
      → sources.get_report_query name ≡ found q
      → q.name ≡ name) where
  abbrev AnswersDeeper : Deeper → Type 0
  AnswersDeeper deeper =
      (ds : List InputDefinition) (c : ResolverContext)
      → IsClosed c
      → After (Reaches (λ c'. All (IsAnswered [] c'.input_values) ds) c) (deeper ds c)

  module _ (deeper : Deeper) (deep : AnswersDeeper deeper) where
    fetched_query-Reaches :
        (name : String) (reply : Reply Query) (c : ResolverContext)
        → ((q : Query) → reply ≡ found q → q.name ≡ name)
        → IsClosed c
        → After
            (Reaches (λ c'. has name c'.query_accumulator ≡ true) c)
            (fetched_query sources deeper reply c)
    fetched_query-Reaches name (missing e) c n h = tt
    fetched_query-Reaches name (found q) c n h =
        and_then-After (Reaches (λ c'. All (IsAnswered [] c'.input_values) q.inputs) c) _
          (deeper q.inputs c) _ (deep q.inputs c h)
          (λ c' r. (
            add_query-IsClosed sources c' q r.0 r.2,
            record {
              queries = λ k x. has-put k q.name q c'.query_accumulator (r.1.queries k x);
              inputs = r.1.inputs;
            },
            subst (λ k. has k (put q.name q c'.query_accumulator) ≡ true) (n q refl)
                (has-put_self q.name q c'.query_accumulator),
          ))

    resolve_query-Reaches :
        (name : String) (c : ResolverContext)
        → IsClosed c
        → After
            (Reaches (λ c'. has name c'.query_accumulator ≡ true) c)
            (resolve_query sources deeper name c)
    unfolding resolve_query
    resolve_query-Reaches name c h =
        if-After _ (has name c.query_accumulator) _ _ (λ x. (h, Grows-refl c, x))
          (λ x. fetched_query-Reaches name (sources.get_report_query name) c (named name) h)

    view_query-Reaches :
        (o : Option String) (c : ResolverContext)
        → IsClosed c
        → After (Reaches (λ c'. IsViewOf c'.query_accumulator o) c) (view_query sources deeper o c)
    view_query-Reaches none c h = (h, Grows-refl c, tt)
    view_query-Reaches (some k) c h = resolve_query-Reaches k c h

    abbrev Any : ResolverContext → Type 0
    Any c = Unit

    fetched_data_source-Reaches :
        (reply : Reply DataSource) (c : ResolverContext)
        → IsClosed c
        → After (Reaches Any c) (fetched_data_source sources deeper reply c)
    fetched_data_source-Reaches (missing e) c h = tt
    fetched_data_source-Reaches (found d) c h =
        and_then-After (Reaches (λ c'. IsViewOf c'.query_accumulator d.report_query_view) c) _
          (view_query sources deeper d.report_query_view c) _
          (view_query-Reaches d.report_query_view c h)
          (λ c' r. (
            add_data_source-IsClosed sources c' d r.0 r.2,
            record { queries = r.1.queries; inputs = r.1.inputs },
            tt,
          ))

    resolve_data_source-Reaches :
        (name : String) (c : ResolverContext)
        → IsClosed c
        → After (Reaches Any c) (resolve_data_source sources deeper name c)
    unfolding resolve_data_source
    resolve_data_source-Reaches name c h =
        if-After _ (has name c.datasource_accumulator) _ _ (λ x. (h, Grows-refl c, tt))
          (λ x. fetched_data_source-Reaches (sources.get_report_data_source name) c h)

    fetched_report-Reaches :
        (reply : Reply ReportRef) (c : ResolverContext)
        → IsClosed c
        → After (Reaches Any c) (fetched_report sources deeper reply c)
    fetched_report-Reaches (missing e) c h = tt
    fetched_report-Reaches (found r) c h =
        and_then-After (Reaches (λ c'. has r.query_name c'.query_accumulator ≡ true) c) _
          (resolve_query sources deeper r.query_name c) _ (resolve_query-Reaches r.query_name c h)
          (λ c' x. (
            add_report-IsClosed sources c' r x.0 x.2,
            record { queries = x.1.queries; inputs = x.1.inputs },
            tt,
          ))

    resolve_report-Reaches :
        (name : String) (c : ResolverContext)
        → IsClosed c
        → After (Reaches Any c) (resolve_report sources deeper name c)
    unfolding resolve_report
    resolve_report-Reaches name c h =
        if-After _ (has name c.report_accumulator) _ _ (λ x. (h, Grows-refl c, tt))
          (λ x. fetched_report-Reaches (sources.get_report name) c h)

    -- The input is stored.
    abbrev Stored : String → ResolverContext → Type 0
    Stored name c = has name c.input_values ≡ true

    add_input-Reaches :
        (name : String) (x : Input) (c c' : ResolverContext)
        → IsClosed c'
        → Grows c c'
        → Reaches (Stored name) c (add_input sources name x c')
    add_input-Reaches name x c c' h g = (
      add_input-IsClosed sources c' name x h,
      record {
        queries = g.queries;
        inputs = λ k y. has-put k name x c'.input_values (g.inputs k y);
      },
      has-put_self name x c'.input_values,
    )

    store-Reaches :
        {A : Type 0} (name raw : String) (reply : Reply A) (input : A → Input) (c : ResolverContext)
        → IsClosed c
        → After (Reaches (Stored name) c) (store sources name raw reply input c)
    store-Reaches name raw (missing e) input c h = tt
    store-Reaches name raw (found a) input c h =
        add_input-Reaches name (input a) c c h (Grows-refl c)

    store_resource-Reaches :
        (P : String → ResolverContext → Type 0) (name raw : String) (reply : Reply String)
        (get : String → ResolverContext → Resolved) (c : ResolverContext)
        → IsClosed c
        → ((s : String) → After (Reaches (P s) c) (get s c))
        → After (Reaches (Stored name) c) (store_resource sources name raw reply get c)
    store_resource-Reaches P name raw (missing e) get c h f = tt
    store_resource-Reaches P name raw (found s) get c h f =
        and_then-After (Reaches (P s) c) _ (get s c) _ (f s)
          (λ c' r. add_input-Reaches name (string_value s) c c' r.0 r.1)

    resolve_value-Reaches :
        (t : InputType) (name raw : String) (c : ResolverContext)
        → IsClosed c
        → After (Reaches (Stored name) c) (resolve_value sources deeper t name raw c)
    unfolding resolve_value
    resolve_value-Reaches string_input name raw c h =
        store-Reaches name raw (sources.unmarshal_string raw) string_value c h
    resolve_value-Reaches time_input name raw c h =
        store-Reaches name raw (sources.unmarshal_time raw) time_value c h
    resolve_value-Reaches int_input name raw c h =
        store-Reaches name raw (sources.unmarshal_int raw) int_value c h
    resolve_value-Reaches data_source_input name raw c h =
        store_resource-Reaches (λ _. Any) name raw (sources.unmarshal_string raw) _ c h
          (λ s. resolve_data_source-Reaches s c h)
    resolve_value-Reaches query_input name raw c h =
        store_resource-Reaches (λ s c'. has s c'.query_accumulator ≡ true) name raw
          (sources.unmarshal_string raw) _ c h (λ s. resolve_query-Reaches s c h)
    resolve_value-Reaches report_input name raw c h =
        store_resource-Reaches (λ _. Any) name raw (sources.unmarshal_string raw) _ c h
          (λ s. resolve_report-Reaches s c h)
    resolve_value-Reaches unsupported name raw c h = tt

    resolve_given-Reaches :
        (d : InputDefinition) (o : Option String) (c : ResolverContext)
        → IsClosed c
        → After
            (Reaches (λ c'. IsStored o (has d.name c'.input_values)) c)
            (resolve_given sources deeper d o c)
    resolve_given-Reaches d none c h = (h, Grows-refl c, tt)
    resolve_given-Reaches d (some raw) c h =
        resolve_value-Reaches (input_type sources d) d.name raw c h

    IsStored-true : (o : Option String) (b : Bool) → b ≡ true → IsStored o b
    IsStored-true none b h = tt
    IsStored-true (some v) b h = h

    resolve_input-Reaches :
        (vals : List InputValue) (d : InputDefinition) (c : ResolverContext)
        → IsClosed c
        → After
            (Reaches (λ c'. IsAnswered vals c'.input_values d) c)
            (resolve_input sources deeper vals d c)
    unfolding resolve_input
    resolve_input-Reaches vals d c h =
        if-After _ (has d.name c.input_values) _ _ (λ x. (h, Grows-refl c, IsStored-true _ _ x))
          (λ x. resolve_given-Reaches d (or_default (given_value d.name vals) d.default) c h)

    resolve_inputs-Reaches :
        (vals : List InputValue) (ds : List InputDefinition) (c : ResolverContext)
        → IsClosed c
        → After
            (Reaches (λ c'. All (IsAnswered vals c'.input_values) ds) c)
            (resolve_inputs sources deeper vals ds c)
    unfolding resolve_inputs
    resolve_inputs-Reaches vals [] c h = (h, Grows-refl c, tt)
    resolve_inputs-Reaches vals (d ∷ ds) c h =
        and_then-After (Reaches (λ c'. IsAnswered vals c'.input_values d) c) _
          (resolve_input sources deeper vals d c) _ (resolve_input-Reaches vals d c h)
          (λ c' r.
            weaken (resolve_inputs sources deeper vals ds c')
              (λ c'' s. (
                s.0,
                Grows-trans c c' c'' r.1 s.1,
                (
                  (IsAnswered-map vals c'.input_values c''.input_values (d ∷ []) s.1.inputs
                      (r.2, tt)).0,
                  s.2,
                ),
              ))
              (resolve_inputs-Reaches vals ds c' r.0))
      where
        weaken :
            {P Q : ResolverContext → Type 0} (r : Resolved)
            → ((c : ResolverContext) → P c → Q c)
            → After P r
            → After Q r
        weaken (ok c) f h = f c h
        weaken (err e) f h = tt

  resolve_dependencies-Reaches :
      (left : ℕ) (vals : List InputValue) (ds : List InputDefinition) (c : ResolverContext)
      → IsClosed c
      → After
          (Reaches (λ c'. All (IsAnswered vals c'.input_values) ds) c)
          (resolve_dependencies sources left vals ds c)
  unfolding resolve_dependencies
  resolve_dependencies-Reaches zero vals ds c h = tt
  resolve_dependencies-Reaches (suc left) vals ds c h =
      checked-After _ (check_supported ds vals) _ (
        resolve_inputs-Reaches (resolve_dependencies sources left [])
          (resolve_dependencies-Reaches left []) vals ds c h)
    where
      checked-After :
          (P : ResolverContext → Type 0) (o : Option ResolveError) (r : Resolved)
          → After P r
          → After P (checked sources o r)
      checked-After P none r h = h
      checked-After P (some e) r h = tt

  -- Where the resolution of a query's inputs succeeds, and the getter of queries returns what has the
  -- name that it was asked for: every input that is given a value or has a default is stored; the query
  -- of every report and of every view is among the queries that were found; and every input with a
  -- default of those queries is stored too.
  pub resolve-IsClosed :
      (ds : List InputDefinition) (vals : List InputValue) (c : ResolverContext)
      → resolve sources ds vals ≡ ok c
      → IsClosed c × All (IsAnswered vals c.input_values) ds
  unfolding resolve
  resolve-IsClosed ds vals c h =
      let r =
        subst
          (After (Reaches (λ c'. All (IsAnswered vals c'.input_values) ds) (empty_context sources)))
          h
          (resolve_dependencies-Reaches max_depth vals ds (empty_context sources)
            (record { reports = tt; data_sources = tt; queries = tt })) in
      (r.0, r.2)
