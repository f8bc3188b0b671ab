-- ===== src/Dependencies/Resolver/Supported.antt =====
-- Given inputs that a query does not define are refused (pkg/operator/reporting/dependencies.go).
use operator_metering.Prelude.{◌≡◌, refl, true, Option, none, some, List, [], ◌∷◌, arith, All}
use operator_metering.Dependencies.{
  InputDefinition, InputValue, Sources, ResolverContext, Resolved, ok, ResolveError, is_supported,
  check_supported,
}
use operator_metering.Dependencies.Resolver.{checked, resolve_dependencies, resolve}

check_supported-All :
    (ds : List InputDefinition) (vals : List InputValue)
    → check_supported ds vals ≡ none
    → All (λ (v : InputValue). is_supported ds v.name ≡ true) vals
unfolding check_supported
check_supported-All ds [] h = tt
check_supported-All ds (v ∷ vs) h = (ground arith, check_supported-All ds vs (ground arith))

module _ (sources : Sources) where
  checked-ok :
      (o : Option ResolveError) (r : Resolved) (c : ResolverContext)
      → checked sources o r ≡ ok c
      → o ≡ none
  checked-ok none r c h = refl
  checked-ok (some e) r c h = cc

  -- If the resolution of a query's inputs succeeds, the query defines every input that is given.
  pub resolve-supported :
      (ds : List InputDefinition) (vals : List InputValue) (c : ResolverContext)
      → resolve sources ds vals ≡ ok c
      → All (λ (v : InputValue). is_supported ds v.name ≡ true) vals
  unfolding resolve resolve_dependencies
  resolve-supported ds vals c h =
      check_supported-All ds vals (checked-ok (check_supported ds vals) _ c h)
