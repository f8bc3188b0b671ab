-- ===== src/Slice.antt =====
-- `ContainsString` and `RemoveString` of pkg/util/slice/slice.go.
use operator_metering.Prelude.{
  String, ◌≡◌, ◌≢◌, refl, Bool, true, false, Option, none, some, List, [], ◌∷◌, ◌++◌, arith, str_eq,
  eq_iff, if◌then◌else◌,
}
use text.Mathlib.TextPositions.{eq_refl}

-- The item equals `s`, itself or after the modifier.
unfoldable pub is_match : String → Option (String → String) → String → Bool
is_match s none item = str_eq item s
is_match s (some modifier) item = if str_eq item s then true else str_eq (modifier item) s

unfoldable pub contains_string : List String → String → Option (String → String) → Bool
unfolding is_match
contains_string [] s modifier = false
contains_string (item ∷ slice) s modifier =
    let rest = contains_string slice s modifier in if is_match s modifier item then true else rest

unfoldable pub remove_string : List String → String → Option (String → String) → List String
unfolding is_match
remove_string [] s modifier = []
remove_string (item ∷ slice) s modifier =
    let rest = remove_string slice s modifier in
    if is_match s modifier item then rest else item ∷ rest

-- After a string was removed, the slice does not contain it, with the same modifier or none.
pub contains-remove_string :
    (slice : List String) (s : String) (modifier : Option (String → String))
    → contains_string (remove_string slice s modifier) s modifier ≡ false
unfolding contains_string remove_string
contains-remove_string [] s modifier = refl
contains-remove_string (item ∷ slice) s modifier =
    ground (arith, contains-remove_string slice s modifier)

-- Removing a string leaves the slice with the same other strings.
pub contains-remove_ne :
    (slice : List String) (s t : String)
    → s ≢ t
    → contains_string (remove_string slice s none) t none ≡ contains_string slice t none
unfolding contains_string remove_string
contains-remove_ne [] s t h = refl
contains-remove_ne (item ∷ slice) s t h =
    ground (arith, contains-remove_ne slice s t h, eq_iff item s, eq_iff item t)

pub contains-append_self :
    (slice : List String) (s : String) → contains_string (slice ++ s ∷ []) s none ≡ true
unfolding contains_string
contains-append_self [] s = rw (eq_refl s) refl
contains-append_self (item ∷ slice) s = ground (arith, contains-append_self slice s)

pub remove-append :
    (slice : List String) (s : String)
    → contains_string slice s none ≡ false
    → remove_string (slice ++ s ∷ []) s none ≡ slice
unfolding contains_string remove_string
remove-append [] s h = rw (eq_refl s) refl
remove-append (item ∷ slice) s h = ground (arith, remove-append slice s)
