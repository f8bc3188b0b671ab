-- ===== src/Columns/Roundtrip.antt =====
-- Columns that are converted to Presto and back (pkg/operator/reportingutil/util.go).
use operator_metering.Prelude.{
  String, ◌≡◌, refl, ap, ◌∙◌, Bool, true, false, ◌&&◌, ◌||◌, Bool-cases, inl, inr, List, [], ◌∷◌,
  ◌++◌, map, str_eq, eq_iff, All,
}
use mathlib.Core.Path.{subst}
use operator_metering.Columns.{
  Column, Converted, converted, rejected, panics, common_types, hive_map, with_type, and_column,
  hive_type_to_presto, presto_type_to_hive, hive_column_to_presto_column,
  presto_column_to_hive_column, hive_columns_to_presto_columns, presto_columns_to_hive_columns,
}

abbrev pub then_convert : {S T : Type 0} → Converted S → (S → Converted T) → Converted T
then_convert (rejected e) next = rejected e
then_convert (converted t) next = next t
then_convert panics next = panics

-- The types in upper case that Hive and Presto share, and STRING.
abbrev pub hive_types : List String
hive_types = "STRING" ∷ common_types

abbrev maps_from : List String → List String → List String
maps_from [] vs = []
maps_from (k ∷ ks) vs = map (hive_map k) vs ++ maps_from ks vs

-- They, and the maps from them to them.
abbrev pub plain_types : List String
plain_types = hive_types ++ maps_from hive_types hive_types

abbrev is_converted_to : String → Converted String → Bool
is_converted_to t (converted u) = str_eq u t
is_converted_to t (rejected e) = false
is_converted_to t panics = false

abbrev all_back : List String → Bool
unfolding hive_type_to_presto presto_type_to_hive
all_back [] = true
all_back (t ∷ ts) =
    is_converted_to t (then_convert (hive_type_to_presto t) presto_type_to_hive) && all_back ts

all_back-plain_types : all_back plain_types ≡ true
unfolding all_back
all_back-plain_types = refl

abbrev is_among : List String → String → Bool
is_among [] t = false
is_among (x ∷ xs) t = str_eq x t || is_among xs t

abbrev pub IsPlain : Column → Type 0
IsPlain c = is_among plain_types c.type ≡ true

back-among :
    (ts : List String) (t : String)
    → all_back ts ≡ true
    → is_among ts t ≡ true
    → is_converted_to t (then_convert (hive_type_to_presto t) presto_type_to_hive) ≡ true
unfolding all_back
back-among [] t h k = cc
back-among (x ∷ xs) t h k = elim (Bool-cases (str_eq x t)) [
  | inl e ↦
      subst
        (λ u. is_converted_to u (then_convert (hive_type_to_presto u) presto_type_to_hive) ≡ true)
        ((eq_iff x t).0 e) (both-fst _ _ h)
  | inr e ↦ back-among xs t (both-snd _ _ h) (rw e at k)
]
  where
    both-fst : (a b : Bool) → a && b ≡ true → a ≡ true
    both-fst true b h = refl
    both-fst false b h = cc

    both-snd : (a b : Bool) → a && b ≡ true → b ≡ true
    both-snd true b h = h
    both-snd false b h = cc

converted-eq : (t : String) (x : Converted String) → is_converted_to t x ≡ true → x ≡ converted t
converted-eq t (converted u) h = ap converted ((eq_iff u t).0 h)
converted-eq t (rejected e) h = cc
converted-eq t panics h = cc

-- The conversions of one column undo each other, if those of its type do.
column_back :
    (c : Column) (x : Converted String)
    → hive_type_to_presto c.type ≡ x
    → then_convert x presto_type_to_hive ≡ converted c.type
    → (p : Column) × ((hive_column_to_presto_column c ≡ converted p)
        × (presto_column_to_hive_column p ≡ converted c))
unfolding hive_column_to_presto_column presto_column_to_hive_column
column_back c (converted u) e k =
    (record c { type = u }, (ap (with_type c) e, ap (with_type (record c { type = u })) k))
column_back c (rejected y) e k = cc
column_back c panics e k = cc

columns_back :
    (cs : List Column)
    → All IsPlain cs
    → (ps : List Column) × ((hive_columns_to_presto_columns cs ≡ converted ps)
        × (presto_columns_to_hive_columns ps ≡ converted cs))
unfolding hive_columns_to_presto_columns presto_columns_to_hive_columns
columns_back [] h = ([], (refl, refl))
columns_back (c ∷ cs) h =
    let (p, (e, e')) =
      column_back c _ refl
        (converted-eq c.type _ (back-among plain_types c.type all_back-plain_types h.0)) in
    let (ps, (es, es')) = columns_back cs h.1 in
    (
      p ∷ ps,
      (
        ap (λ x. and_column x (hive_columns_to_presto_columns cs)) e
            ∙ ap (and_column (converted p)) es,
        ap (λ x. and_column x (presto_columns_to_hive_columns ps)) e'
            ∙ ap (and_column (converted c)) es',
      ),
    )

-- Hive columns whose types are simple types in upper case that Hive and Presto share, STRING, or maps from one
-- such type to another convert to Presto columns, and those back to the same Hive columns.
pub presto_columns-hive_columns :
    (cs : List Column)
    → All IsPlain cs
    → then_convert (hive_columns_to_presto_columns cs) presto_columns_to_hive_columns ≡ converted cs
presto_columns-hive_columns cs h =
    let (ps, (e, e')) = columns_back cs h in
    ap (λ x. then_convert x presto_columns_to_hive_columns) e ∙ e'
