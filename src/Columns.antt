-- ===== src/Columns.antt =====
-- The conversion of columns between Hive and Presto: pkg/operator/reportingutil/util.go. A type is compared and
-- cut as the list of its bytes, of which only ASCII letters have a case; a type that the source
-- has found in a list is the string in that list.
pub mod Roundtrip
use operator_metering.Prelude.{
  ℕ, suc, ◌+◌, ◌-◌, String, ◌<>◌, Bool, true, false, ◌&&◌, ◌||◌, not, Option, none, some, List, [],
  ◌∷◌, map, leb, ltb, ◌==◌, if◌then◌else◌, is_none, length,
}
use operator_metering.MetricStore.{Bytes, bytes}

-- hive.Column and presto.Column
pub record Column : Type 0 where
  pub name : String
  pub type : String

abbrev pub same_bytes : Bytes → Bytes → Bool
same_bytes [] [] = true
same_bytes (x ∷ xs) (y ∷ ys) = x == y && same_bytes xs ys
same_bytes _ _ = false

-- strings.ToUpper
abbrev pub upper : ℕ → ℕ
upper n = if leb 97 n && leb n 122 then n - 32 else n

abbrev pub to_upper : Bytes → Bytes
to_upper = map upper

abbrev pub starts_with : Bytes → Bytes → Bool
starts_with [] bs = true
starts_with (x ∷ xs) [] = false
starts_with (x ∷ xs) (y ∷ ys) = x == y && starts_with xs ys

-- strings.Contains
abbrev pub contains : Bytes → Bytes → Bool
contains [] part = starts_with part []
contains (b ∷ bs) part = starts_with part (b ∷ bs) || contains bs part

abbrev pub plus_one : Option ℕ → Option ℕ
plus_one none = none
plus_one (some n) = some (suc n)

-- strings.Index of a byte
abbrev pub index : Bytes → ℕ → Option ℕ
index [] c = none
index (b ∷ bs) c = if b == c then some 0 else plus_one (index bs c)

abbrev pub take : ℕ → Bytes → Bytes
take ℕ.zero bs = []
take (suc n) [] = []
take (suc n) (b ∷ bs) = b ∷ take n bs

abbrev pub drop : ℕ → Bytes → Bytes
drop ℕ.zero bs = bs
drop (suc n) [] = []
drop (suc n) (b ∷ bs) = drop n bs

abbrev pub add_first : ℕ → Option (Bytes × Bytes) → Option (Bytes × Bytes)
add_first b none = none
add_first b (some (xs, ys)) = some (b ∷ xs, ys)

-- strings.SplitN(s, ",", 2), if it has two parts
abbrev pub split_comma : Bytes → Option (Bytes × Bytes)
split_comma [] = none
split_comma (b ∷ bs) = if b == 44 then some ([], bs) else add_first b (split_comma bs)

abbrev pub is_space : ℕ → Bool
is_space n = n == 32 || (leb 9 n && leb n 13)

abbrev pub trim_left : Bytes → Bytes
trim_left [] = []
trim_left (b ∷ bs) = if is_space b then trim_left bs else b ∷ bs

abbrev pub keep_unless_empty : ℕ → Bytes → Bytes
keep_unless_empty b [] = if is_space b then [] else b ∷ []
keep_unless_empty b (c ∷ cs) = b ∷ c ∷ cs

abbrev pub trim_right : Bytes → Bytes
trim_right [] = []
trim_right (b ∷ bs) = keep_unless_empty b (trim_right bs)

-- strings.TrimSpace
abbrev pub trim_space : Bytes → Bytes
trim_space bs = trim_right (trim_left bs)

-- The string of the list that has the given bytes.
abbrev pub among : List String → Bytes → Option String
among [] b = none
among (t ∷ ts) b = if same_bytes (bytes t) b then some t else among ts b

abbrev pub common_types : List String
common_types =
    "TINYINT" ∷ "SMALLINT" ∷ "INT" ∷ "INTEGER" ∷ "BIGINT" ∷ "FLOAT" ∷ "DOUBLE" ∷ "BOOLEAN" ∷ "CHAR"
    ∷ "DATE" ∷ "TIME" ∷ "TIMESTAMP" ∷ "BINARY" ∷ []

-- The cases of the switch on a Hive type: a type that stays as it is, or VARCHAR for STRING.
unfoldable pub is_kept_by_presto : Bytes → Bool
is_kept_by_presto b = not (is_none (among ("VARCHAR" ∷ common_types) (to_upper b)))

-- SimpleHiveColumnTypeToPrestoColumnType on a type in upper case; `none` is ""
unfoldable pub upper_hive_to_presto : Bytes → Option String
upper_hive_to_presto b =
    if same_bytes (to_upper b) (bytes "STRING")
    then some "VARCHAR"
    else among ("VARCHAR" ∷ common_types) (to_upper b)

-- SimpleHiveColumnTypeToPrestoColumnType
unfoldable pub simple_hive_to_presto : String → Option String
unfolding is_kept_by_presto
simple_hive_to_presto t =
    if is_kept_by_presto (bytes t)
    then some t
    else if same_bytes (to_upper (bytes t)) (bytes "STRING")
    then some "VARCHAR"
    else none

-- SimplePrestoColumnTypeToHiveColumnType
unfoldable pub simple_presto_to_hive : Bytes → Option String
simple_presto_to_hive b =
    if same_bytes (to_upper b) (bytes "REAL")
    then some "FLOAT"
    else if same_bytes (to_upper b) (bytes "VARCHAR")
    then some "STRING"
    else among common_types (to_upper b)

pub data ColumnError : Type 0 where
  map_with_array : ColumnError
  no_matching_pair : ColumnError
  invalid_map : ColumnError
  invalid_key_type : ColumnError
  invalid_value_type : ColumnError
  unsupported_type : ColumnError

-- A column, an error, or the panic of a slice whose end lies before its start.
pub data Converted (T : Type 0) : Type 0 where
  rejected : ColumnError → Converted T
  converted : T → Converted T
  panics : Converted T

-- the end of a case: both parts of the map have a type
abbrev pub map_type : (String → String → String) → Option String → Option String → Converted String
map_type print none v = rejected invalid_key_type
map_type print (some k) none = rejected invalid_value_type
map_type print (some k) (some v) = converted (print k v)

abbrev pub map_parts :
    (String → String → String) → (Bytes → Option String) → Option (Bytes × Bytes) → Converted String
map_parts print simple none = rejected invalid_map
map_parts print simple (some (k, v)) =
    map_type print (simple (trim_space k)) (simple (trim_space v))

-- what lies between the brackets, whose places were found
abbrev pub between :
    (String → String → String)
    → (Bytes → Option String)
    → Bytes
    → Option ℕ
    → Option ℕ
    → Converted String
between print simple t none end = rejected no_matching_pair
between print simple t (some b) none = rejected no_matching_pair
between print simple t (some b) (some e) =
    if leb (length t) (b + 1)
    then rejected invalid_map
    else if ltb e (b + 1)
    then panics
    else map_parts print simple (split_comma (drop (b + 1) (take e t)))

-- The case of a map in both conversions: `opening` and `closing` are the brackets.
unfoldable pub convert_map :
    (String → String → String) → (Bytes → Option String) → ℕ → ℕ → Bytes → Converted String
convert_map print simple opening closing t =
    if not (contains t (bytes "MAP"))
    then rejected unsupported_type
    else if contains t (bytes "ARRAY")
    then rejected map_with_array
    else between print simple t (index t opening) (index t closing)

abbrev pub presto_map : String → String → String
presto_map k v = "map(" <> (k <> ("," <> (v <> ")")))

abbrev pub hive_map : String → String → String
hive_map k v = "MAP<" <> (k <> ("," <> (v <> ">")))

abbrev pub or_map : Option String → Converted String → Converted String
or_map (some t) c = converted t
or_map none c = c

abbrev pub with_type : Column → Converted String → Converted Column
with_type c (rejected e) = rejected e
with_type c (converted t) = converted (record c { type = t })
with_type c panics = panics

-- the type that HiveColumnToPrestoColumn gives
unfoldable pub hive_type_to_presto : String → Converted String
unfolding simple_hive_to_presto upper_hive_to_presto convert_map
hive_type_to_presto t =
    or_map (simple_hive_to_presto t)
      (convert_map presto_map upper_hive_to_presto 60 62 (to_upper (bytes t)))

-- HiveColumnToPrestoColumn
unfoldable pub hive_column_to_presto_column : Column → Converted Column
hive_column_to_presto_column c = with_type c (hive_type_to_presto c.type)

-- the type that PrestoColumnToHiveColumn gives
unfoldable pub presto_type_to_hive : String → Converted String
unfolding simple_presto_to_hive convert_map
presto_type_to_hive t =
    or_map (simple_presto_to_hive (bytes t))
      (convert_map hive_map simple_presto_to_hive 40 41 (to_upper (bytes t)))

-- PrestoColumnToHiveColumn
unfoldable pub presto_column_to_hive_column : Column → Converted Column
presto_column_to_hive_column c = with_type c (presto_type_to_hive c.type)

abbrev pub and_column : Converted Column → Converted (List Column) → Converted (List Column)
and_column (rejected e) cs = rejected e
and_column panics cs = panics
and_column (converted c) (rejected e) = rejected e
and_column (converted c) panics = panics
and_column (converted c) (converted cs) = converted (c ∷ cs)

-- HiveColumnsToPrestoColumns
unfoldable pub hive_columns_to_presto_columns : List Column → Converted (List Column)
hive_columns_to_presto_columns [] = converted []
hive_columns_to_presto_columns (c ∷ cs) =
    and_column (hive_column_to_presto_column c) (hive_columns_to_presto_columns cs)

-- PrestoColumnsToHiveColumns
unfoldable pub presto_columns_to_hive_columns : List Column → Converted (List Column)
presto_columns_to_hive_columns [] = converted []
presto_columns_to_hive_columns (c ∷ cs) =
    and_column (presto_column_to_hive_column c) (presto_columns_to_hive_columns cs)
