-- ===== src/Sql/PrestoQuery.antt =====
-- The statements of pkg/presto/util.go. The order of a map's entries is that of the list, and a format without an argument
-- for a verb prints "%!s(MISSING)" there.
use operator_metering.Prelude.{
  ℕ, String, ◌<>◌, Bool, false, not, ltb, Option, some, List, [], ◌∷◌, map, join, if◌then◌else◌,
}
use operator_metering.Columns.{Column}
use operator_metering.Hive.Tables.Handler.{is_empty}
use operator_metering.Sql.{only_if, concat, newline}

-- presto.FullyQualifiedTableName
unfoldable pub qualified_name : String → String → String → String
qualified_name catalog schema table_name = concat (catalog ∷ "." ∷ schema ∷ "." ∷ table_name ∷ [])

-- quoteColumn
abbrev pub quote_column : Column → String
quote_column c = concat ("\"" ∷ c.name ∷ "\"" ∷ [])

-- GenerateQuotedColumnsListSQL
unfoldable pub generate_quoted_columns_list_sql : List Column → String
generate_quoted_columns_list_sql columns = join "," (map quote_column columns)

-- generateColumnDefinitionListSQL
unfoldable pub generate_column_definition_list_sql : List Column → String
generate_column_definition_list_sql columns =
    join "," (map (λ (c : Column). concat ("`" ∷ c.name ∷ "` " ∷ c.type ∷ [])) columns)

-- generatePropertiesSQL
unfoldable pub generate_properties_sql : List (String × String) → String
generate_properties_sql props =
    join ", " (map (λ (p : String × String). concat (p.0 ∷ " = " ∷ p.1 ∷ [])) props)

-- DropTable
unfoldable pub drop_table_sql : String → String → String → Bool → String
unfolding qualified_name
drop_table_sql catalog schema table_name ignore_not_exists = concat (
    "DROP TABLE "
    ∷ only_if ignore_not_exists "IF EXISTS"
    ∷ " "
    ∷ qualified_name catalog schema table_name
    ∷ [])

-- CreateView
unfoldable pub create_view_sql : String → String → String → String → Bool → String
create_view_sql catalog schema view_name query replace = concat (
    "CREATE"
    ∷ only_if replace " OR REPLACE"
    ∷ " VIEW "
    ∷ qualified_name catalog schema view_name
    ∷ " AS "
    ∷ query
    ∷ [])

-- DropView
unfoldable pub drop_view_sql : String → String → String → Bool → String
drop_view_sql catalog schema view_name ignore_not_exists = concat (
    "DROP VIEW "
    ∷ only_if ignore_not_exists "IF EXISTS"
    ∷ " "
    ∷ qualified_name catalog schema view_name
    ∷ [])

-- the properties of a new table
abbrev pub with_properties : List (String × String) → String
with_properties props =
    only_if (not (is_empty props)) (concat ("WITH (" ∷ generate_properties_sql props ∷ ")" ∷ []))

-- generateCreateTableSQL: the format has a verb for the comment, which is not among its arguments.
unfoldable pub generate_presto_table_sql :
    String → String → String → List Column → String → List (String × String) → Bool → String
generate_presto_table_sql catalog schema table_name columns comment props ignore_exists = concat (
    "CREATE TABLE "
    ∷ only_if ignore_exists "IF NOT EXISTS"
    ∷ newline
    ∷ qualified_name catalog schema table_name
    ∷ " (\n\t"
    ∷ generate_column_definition_list_sql columns
    ∷ "\n)\n"
    ∷ with_properties props
    ∷ newline
    ∷ "%!s(MISSING)"
    ∷ [])

-- generateCreateTableAsSQL; a nil list of columns and an empty one give the same text
unfoldable pub generate_create_table_as_sql :
    String
    → String
    → String
    → List Column
    → String
    → List (String × String)
    → Bool
    → String
    → String
generate_create_table_as_sql catalog schema table_name columns comment props ignore_exists query =
    concat (
      "CREATE TABLE "
      ∷ only_if ignore_exists "IF NOT EXISTS"
      ∷ newline
      ∷ qualified_name catalog schema table_name
      ∷ " (\n\t"
      ∷ generate_quoted_columns_list_sql columns
      ∷ "\n)\n"
      ∷ with_properties props
      ∷ newline
      ∷ comment
      ∷ "\nAS "
      ∷ query
      ∷ [])

-- strings.ToLower and strings.Index
module _ (to_lower : String → String) (index : String → String → Option ℕ) where
  abbrev pub follows : Option ℕ → Option ℕ → Bool
  follows (some i) (some j) = ltb i j
  follows _ _ = false

  abbrev pub order_column : Column → String
  order_column c =
      let type = to_lower c.type in
      if follows (index type "map(") (index type ")")
      then concat ("map_entries(\"" ∷ c.name ∷ "\")" ∷ [])
      else quote_column c

  -- GenerateOrderBySQL
  unfoldable pub generate_order_by_sql : List Column → String
  generate_order_by_sql columns = join ", " (map order_column columns) <> " ASC"

  -- GenerateGetRowsSQL
  unfoldable pub generate_get_rows_sql : String → List Column → String
  generate_get_rows_sql table_name columns = concat (
      "SELECT "
      ∷ generate_quoted_columns_list_sql columns
      ∷ " FROM "
      ∷ table_name
      ∷ " ORDER BY "
      ∷ generate_order_by_sql columns
      ∷ [])

  -- GenerateGetRowsSQLWithWhere
  unfoldable pub generate_get_rows_sql_with_where : String → List Column → String → String
  generate_get_rows_sql_with_where table_name columns where_clause = concat (
      "SELECT "
      ∷ generate_quoted_columns_list_sql columns
      ∷ " FROM "
      ∷ table_name
      ∷ " "
      ∷ where_clause
      ∷ " ORDER BY "
      ∷ generate_order_by_sql columns
      ∷ [])
