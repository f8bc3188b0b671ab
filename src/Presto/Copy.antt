-- ===== src/Presto/Copy.antt =====
-- `copyPrestoTableSpecToStatus` of pkg/operator/prestotables.go. `sort` is sort.Slice by the name of a column and
-- `same_properties` is reflect.DeepEqual on the maps; that on columns is equality.
use operator_metering.Prelude.{
  ℕ, zero, suc, ◌≡◌, ◌≢◌, refl, sym, ap, ◌∙◌, Bool, true, false, ◌&&◌, ◌||◌, not, List, [], ◌∷◌,
  str_eq, eq_iff, if◌then◌else◌, length, arith, ◌==◌, Bool-cases, inl, inr,
}
use operator_metering.Columns.{Column}
use operator_metering.Hive.Tables.{PrestoTable, PrestoParameters}
use operator_metering.Presto.{Properties}

-- The columns of `make([]Column, n)` after `copy` from `cs`: the rest is empty.
unfoldable pub copy_columns : ℕ → List Column → List Column
copy_columns zero cs = []
copy_columns (suc n) [] = record { name = ""; type = "" } ∷ copy_columns n []
copy_columns (suc n) (c ∷ cs) = c ∷ copy_columns n cs

abbrev pub same_columns : List Column → List Column → Bool
same_columns [] [] = true
same_columns (c ∷ cs) (d ∷ ds) =
    str_eq c.name d.name && (str_eq c.type d.type && same_columns cs ds)
same_columns _ _ = false

abbrev pub same_bool : Bool → Bool → Bool
same_bool true b = b
same_bool false b = not b

-- A step of the function: a field that differs is assigned and counts as an update.
abbrev pub assign : {A : Type 0} → Bool → A → A → A
assign same old new = if same then old else new

module _ (sort : List Column → List Column) (same_properties : Properties → Properties → Bool) where
  -- the comparison of the columns, as it is written
  unfoldable pub columns_compare : PrestoParameters → PrestoParameters → Bool
  columns_compare status spec =
      same_columns (sort (copy_columns (length status.columns) spec.columns))
        (sort (copy_columns (length spec.columns) spec.columns))

  -- the status afterwards
  unfoldable pub copied_status : PrestoParameters → PrestoParameters → PrestoParameters
  copied_status status spec = record {
    catalog = assign (str_eq status.catalog spec.catalog) status.catalog spec.catalog;
    schema = assign (str_eq status.schema spec.schema) status.schema spec.schema;
    table_name =
        assign (str_eq status.table_name spec.table_name) status.table_name spec.table_name;
    columns = assign (columns_compare status spec) status.columns spec.columns;
    properties =
        assign (same_properties status.properties spec.properties) status.properties
          spec.properties;
    comment = assign (str_eq status.comment spec.comment) status.comment spec.comment;
    view = assign (same_bool status.view spec.view) status.view spec.view;
    create_table_as =
        assign (same_bool status.create_table_as spec.create_table_as) status.create_table_as
          spec.create_table_as;
    query = assign (str_eq status.query spec.query) status.query spec.query;
  }

  -- `needsUpdate`
  unfoldable pub needs_update : PrestoParameters → PrestoParameters → Bool
  needs_update status spec =
      not (str_eq status.catalog spec.catalog)
      || (not (str_eq status.schema spec.schema)
          || (not (str_eq status.table_name spec.table_name)
              || (not (columns_compare status spec)
                  || (not (same_properties status.properties spec.properties)
                      || (not (str_eq status.comment spec.comment)
                          || (not (same_bool status.view spec.view)
                              || (not (same_bool status.create_table_as spec.create_table_as)
                                  || not (str_eq status.query spec.query))))))))

  -- copyPrestoTableSpecToStatus
  unfoldable pub copy_presto_table_spec_to_status : PrestoTable → Bool × PrestoTable
  copy_presto_table_spec_to_status t =
      (needs_update t.status t.spec, record t { status = copied_status t.status t.spec })

  length-copy : (n : ℕ) (cs : List Column) → length (copy_columns n cs) ≡ n
  unfolding copy_columns
  length-copy zero cs = refl
  length-copy (suc n) [] = ap suc (length-copy n [])
  length-copy (suc n) (c ∷ cs) = ap suc (length-copy n cs)

  same-length : (cs ds : List Column) → same_columns cs ds ≡ true → length cs ≡ length ds
  same-length [] [] h = refl
  same-length [] (d ∷ ds) h = cc
  same-length (c ∷ cs) [] h = cc
  same-length (c ∷ cs) (d ∷ ds) h = ap suc (same-length cs ds (ground arith))

  same_columns_refl : (cs : List Column) → same_columns cs cs ≡ true
  same_columns_refl [] = refl
  same_columns_refl (c ∷ cs) =
      rw ((eq_iff c.name c.name).1 refl) (rw ((eq_iff c.type c.type).1 refl) (same_columns_refl cs))

  assign-eq : {A : Type 0} (b : Bool) (x y : A) → (b ≡ true → x ≡ y) → assign b x y ≡ y
  assign-eq true x y h = h refl
  assign-eq false x y h = refl

  same_bool-eq : (a b : Bool) → same_bool a b ≡ true → a ≡ b
  same_bool-eq true b e = sym e
  same_bool-eq false true e = cc
  same_bool-eq false false e = refl

  compared :
      ((cs : List Column) → length (sort cs) ≡ length cs)
      → (status spec : PrestoParameters) → columns_compare status spec ≡ true
      → length status.columns ≡ length spec.columns
  unfolding columns_compare
  compared sorted status spec e =
      let a =
        same-length (sort (copy_columns (length status.columns) spec.columns))
          (sort (copy_columns (length spec.columns) spec.columns)) e in
      sym (length-copy (length status.columns) spec.columns)
      ∙ sym (sorted (copy_columns (length status.columns) spec.columns))
      ∙ a
      ∙ sorted (copy_columns (length spec.columns) spec.columns)
      ∙ length-copy (length spec.columns) spec.columns

  -- A status with as many columns as the specification keeps its own, whatever they are.
  pub copied-stale_columns :
      (status spec : PrestoParameters)
      → length status.columns ≡ length spec.columns
      → (copied_status status spec).columns ≡ status.columns
  unfolding copied_status columns_compare
  copied-stale_columns status spec h =
      rw h (rw (same_columns_refl (sort (copy_columns (length spec.columns) spec.columns))) refl)

  copied-columns :
      ((cs : List Column) → length (sort cs) ≡ length cs)
      → (status spec : PrestoParameters)
      → (copied_status status spec).columns
        ≡ (if length status.columns == length spec.columns then status.columns else spec.columns)
  copied-columns sorted status spec =
      elim (Bool-cases (length status.columns == length spec.columns)) [
        | inl e ↦ rw e (copied-stale_columns status spec (ground arith))
        | inr e ↦ rw e (
            unfold copied_status in
            assign-eq (columns_compare status spec) status.columns spec.columns
              (λ k. absurd (ground (arith, compared sorted status spec k))))
      ]

  -- If the sort keeps the number of columns and only equal properties are taken to be the same, the status is the specification afterwards in
  -- every field but the columns; these are the specification's if the numbers of columns differed, and stay the status's
  -- own, whatever they are, if the numbers are equal.
  pub copied_status-eq :
      ((cs : List Column) → length (sort cs) ≡ length cs)
      → ((a b : Properties) → same_properties a b ≡ true → a ≡ b)
      → (status spec : PrestoParameters)
      → copied_status status spec ≡ record spec {
        columns =
            if length status.columns == length spec.columns then status.columns else spec.columns;
      }
  unfolding copied_status
  copied_status-eq sorted same status spec = λ i. record {
    catalog =
        assign-eq (str_eq status.catalog spec.catalog) status.catalog spec.catalog
          (eq_iff status.catalog spec.catalog).0 i;
    schema =
        assign-eq (str_eq status.schema spec.schema) status.schema spec.schema
          (eq_iff status.schema spec.schema).0 i;
    table_name =
        assign-eq (str_eq status.table_name spec.table_name) status.table_name spec.table_name
          (eq_iff status.table_name spec.table_name).0 i;
    columns = copied-columns sorted status spec i;
    properties =
        assign-eq (same_properties status.properties spec.properties) status.properties
          spec.properties (same status.properties spec.properties) i;
    comment =
        assign-eq (str_eq status.comment spec.comment) status.comment spec.comment
          (eq_iff status.comment spec.comment).0 i;
    view =
        assign-eq (same_bool status.view spec.view) status.view spec.view
          (same_bool-eq status.view spec.view) i;
    create_table_as =
        assign-eq (same_bool status.create_table_as spec.create_table_as) status.create_table_as
          spec.create_table_as (same_bool-eq status.create_table_as spec.create_table_as) i;
    query =
        assign-eq (str_eq status.query spec.query) status.query spec.query
          (eq_iff status.query spec.query).0 i;
  }

  -- A status with another number of columns is the specification afterwards, under the same conditions.
  pub copied_status_lem :
      ((cs : List Column) → length (sort cs) ≡ length cs)
      → ((a b : Properties) → same_properties a b ≡ true → a ≡ b)
      → (status spec : PrestoParameters) → length status.columns ≢ length spec.columns
      → copied_status status spec ≡ spec
  copied_status_lem sorted same status spec h =
      let e : (length status.columns == length spec.columns) ≡ false = ground (arith, h) in
      copied_status-eq sorted same status spec ∙ rw e refl
