-- ===== src/Hive/Billing/Distinct.antt =====
-- The columns that `createAWSUsageHiveTableCR` (pkg/operator/aws_usage_hive.go) collects from manifests.
use operator_metering.Prelude.{
  String, ◌≡◌, refl, sym, ap, Bool, true, false, List, [], ◌∷◌, ◌++◌, map, str_eq, eq_iff, arith,
  Bool-cases, inl, inr, if◌then◌else◌,
}
use mathlib.Core.Path.{subst}
use operator_metering.Columns.{Column}
use operator_metering.Hive.Partitions.{member}
use operator_metering.Hive.Billing.{
  Text, BillingColumn, Manifest, sanetize_aws_column_for_hive, aws_column_to_hive_column_type,
  add_columns, all_columns,
}

abbrev pub names : List Column → List String
names cs = map (λ (d : Column). d.name) cs

-- No name occurs twice.
abbrev pub AreDistinct : List String → Type 0
AreDistinct [] = Unit
AreDistinct (x ∷ xs) = (member x xs ≡ false) × AreDistinct xs

member-append :
    (k x : String) (xs : List String)
    → member k xs ≡ false
    → str_eq x k ≡ false
    → member k (xs ++ x ∷ []) ≡ false
member-append k x [] h e = rw e refl
member-append k x (y ∷ xs) h e = elim (Bool-cases (str_eq y k)) [
  | inl t ↦ ground (arith, h, t)
  | inr f ↦ rw f (member-append k x xs (ground (arith, h, f)) e)
]

append-AreDistinct :
    (x : String) (xs : List String)
    → AreDistinct xs
    → member x xs ≡ false
    → AreDistinct (xs ++ x ∷ [])
append-AreDistinct x [] d h = (refl, tt)
append-AreDistinct x (y ∷ xs) d h = elim (Bool-cases (str_eq y x)) [
  | inl t ↦ absurd (ground (arith, h, t))
  | inr f ↦ (
    member-append y x xs d.0 (ground (arith, f, eq_iff x y, eq_iff y x)),
    append-AreDistinct x xs d.1 (ground (arith, h, f)),
  )
]

names-append : (cs : List Column) (c : Column) → names (cs ++ c ∷ []) ≡ names cs ++ c.name ∷ []
names-append [] c = refl
names-append (d ∷ cs) c = ap (λ ns. d.name ∷ ns) (names-append cs c)

module _ (text : Text) where
  abbrev column_of : BillingColumn → Column
  column_of c = record {
    name = sanetize_aws_column_for_hive text c;
    type = aws_column_to_hive_column_type text c;
  }

  step-AreDistinct :
      (columns : List Column) (c : Column) (b : Bool)
      → member c.name (names columns) ≡ b
      → AreDistinct (names columns)
      → AreDistinct (names (if b then columns else columns ++ c ∷ []))
  step-AreDistinct columns c true e d = d
  step-AreDistinct columns c false e d =
      subst AreDistinct (sym (names-append columns c))
        (append-AreDistinct c.name (names columns) d e)

  add-AreDistinct :
      (cs : List BillingColumn) (columns : List Column)
      → AreDistinct (names columns)
      → AreDistinct (names (add_columns text columns cs))
  unfolding add_columns
  add-AreDistinct [] columns d = d
  add-AreDistinct (c ∷ cs) columns d =
      add-AreDistinct cs _
        (step-AreDistinct columns (column_of c) (member (column_of c).name (names columns)) refl d)

  -- The columns that are collected from all manifests have different names, if those that were there have.
  pub all_columns-AreDistinct :
      (ms : List Manifest) (columns : List Column)
      → AreDistinct (names columns)
      → AreDistinct (names (all_columns text columns ms))
  unfolding all_columns
  all_columns-AreDistinct [] columns d = d
  all_columns-AreDistinct (m ∷ ms) columns d =
      all_columns-AreDistinct ms (add_columns text columns m.columns)
        (add-AreDistinct m.columns columns d)
