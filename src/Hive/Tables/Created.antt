-- ===== src/Hive/Tables/Created.antt =====
-- What `handleHiveTable` (pkg/operator/hivetables.go) creates, and when it does not create it again.
use operator_metering.Prelude.{
  String, ◌≡◌, ◌≢◌, ◌↔◌, ◌∷◌, refl, Bool, true, false, ◌&&◌, none, List, [], ◌++◌, str_eq, eq_iff,
  arith, ◌⊎◌, inl, inr, Bool-cases,
}
use operator_metering.Kube.{Failure, invalid, call_failed, ok, err, needs_finalizer}
use operator_metering.Columns.{converted, hive_columns_to_presto_columns, Column}
use operator_metering.Hive.Tables.{HiveTable, HiveApi, not_made, hive_table_finalizer}
use operator_metering.Hive.Tables.Handler.{
  handle_hive_table, ensure_finalizer, check_spec, ensure_created, create_hive_table,
  with_spec_status, presto_table_of, is_empty,
}

empty_iff : (cs : List Column) → (is_empty cs ≡ true) ↔ (cs ≡ [])
empty_iff [] = (λ h. refl, λ h. refl)
empty_iff (c ∷ cs) = (λ h. cc, λ h. cc)

module _ {W : Type 0} (api : HiveApi W) (order : List String → List String)
    (enable_finalizers : Bool) (t : HiveTable)
    (kept : enable_finalizers && needs_finalizer hive_table_finalizer t.meta ≡ false) where
  -- A table whose spec has no name or no columns is rejected, and nothing is called.
  pub handle-invalid :
      (w : W)
      → (t.spec.table.name ≡ "") ⊎ (t.spec.table.columns ≡ [])
      → (e : Failure) × (handle_hive_table api order enable_finalizers t w ≡ (err e, w))
  unfolding handle_hive_table check_spec ensure_finalizer
  handle-invalid w h = elim (Bool-cases (str_eq t.spec.table.name "")) [
    | inl e ↦ (invalid "spec.tableName must be set", rw kept (rw e refl))
    | inr e ↦
        let f : is_empty t.spec.table.columns ≡ true =
          ground (arith, h, eq_iff t.spec.table.name "", empty_iff t.spec.table.columns) in
        (invalid "spec.columns must be non-empty", rw kept (rw e (rw f refl)))
  ]

  module _ (has_name : t.spec.table.name ≢ "") (has_columns : t.spec.table.columns ≢ []) where
    pub checked : (w : W) → check_spec api order t w ≡ (ok tt, w)
    unfolding check_spec
    checked w =
        let e : str_eq t.spec.table.name "" ≡ false = ground (arith, eq_iff t.spec.table.name "") in
        let f : is_empty t.spec.table.columns ≡ false =
          ground (arith, empty_iff t.spec.table.columns) in
        rw e (rw f refl)

    -- A table that is created and whose partitions are not managed is left alone: nothing is called.
    pub handle-created :
        (w : W)
        → t.status.table.name ≢ ""
        → t.spec.manage_partitions ≡ false
        → handle_hive_table api order enable_finalizers t w ≡ (ok tt, w)
    unfolding handle_hive_table ensure_finalizer ensure_created
    handle-created w named m =
        let e : str_eq t.status.table.name "" ≡ false =
          ground (arith, eq_iff t.status.table.name "") in
        rw kept (rw (checked w) (rw e (rw m refl)))

module _ {W : Type 0} (api : HiveApi W) (order : List String → List String)
    (enable_finalizers : Bool) (t : HiveTable)
    (kept : enable_finalizers && needs_finalizer hive_table_finalizer t.meta ≡ false)
    (has_name : t.spec.table.name ≢ "") (has_columns : t.spec.table.columns ≢ []) where
  -- A valid table without managed partitions that needs no finalizer and has no name in its status:
  -- if it is made and its status is stored, but its Presto table is not made, the error is returned, and from then
  -- on every handling of the stored table succeeds without calling anything: the Presto table is never made.
  pub presto_table-never_made :
      (w w₁ w₂ w₃ : W) (cs : List Column) (e : String)
      → t.status.table.name ≡ ""
      → t.spec.manage_partitions ≡ false
      → api.create_table t.spec.table true w ≡ (none, w₁)
      → api.update_hive_table (with_spec_status t) w₁ ≡ (ok (with_spec_status t), w₂)
      → hive_columns_to_presto_columns (t.spec.table.columns ++ t.spec.table.partitioned_by)
        ≡ converted cs
      → api.create_presto_table (presto_table_of (with_spec_status t) cs) w₂ ≡ (not_made e, w₃)
      → (handle_hive_table api order enable_finalizers t w
          ≡ (err (call_failed "create PrestoTable" e), w₃))
        × ((v : W)
            → handle_hive_table api order enable_finalizers (with_spec_status t) v ≡ (ok tt, v))
  unfolding handle_hive_table ensure_finalizer ensure_created create_hive_table
  presto_table-never_made w w₁ w₂ w₃ cs e unnamed m a b c d =
      let u : str_eq t.status.table.name "" ≡ true =
        ground (arith, eq_iff t.status.table.name "") in
      (
        rw kept (
            rw (checked api order enable_finalizers t kept has_name has_columns w)
              (rw u (rw a (rw b (rw c (rw d refl)))))),
        λ v.
            handle-created api order enable_finalizers (with_spec_status t) kept has_name
              has_columns v has_name m,
      )
