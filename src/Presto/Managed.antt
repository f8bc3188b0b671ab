-- ===== src/Presto/Managed.antt =====
-- What `handlePrestoTable` (pkg/operator/prestotables.go) creates and stores.
use operator_metering.Prelude.{
  ◌≡◌, ◌≢◌, ◌↔◌, refl, sym, ap, ◌∙◌, Bool, true, false, ◌&&◌, none, List, [], ◌∷◌, str_eq, eq_iff,
  arith, if◌then◌else◌, length,
}
use operator_metering.Kube.{
  Failure, ok, Act, reject, continue, continue-ok, called, called-ok, reject-ok, ignored,
  ignored-world, needs_finalizer,
}
use operator_metering.Columns.{Column}
use operator_metering.Hive.Tables.{PrestoTable, PrestoParameters}
use operator_metering.Hive.Tables.Handler.{is_empty}
use operator_metering.Presto.{Properties, PrestoApi, presto_table_finalizer}
use operator_metering.Presto.Copy.{
  copy_presto_table_spec_to_status, needs_update, copied_status_lem,
}
use operator_metering.Presto.Handler.{
  handle_presto_table, ensure_finalizer, ensure_created, create_and_store, check_spec, create,
  store, queue_dependents_of_presto_table,
}

-- The specification names a table with columns, and it is not both a view and a table made by a query.
abbrev pub IsValidTable : PrestoParameters → Type 0
IsValidTable s =
    (s.catalog ≢ "")
    × (s.schema ≢ "")
    × (s.table_name ≢ "")
    × (s.columns ≢ [])
    × (s.create_table_as && s.view ≡ false)

empty_iff : (cs : List Column) → (is_empty cs ≡ true) ↔ (cs ≡ [])
empty_iff [] = (λ h. refl, λ h. refl)
empty_iff (c ∷ cs) = (λ h. cc, λ h. cc)

length-zero : (cs : List Column) → length cs ≡ 0 → cs ≡ []
length-zero [] h = refl
length-zero (c ∷ cs) h = absurd (ground (arith, h))

module _ {W : Type 0} (api : PrestoApi W) (sort : List Column → List Column)
    (same_properties : Properties → Properties → Bool) (enable_finalizers : Bool) (t : PrestoTable)
    (kept : enable_finalizers && needs_finalizer presto_table_finalizer t.meta ≡ false) where
  -- The checks pass exactly if the specification is valid, and call nothing.
  checked : (w : W) → IsValidTable t.spec → check_spec api sort same_properties t w ≡ (ok tt, w)
  unfolding check_spec
  checked w (a, b, c, d, e) =
      let a' : str_eq t.spec.catalog "" ≡ false = ground (arith, eq_iff t.spec.catalog "") in
      let b' : str_eq t.spec.schema "" ≡ false = ground (arith, eq_iff t.spec.schema "") in
      let c' : str_eq t.spec.table_name "" ≡ false = ground (arith, eq_iff t.spec.table_name "") in
      let d' : is_empty t.spec.columns ≡ false = ground (arith, empty_iff t.spec.columns) in
      rw a' (rw b' (rw c' (rw d' (rw e refl))))

  check-IsValidTable :
      (w : W) → (check_spec api sort same_properties t w).0 ≡ ok tt → IsValidTable t.spec
  unfolding check_spec
  check-IsValidTable w h =
      let (a, h₁) = reject-ok (str_eq t.spec.catalog "") _ _ w tt h in
      let (b, h₂) = reject-ok (str_eq t.spec.schema "") _ _ w tt h₁ in
      let (c, h₃) = reject-ok (str_eq t.spec.table_name "") _ _ w tt h₂ in
      let (d, h₄) = reject-ok (is_empty t.spec.columns) _ _ w tt h₃ in
      (
        λ x. ground (arith, a, x, eq_iff t.spec.catalog ""),
        λ x. ground (arith, b, x, eq_iff t.spec.schema ""),
        λ x. ground (arith, c, x, eq_iff t.spec.table_name ""),
        λ x. ground (arith, d, x, empty_iff t.spec.columns),
        not_rejected (t.spec.create_table_as && t.spec.view) _ h₄,
      )
    where
      not_rejected : (b : Bool) (e : Failure) → (reject b e w).0 ≡ ok tt → b ≡ false
      not_rejected true e x = cc
      not_rejected false e x = refl

  -- A table that has a name in its status is left alone.
  pub handle-created :
      (w : W)
      → IsValidTable t.spec
      → t.status.table_name ≢ ""
      → handle_presto_table api sort same_properties enable_finalizers t w ≡ (ok tt, w)
  unfolding handle_presto_table ensure_finalizer
  handle-created w valid named =
      let e : str_eq t.status.table_name "" ≡ false =
        ground (arith, eq_iff t.status.table_name "") in
      rw kept (rw (checked w valid) (rw e refl))

  abbrev synced : PrestoTable
  synced = record t { status = t.spec }

  module _ (sort-length : (cs : List Column) → length (sort cs) ≡ length cs)
      (same-eq : (a b : Properties) → same_properties a b ≡ true → a ≡ b)
      (fresh : t.status.table_name ≡ "") (no_columns : t.status.columns ≡ []) where
    copied :
        IsValidTable t.spec
        → copy_presto_table_spec_to_status sort same_properties t ≡ (true, synced)
    unfolding copy_presto_table_spec_to_status needs_update
    copied (a, b, c, d, e) =
        let named : str_eq t.status.table_name t.spec.table_name ≡ false =
          ground (arith, eq_iff t.status.table_name t.spec.table_name, fresh, c) in
        let longer : length t.status.columns ≢ length t.spec.columns =
          λ x. d (length-zero t.spec.columns (sym x ∙ ap length no_columns)) in
        let u : needs_update sort same_properties t.status t.spec ≡ true = ground (arith, named) in
        λ i. (
          u i,
          record t {
            status =
                copied_status_lem sort same_properties sort-length same-eq t.status t.spec longer i;
          },
        )

    created :
        (w : W)
        → t.unmanaged ≡ false
        → IsValidTable t.spec
        → create_and_store api sort same_properties t w
          ≡ continue
              (called "create" (create api sort same_properties t.spec w))
              (λ x. store api sort same_properties true synced)
    unfolding create_and_store ensure_created
    created w managed valid =
        ap
          (λ (r : Bool × PrestoTable).
            continue (ensure_created api sort same_properties t w)
              (λ x. store api sort same_properties r.0 r.1))
          (copied valid)
        ∙ ap
            (λ b.
              continue
                ((if◌then◌else◌ {A = Act W (Unit {0})} b (λ v. (ok tt, v))
                    (λ v. called "create" (create api sort same_properties t.spec v)))
                  w)
                (λ x. store api sort same_properties true synced))
            managed

    -- If handling a managed table succeeds whose status has no table name and no columns and that needs no finalizer, its
    -- specification is valid, the call that creates it succeeded, then the table was stored with its specification
    -- as its status, and last its dependents were queued. The sort keeps the number of columns, and only equal
    -- properties are taken to be the same.
    pub handle-creates :
        (w : W)
        → t.unmanaged ≡ false
        → (handle_presto_table api sort same_properties enable_finalizers t w).0 ≡ ok tt
        → let made = create api sort same_properties t.spec w in
          let stored = api.update_presto_table synced made.1 in
          IsValidTable t.spec
          × (made.0 ≡ none)
          × ((t' : PrestoTable) × ((stored.0 ≡ ok t')
                × ((handle_presto_table api sort same_properties enable_finalizers t w).1
                    ≡ (queue_dependents_of_presto_table api sort same_properties t' stored.1).1)))
    unfolding handle_presto_table ensure_finalizer create_and_store ensure_created store
    handle-creates w managed h =
        let n : str_eq t.status.table_name "" ≡ true =
          ground (arith, eq_iff t.status.table_name "") in
        let e : handle_presto_table api sort same_properties enable_finalizers t w
            ≡ continue (check_spec api sort same_properties t w)
                (λ x. create_and_store api sort same_properties t) =
          rw kept (rw n refl) in
        let (u, (a, b)) =
          continue-ok (check_spec api sort same_properties t w)
            (λ x. create_and_store api sort same_properties t) tt (sym (ap (λ r. r.0) e) ∙ h) in
        let valid = check-IsValidTable w a in
        let made = create api sort same_properties t.spec w in
        let f : handle_presto_table api sort same_properties enable_finalizers t w
            ≡ continue (called "create" made) (λ x. store api sort same_properties true synced) =
          e ∙ rw (checked w valid) (created w managed valid) in
        let (v, (c, d)) =
          continue-ok (called "create" made) (λ x. store api sort same_properties true synced) tt
            (sym (ap (λ r. r.0) f) ∙ h) in
        let (ran, at) = called-ok "create" made c in
        let g : handle_presto_table api sort same_properties enable_finalizers t w
            ≡ store api sort same_properties true synced made.1 =
          f ∙ d ∙ ap (store api sort same_properties true synced) at in
        let (t', (p, q)) =
          continue-ok (api.update_presto_table synced made.1)
            (λ x y. ignored (queue_dependents_of_presto_table api sort same_properties x y)) tt
            (sym (ap (λ r. r.0) g) ∙ h) in
        (
          valid,
          ran,
          (
            t',
            (
              p,
              ap (λ r. r.1) (g ∙ q)
                  ∙ ignored-world (
                      queue_dependents_of_presto_table api sort same_properties t'
                        (api.update_presto_table synced made.1).1),
            ),
          ),
        )
