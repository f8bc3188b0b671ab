-- ===== src/Hive/Tables/Partitioned.antt =====
-- What `handleHiveTable` (pkg/operator/hivetables.go) does with the partitions of a created table: Hive has the
-- partitions of the specification afterwards, and the status says so.
use operator_metering.Prelude.{
  String, ◌≡◌, ◌≢◌, refl, sym, ap, ◌∙◌, Bool, true, false, ◌&&◌, Option, none, List, [], All,
  str_eq, eq_iff, arith,
}
use operator_metering.Kube.{
  ok, Act, continue, continue-ok, needs_finalizer, called, called-ok, last-world,
}
use operator_metering.Hive.Partitions.{
  Partition, set_id, member, get_partition_changes, apply_changes,
}
use operator_metering.Hive.Partitions.Manager.{IsManager}
use operator_metering.Hive.Partitions.Converge.{Agree, wanted, apply_changes-wanted}
use operator_metering.Hive.Tables.{HiveTable, HiveApi, hive_table_finalizer}
use operator_metering.Hive.Tables.Handler.{
  handle_hive_table, ensure_finalizer, ensure_created, manage_partitions, with_partitions,
}
use operator_metering.Hive.Tables.Created.{checked}

-- A world has stored tables and the locations of the partitions of a table by their clauses. An update that
-- succeeds stores the table that is sent, and no update touches Hive.
pub record IsStore {W : Type 0} (api : HiveApi W) (stored : W → HiveTable)
    (location : W → String → Option String) : Type 0 where
  pub update_stores :
      (t t' : HiveTable) (w : W)
      → (api.update_hive_table t w).0 ≡ ok t'
      → stored (api.update_hive_table t w).1 ≡ t
  pub update_keeps :
      (t : HiveTable) (w : W) (c : String) → location (api.update_hive_table t w).1 c ≡ location w c

-- The partition `p` lies in Hive where the status of the table has it.
abbrev pub IsSynced :
    (String → Option String) → (Partition → String) → Partition → HiveTable → Type 0
IsSynced location clause p t =
    location (clause p)
    ≡ wanted (set_id t.spec.table.partitioned_by) t.status.partitions
        (set_id t.spec.table.partitioned_by p)

module _ {W : Type 0} (api : HiveApi W) (order : List String → List String)
    (order-member : (k : String) (ks : List String) → member k (order ks) ≡ member k ks)
    (stored : W → HiveTable) (location : W → String → Option String)
    (is_store : IsStore api stored location) (clause : Partition → String) (p : Partition)
    (t : HiveTable)
    (lawful : IsManager
      (api.partition_manager t.status.table.name t.spec.table.partitioned_by)
      clause
      location)
    (agree : All (Agree (set_id t.spec.table.partitioned_by) clause p) t.status.partitions)
    (agree' : All (Agree (set_id t.spec.table.partitioned_by) clause p) t.spec.partitions) where
  abbrev next : Act W (Unit {0})
  next v = continue (api.update_hive_table (with_partitions t) v) (λ x v'. (ok tt, v'))

  abbrev applied : W → Option String × W
  applied w =
      apply_changes (api.partition_manager t.status.table.name t.spec.table.partitioned_by)
        (get_partition_changes order t.spec.table.partitioned_by t.status.partitions
          t.spec.partitions)
        w

  -- If the partitions are managed without an error, the changes were applied and then the table was stored.
  manage_partitions-ok :
      (w : W)
      → (manage_partitions api order t w).0 ≡ ok tt
      → ((applied w).0 ≡ none)
        × (stored (manage_partitions api order t w).1 ≡ with_partitions t)
        × ((c : String) → location (manage_partitions api order t w).1 c ≡ location (applied w).1 c)
  unfolding manage_partitions
  manage_partitions-ok w h =
      let r = called "change partitions" (applied w) in
      let (u, (a, b)) = continue-ok r (λ x. next) tt h in
      let (ran, d) = called-ok "change partitions" (applied w) a in
      let e : manage_partitions api order t w ≡ next (applied w).1 = b ∙ ap next d in
      let update = api.update_hive_table (with_partitions t) (applied w).1 in
      let (t', (f, g)) = continue-ok update (λ x v. (ok tt, v)) tt (sym (ap (λ x. x.0) e) ∙ h) in
      let at : (manage_partitions api order t w).1 ≡ update.1 =
        ap (λ x. x.1) e ∙ last-world update in
      (
        ran,
        ap stored at ∙ is_store.update_stores (with_partitions t) t' (applied w).1 f,
        λ c. ap (λ v. location v c) at ∙ is_store.update_keeps (with_partitions t) (applied w).1 c,
      )

  manage_partitions-IsSynced :
      (w : W)
      → IsSynced (location w) clause p t
      → (manage_partitions api order t w).0 ≡ ok tt
      → IsSynced
          (location (manage_partitions api order t w).1)
          clause
          p
          (stored (manage_partitions api order t w).1)
        × (stored (manage_partitions api order t w).1 ≡ with_partitions t)
  unfolding get_partition_changes
  manage_partitions-IsSynced w sync h =
      let (ran, st, loc) = manage_partitions-ok w h in
      let columns = t.spec.table.partitioned_by in
      (
        loc (clause p)
            ∙ apply_changes-wanted order order-member (set_id columns) clause t.status.partitions
                t.spec.partitions p agree agree' (api.partition_manager t.status.table.name columns)
                location lawful w sync ran
            ∙ sym (
                ap
                  (λ (x : HiveTable).
                    wanted (set_id x.spec.table.partitioned_by) x.status.partitions
                      (set_id x.spec.table.partitioned_by p))
                  st),
        st,
      )

  -- If a created table with a valid specification, whose partitions are managed and that needs no finalizer, is in sync with
  -- Hive at a partition `p`, and handling it succeeds, then the stored table is in sync at `p` again and its status has the
  -- specified partitions. The identifiers and the clauses of the partitions tell `p` from the same ones, the
  -- partition manager and the store do what they are documented to do.
  pub handle-IsSynced :
      (enable_finalizers : Bool)
      → enable_finalizers && needs_finalizer hive_table_finalizer t.meta ≡ false
      → t.spec.table.name ≢ ""
      → t.spec.table.columns ≢ []
      → t.status.table.name ≢ ""
      → t.spec.manage_partitions ≡ true
      → (w : W) → IsSynced (location w) clause p t
      → (handle_hive_table api order enable_finalizers t w).0 ≡ ok tt
      → let w' = (handle_hive_table api order enable_finalizers t w).1 in
        IsSynced (location w') clause p (stored w') × (stored w' ≡ with_partitions t)
  unfolding handle_hive_table ensure_finalizer ensure_created
  handle-IsSynced enable_finalizers f has_name has_columns named m w sync h =
      let created : str_eq t.status.table.name "" ≡ false =
        ground (arith, eq_iff t.status.table.name "") in
      let e : handle_hive_table api order enable_finalizers t w ≡ manage_partitions api order t w =
        rw f (
          rw (checked api order enable_finalizers t f has_name has_columns w)
            (rw created (rw m refl))) in
      let (a, b) = manage_partitions-IsSynced w sync (sym (ap (λ x. x.0) e) ∙ h) in (rw e a, rw e b)
