-- ===== src/Examples/Tables.antt =====
-- Hive tables, their partitions and their columns, on concrete worlds (pkg/operator/hivetables.go, pkg/operator/reportingutil/util.go).
use operator_metering.Prelude.{
  String, ◌≡◌, ◌≢◌, refl, Bool, true, false, Option, none, some, List, [], ◌∷◌, arith, str_eq,
  eq_iff, if◌then◌else◌,
}
use operator_metering.Kube.{Meta, Failure, ok, err, call_failed, not_found}
use operator_metering.Prom.Chunks.{Time}
use operator_metering.Columns.{
  Column, converted, hive_columns_to_presto_columns, presto_columns_to_hive_columns, convert_map,
}
use operator_metering.Columns.Roundtrip.{then_convert, presto_columns-hive_columns}
use operator_metering.Hive.Partitions.{
  Partition, PartitionManager, set_id, member, apply_changes, get_partition_changes,
  partition_changes, fmt_partition_spec,
}
use operator_metering.Hive.Partitions.Manager.{IsManager, or_else}
use operator_metering.Hive.Partitions.Converge.{Agree, wanted, apply_changes-wanted}
use operator_metering.Hive.Tables.{
  HiveTable, TableParameters, HiveApi, hive_table_finalizer, made, not_made,
}
use operator_metering.Hive.Tables.Resource.{no_table_parameters}
use operator_metering.Hive.Tables.Handler.{
  handle_hive_table, sync_hive_table, remove_hive_table_finalizer, with_partitions,
  with_spec_status,
}
use operator_metering.Hive.Tables.Created.{presto_table-never_made}
use operator_metering.Hive.Tables.Partitioned.{IsStore, IsSynced, handle-IsSynced}
use operator_metering.Hive.Tables.Deleted.{sync_hive_table-dropped}

abbrev day_columns : List Column
day_columns = record { name = "day"; type = "STRING" } ∷ []

abbrev part : String → String → Partition
part day location = record { location = location; partition_spec = ("day", day) ∷ [] }

abbrev clause : Partition → String
clause p = fmt_partition_spec (λ s. "string") day_columns p.partition_spec

-- The stored table, and the partitions that Hive has.
abbrev World : Type 0
World = HiveTable × (String → Option String)

abbrev manager : PartitionManager World
manager = record {
  add_partition = λ p w.
      (none, (w.0, λ c. if str_eq (clause p) c then or_else (w.1 c) (some p.location) else w.1 c));
  drop_partition = λ p w. (none, (w.0, λ c. if str_eq (clause p) c then none else w.1 c));
}

manager-IsManager : IsManager manager clause (λ w. w.1)
manager-IsManager = record { dropped = λ p w c h. refl; added = λ p w c h. refl }

-- Hive drops tables only if it is well, and Presto tables cannot be made.
abbrev api : Bool → HiveApi World
api well = record {
  create_table = λ p b w. (none, w);
  drop_table = λ d n b w. (if well then none else some "unavailable", w);
  partition_manager = λ n cs. manager;
  update_hive_table = λ t w. (ok t, (t, w.1));
  create_presto_table = λ t w. (not_made "unavailable", w);
  get_hive_table = λ namespace name w. (ok w.0, w);
}

abbrev usage : TableParameters
usage = record no_table_parameters {
  database = "metering";
  name = "usage";
  columns = record { name = "amount"; type = "DOUBLE" } ∷ [];
  partitioned_by = day_columns;
}

abbrev table : Bool → Option Time → TableParameters → HiveTable
table managed deleted status = record {
  meta = record {
    namespace = "metering";
    name = "usage";
    finalizers = hive_table_finalizer ∷ [];
    deletion_timestamp = deleted;
  };
  spec = record {
    table = usage;
    manage_partitions = managed;
    partitions = part "1" "s3/b" ∷ part "2" "s3/c" ∷ [];
  };
  status = record { table = status; partitions = part "1" "s3/a" ∷ part "0" "s3/z" ∷ [] };
}

-- Hive has what the status of the table says.
abbrev before : World
before = (
  table true none usage,
  λ c.
      if str_eq (clause (part "1" "")) c
      then some "s3/a"
      else if str_eq (clause (part "0" "")) c
      then some "s3/z"
      else none,
)

presto_columns-hive_columns_example :
    then_convert
      (hive_columns_to_presto_columns (
        record { name = "labels"; type = "MAP<STRING,STRING>" }
        ∷ record { name = "amount"; type = "DOUBLE" }
        ∷ []))
      presto_columns_to_hive_columns
    ≡ converted (
        record { name = "labels"; type = "MAP<STRING,STRING>" }
        ∷ record { name = "amount"; type = "DOUBLE" }
        ∷ [])
presto_columns-hive_columns_example =
    presto_columns-hive_columns
      (record { name = "labels"; type = "MAP<STRING,STRING>" }
        ∷ record { name = "amount"; type = "DOUBLE" }
        ∷ [])
      (refl, (refl, tt))

same-Agree :
    (p q : Partition)
    → clause q ≡ clause p
    → set_id day_columns q ≡ set_id day_columns p
    → Agree (set_id day_columns) clause p q
same-Agree p q a b = (λ h. b, λ h. a)

ne-Agree :
    (p q : Partition)
    → clause q ≢ clause p
    → set_id day_columns q ≢ set_id day_columns p
    → Agree (set_id day_columns) clause p q
ne-Agree p q a b = (λ h. absurd (a h), λ h. absurd (b h))

ne : (s t : String) → str_eq s t ≡ false → s ≢ t
ne s t h x = ground (arith, eq_iff s t, h, x)

first : Agree (set_id day_columns) clause (part "1" "") (part "1" "s3/a")
unfolding fmt_partition_spec set_id
first = same-Agree (part "1" "") (part "1" "s3/a") refl refl

other : Agree (set_id day_columns) clause (part "1" "") (part "0" "s3/z")
unfolding fmt_partition_spec set_id
other = ne-Agree (part "1" "") (part "0" "s3/z") (ne _ _ refl) (ne _ _ refl)

second : Agree (set_id day_columns) clause (part "1" "") (part "2" "s3/c")
unfolding fmt_partition_spec set_id
second = ne-Agree (part "1" "") (part "2" "s3/c") (ne _ _ refl) (ne _ _ refl)

synced : IsSynced before.1 clause (part "1" "") (table true none usage)
unfolding wanted fmt_partition_spec set_id operator_metering.Hive.Partitions.find_last
synced = refl

apply_changes-wanted_example :
    (apply_changes manager
        (partition_changes
          (λ ks. ks)
          (set_id day_columns)
          (table true none usage).status.partitions
          (table true none usage).spec.partitions)
        before).1.1
      (clause (part "1" ""))
    ≡ wanted
        (set_id day_columns)
        (table true none usage).spec.partitions
        (set_id day_columns (part "1" ""))
unfolding apply_changes operator_metering.Hive.Partitions.for_each partition_changes
    operator_metering.Hive.Partitions.difference set_id
    operator_metering.Hive.Partitions.intersection
apply_changes-wanted_example =
    apply_changes-wanted (λ ks. ks) (λ k ks. refl) (set_id day_columns) clause
      (table true none usage).status.partitions (table true none usage).spec.partitions
      (part "1" "") (first, (other, tt)) (first, (second, tt)) manager (λ w. w.1) manager-IsManager
      before synced ran
  where
    ran :
        (apply_changes manager
          (partition_changes
            (λ ks. ks)
            (set_id day_columns)
            (table true none usage).status.partitions
            (table true none usage).spec.partitions)
          before).0
        ≡ none
    ran = refl

is_store : IsStore (api true) (λ w. w.0) (λ w. w.1)
is_store = record { update_stores = λ t t' w h. refl; update_keeps = λ t w c. refl }

handle-IsSynced_example :
    let w' = (handle_hive_table (api true) (λ ks. ks) true (table true none usage) before).1 in
    IsSynced w'.1 clause (part "1" "") w'.0 × (w'.0 ≡ with_partitions (table true none usage))
unfolding handle_hive_table operator_metering.Hive.Tables.Handler.ensure_finalizer
    operator_metering.Kube.needs_finalizer operator_metering.Slice.contains_string
    operator_metering.Hive.Tables.Handler.check_spec
    operator_metering.Hive.Tables.Handler.ensure_created
    operator_metering.Hive.Tables.Handler.manage_partitions apply_changes
    operator_metering.Hive.Partitions.for_each get_partition_changes partition_changes
    operator_metering.Hive.Partitions.difference set_id
    operator_metering.Hive.Partitions.intersection
handle-IsSynced_example =
    handle-IsSynced (api true) (λ ks. ks) (λ k ks. refl) (λ w. w.0) (λ w. w.1) is_store clause
      (part "1" "") (table true none usage) manager-IsManager (first, (other, tt))
      (first, (second, tt)) true refl (ne "usage" "" refl) (λ h. cc) (ne "usage" "" refl) refl
      before synced ran
  where
    ran : (handle_hive_table (api true) (λ ks. ks) true (table true none usage) before).0 ≡ ok tt
    ran = refl

presto_table-never_made_example :
    (handle_hive_table (api true) (λ ks. ks) true (table false none no_table_parameters) before ≡ (
      err (call_failed "create PrestoTable" "unavailable"),
      (with_spec_status (table false none no_table_parameters), before.1),
    ))
    × ((v : World)
        → handle_hive_table
            (api true)
            (λ ks. ks)
            true
            (with_spec_status (table false none no_table_parameters))
            v
          ≡ (ok tt, v))
unfolding operator_metering.Kube.needs_finalizer operator_metering.Slice.contains_string
    hive_columns_to_presto_columns operator_metering.Columns.hive_column_to_presto_column
    operator_metering.Columns.hive_type_to_presto
presto_table-never_made_example =
    presto_table-never_made (api true) (λ ks. ks) true (table false none no_table_parameters) refl
      (ne "usage" "" refl) (λ h. cc) before before
      (with_spec_status (table false none no_table_parameters), before.1)
      (with_spec_status (table false none no_table_parameters), before.1)
      (record { name = "amount"; type = "DOUBLE" } ∷ record { name = "day"; type = "VARCHAR" } ∷ [])
      "unavailable" refl refl refl refl refl refl

sync_hive_table-dropped_example :
    (((api true).drop_table "metering" "usage" true (table true (some 7) usage, before.1)).0 ≡ none)
    × ((sync_hive_table
          (api true)
          (λ ks. ks)
          true
          "metering"
          "usage"
          (table true (some 7) usage, before.1)).1
        ≡ (remove_hive_table_finalizer
            (api true)
            (λ ks. ks)
            (table true (some 7) usage)
            (table true (some 7) usage, before.1)).1)
unfolding sync_hive_table operator_metering.Hive.Tables.Handler.drop_hive_table
    remove_hive_table_finalizer operator_metering.Slice.contains_string
sync_hive_table-dropped_example =
    sync_hive_table-dropped (api true) (λ ks. ks) true "metering" "usage"
      (table true (some 7) usage) (table true (some 7) usage, before.1)
      (table true (some 7) usage, before.1) 7 refl refl (ne "usage" "" refl) ran
  where
    ran :
        (sync_hive_table
          (api true)
          (λ ks. ks)
          true
          "metering"
          "usage"
          (table true (some 7) usage, before.1)).0
        ≡ ok tt
    ran = refl
