-- ===== src/Hive/Partitions.antt =====
-- `getPartitionChanges` of pkg/operator/hivetables.go, the loops of `handleHiveTable` that apply the changes,
-- and `FmtPartitionSpec` of pkg/operator/reporting/db.go. A Go map is an association list; a set of
-- strings is a list without repetition, and the order of `UnsortedList` is the parameter `order`.
pub mod Manager
pub mod Sets
pub mod Converge
use operator_metering.Prelude.{
  ℕ, String, ◌<>◌, Bool, true, false, ◌&&◌, not, Option, none, some, List, [], ◌∷◌, ◌++◌, map,
  str_eq, if◌then◌else◌, join,
}
use operator_metering.Columns.{Column}

-- metering.HiveTablePartition, hive.TablePartition
pub record Partition : Type 0 where
  pub location : String
  pub partition_spec : List (String × String)

abbrev pub no_partition : Partition
no_partition = record { location = ""; partition_spec = [] }

-- `m[k]` on a map of strings: "" for a missing key
abbrev pub value_of : List (String × String) → String → String
value_of [] k = ""
value_of ((k', v) ∷ m) k = if str_eq k' k then v else value_of m k

-- The values of the partition columns, joined by "-".
unfoldable pub set_id : List Column → Partition → String
set_id columns p = join "-" (map (λ (c : Column). value_of p.partition_spec c.name) columns)

-- The clause that names a partition in a statement; `to_lower` is strings.ToLower.
unfoldable pub fmt_column : (String → String) → List (String × String) → Column → String
fmt_column to_lower spec c =
    let val = value_of spec c.name in
    ("`" <> (c.name <> "`="))
    <> (if str_eq (to_lower c.type) "string" then "`" <> (val <> "`") else val)

unfoldable pub fmt_partition_spec :
    (String → String) → List Column → List (String × String) → String
unfolding fmt_column
fmt_partition_spec to_lower columns spec = join ", " (map (fmt_column to_lower spec) columns)

abbrev pub member : String → List String → Bool
member k [] = false
member k (x ∷ xs) = if str_eq x k then true else member k xs

-- `Insert` on a set
abbrev pub insert : String → List String → List String
insert k s = if member k s then s else s ++ k ∷ []

abbrev pub filter : (String → Bool) → List String → List String
filter f [] = []
filter f (x ∷ xs) = if f x then x ∷ filter f xs else filter f xs

unfoldable pub difference : List String → List String → List String
difference s t = filter (λ k. not (member k t)) s

unfoldable pub intersection : List String → List String → List String
intersection s t = filter (λ k. member k t) s

module _ (id : Partition → String) where
  -- the set that the loop over the partitions fills
  unfoldable pub ids_from : List String → List Partition → List String
  ids_from s [] = s
  ids_from s (p ∷ ps) = ids_from (insert (id p) s) ps

  -- what the map `lookup` has for a key after the loop: the last partition with it
  unfoldable pub find_last : Option Partition → String → List Partition → Option Partition
  find_last o k [] = o
  find_last o k (p ∷ ps) = find_last (if str_eq (id p) k then some p else o) k ps

-- partitionChanges
pub record PartitionChanges : Type 0 where
  pub to_remove : List Partition
  pub to_add : List Partition
  pub to_update : List Partition

abbrev pub or_none : Option Partition → Partition
or_none none = no_partition
or_none (some p) = p

module _ (order : List String → List String) (id : Partition → String)
    (current desired : List Partition) where
  -- `lookup[k]`
  unfoldable pub lookup : String → Partition
  lookup k = or_none (find_last id (find_last id none k current) k desired)

  unfoldable pub partition_changes : PartitionChanges
  unfolding ids_from
  partition_changes =
      let curr_set = ids_from id [] current in
      let desired_set = ids_from id [] desired in
      record {
        to_remove = map lookup (order (difference curr_set desired_set));
        to_add = map lookup (order (difference desired_set curr_set));
        to_update = map lookup (order (intersection curr_set desired_set));
      }

-- getPartitionChanges
unfoldable pub get_partition_changes :
    (List String → List String) → List Column → List Partition → List Partition → PartitionChanges
get_partition_changes order columns current desired =
    partition_changes order (set_id columns) current desired

-- HivePartitionManager, for one table: each call gives its error, if any, and the next world.
pub record PartitionManager (W : Type 0) : Type 0 where
  pub add_partition : Partition → W → Option String × W
  pub drop_partition : Partition → W → Option String × W

abbrev pub Run : Type 0 → Type 0
Run W = Option String × W

module _ {W : Type 0} where
  abbrev pub and_then : Run W → (W → Run W) → Run W
  and_then (none, w) next = next w
  and_then (some e, w) next = (some e, w)

  -- a loop that calls for each partition and returns at the first error
  unfoldable pub for_each : (Partition → W → Run W) → List Partition → W → Run W
  for_each call [] w = (none, w)
  for_each call (p ∷ ps) w = and_then (call p w) (for_each call ps)

  -- the two loops of `handleHiveTable`: an update is a removal and an addition
  unfoldable pub apply_changes : PartitionManager W → PartitionChanges → W → Run W
  apply_changes m changes w =
      and_then (for_each m.drop_partition (changes.to_remove ++ changes.to_update) w)
        (for_each m.add_partition (changes.to_add ++ changes.to_update))
