-- ===== src/Storage.antt =====
-- Storage locations: pkg/operator/storagelocations.go and pkg/operator/storage.go, with the resource of
-- pkg/apis/metering/v1/storage_location.go as far as it is about Hive. What the calls do is the record `StorageApi`.
pub mod Handler
pub mod Databases
use operator_metering.Prelude.{
  ℕ, String, ◌≡◌, refl, Bool, true, false, ◌&&◌, not, Option, none, some, List, [], ◌∷◌, str_eq,
  if◌then◌else◌,
}
use operator_metering.Kube.{Meta, Failure, invalid, Result, ok, err, Act, ◌>>=◌, return, fail}
use operator_metering.Report.{Report}

-- HiveStorage of the specification
pub record HiveStorageSpec : Type 0 where
  pub database_name : String
  pub location : String
  pub unmanaged_database : Bool

-- StorageLocation; `is_default` is whether its annotation says so.
pub record StorageLocation : Type 0 where
  pub meta : Meta
  pub is_default : Bool
  pub hive : Option HiveStorageSpec
  pub database_name : String
  pub location : String

-- A ReportDataSource, as far as it names its storage: its table and the storage of its importer, or AWS billing
-- data without a database.
pub data StorageUse : Type 0 where
  imports_to : Option String → StorageUse
  billing_without_database : StorageUse
  no_storage : StorageUse

pub record StoredDataSource : Type 0 where
  pub name : String
  pub table_ref : String
  pub storage : StorageUse

pub record StorageApi (W : Type 0) : Type 0 where
  pub create_database : String → String → W → Option String × W
  pub drop_database : String → Bool → Bool → W → Option String × W
  pub update_storage_location : StorageLocation → Act W StorageLocation
  pub get_storage_location : String → String → Act W StorageLocation
  pub list_storage_locations : String → Act W (List StorageLocation)
  pub list_reports : String → Act W (List Report)
  pub list_data_sources : String → Act W (List StoredDataSource)
  pub report_output : Report → Option String
  pub enqueue_report : Report → W → W
  pub enqueue_data_source : StoredDataSource → W → W

-- storageLocationFinalizer
abbrev pub storage_location_finalizer : String
storage_location_finalizer = "metering.openshift.io/storagelocation"

abbrev pub default_locations : List StorageLocation → List StorageLocation
default_locations [] = []
default_locations (l ∷ ls) = if l.is_default then l ∷ default_locations ls else default_locations ls

abbrev pub the_only : List StorageLocation → Result (Option StorageLocation)
the_only [] = ok none
the_only (l ∷ []) = ok (some l)
the_only (l ∷ k ∷ ls) = err (invalid "defaultStorageLocations were found")

module _ {W : Type 0} (api : StorageApi W) where
  -- getDefaultStorageLocation
  unfoldable pub get_default_storage_location : String → Act W (Option StorageLocation)
  get_default_storage_location namespace =
      api.list_storage_locations namespace >>= λ ls w. (the_only (default_locations ls), w)

  abbrev pub or_missing : Option StorageLocation → Act W StorageLocation
  or_missing none = fail (invalid "namespace has no default StorageLocation")
  or_missing (some l) = return l

  abbrev pub default_storage : String → Act W StorageLocation
  default_storage namespace = get_default_storage_location namespace >>= or_missing

  -- getStorage, by the name that a reference has
  unfoldable pub get_storage : Option String → String → Act W StorageLocation
  get_storage none namespace = default_storage namespace
  get_storage (some name) namespace =
      if str_eq name "" then default_storage namespace else api.get_storage_location namespace name

  abbrev pub with_hive : StorageLocation → Option HiveStorageSpec → Act W StorageLocation
  with_hive l none =
      fail (invalid "incorrect storage configuration, has no Hive storage configuration")
  with_hive l (some h) = return l

  -- getHiveStorage
  unfoldable pub get_hive_storage : Option String → String → Act W StorageLocation
  get_hive_storage name namespace = get_storage name namespace >>= λ l. with_hive l l.hive
