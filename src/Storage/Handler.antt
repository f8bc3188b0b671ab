-- ===== src/Storage/Handler.antt =====
-- `syncStorageLocation`, `handleStorageLocation` and the functions it calls (pkg/operator/storagelocations.go), and
-- `IsValidSQLIdentifier` of pkg/operator/reportingutil/util.go, whose classes of characters are parameters.
use operator_metering.Prelude.{
  ℕ, String, Bool, true, false, ◌&&◌, ◌||◌, not, Option, none, some, List, [], ◌∷◌, ◌==◌, str_eq,
  if◌then◌else◌,
}
use operator_metering.Slice.{contains_string}
use operator_metering.MetricStore.{Bytes, bytes}
use operator_metering.Kube.{
  invalid, call_failed, not_found, panicked, Result, ok, err, Act, ◌>>=◌, ◌>>◌, return, fail, when,
  reject, called, ignored, needs_finalizer, with_finalizer, without_finalizer,
}
use operator_metering.Report.{Report}
use operator_metering.Storage.{
  HiveStorageSpec, StorageLocation, StorageUse, imports_to, billing_without_database, no_storage,
  StoredDataSource, StorageApi, storage_location_finalizer, get_storage,
}

-- unicode.IsLetter, unicode.IsDigit and the runes of a string of bytes
pub record Unicode : Type 0 where
  pub is_letter : ℕ → Bool
  pub is_digit : ℕ → Bool
  pub runes : Bytes → List ℕ

module _ (unicode : Unicode) where
  abbrev pub all_word : List ℕ → Bool
  all_word [] = true
  all_word (r ∷ rs) = (unicode.is_letter r || (unicode.is_digit r || r == 95)) && all_word rs

  abbrev pub is_valid_bytes : Bytes → Bool
  is_valid_bytes [] = false
  is_valid_bytes (b ∷ bs) = (unicode.is_letter b || b == 95) && all_word (unicode.runes bs)

  -- IsValidSQLIdentifier
  unfoldable pub is_valid_sql_identifier : String → Bool
  is_valid_sql_identifier id = is_valid_bytes (bytes id)

-- The database of the specification in the status.
abbrev pub set_database : StorageLocation → HiveStorageSpec → StorageLocation
set_database l h = record l { database_name = h.database_name; location = h.location }

module _ {W : Type 0} (api : StorageApi W) (unicode : Unicode) where
  -- addStorageLocationFinalizer
  unfoldable pub add_storage_location_finalizer : StorageLocation → Act W StorageLocation
  add_storage_location_finalizer l =
      api.update_storage_location
        (record l { meta = with_finalizer storage_location_finalizer l.meta })

  -- removeStorageLocationFinalizer
  unfoldable pub remove_storage_location_finalizer : StorageLocation → Act W StorageLocation
  remove_storage_location_finalizer l =
      if contains_string l.meta.finalizers storage_location_finalizer none
      then api.update_storage_location
          (record l { meta = without_finalizer storage_location_finalizer l.meta })
      else return l

  abbrev pub drop_for : StorageLocation → Option HiveStorageSpec → Act W (Unit {0})
  drop_for l none = return tt
  drop_for l (some h) =
      when (not h.unmanaged_database && not (str_eq l.database_name ""))
        (λ w. called "drop database" (api.drop_database l.database_name true false w))

  -- deleteStorage
  unfoldable pub delete_storage : StorageLocation → Act W (Unit {0})
  delete_storage l = drop_for l l.hive

  -- Whether a resource's storage is the location; an error counts as one more error.
  abbrev pub matching : String → (W → W) → Result StorageLocation × W → ℕ → ℕ × W
  matching name enqueue (err e, w) errs = (ℕ.suc errs, w)
  matching name enqueue (ok l, w) errs = (errs, if str_eq l.meta.name name then enqueue w else w)

  abbrev pub source_storage : String → String → StoredDataSource → StorageUse → ℕ → W → ℕ × W
  source_storage name namespace d (imports_to s) errs w =
      matching name (api.enqueue_data_source d) (get_storage api s namespace w) errs
  source_storage name namespace d billing_without_database errs w =
      matching name (api.enqueue_data_source d) (get_storage api none namespace w) errs
  source_storage name namespace d no_storage errs w = (errs, w)

  -- the loops of `queueDependentsOfStorageLocation`, over resources without a table, with the number of errors
  unfoldable pub queue_sources : String → String → List StoredDataSource → ℕ → W → ℕ × W
  queue_sources name namespace [] errs w = (errs, w)
  queue_sources name namespace (d ∷ ds) errs w =
      let (errs', w') =
        (if str_eq d.table_ref ""
          then source_storage name namespace d d.storage errs w
          else (errs, w)) in
      queue_sources name namespace ds errs' w'

  unfoldable pub queue_reports : String → String → List Report → ℕ → W → ℕ × W
  queue_reports name namespace [] errs w = (errs, w)
  queue_reports name namespace (r ∷ rs) errs w =
      let (errs', w') =
        (if str_eq r.status.table_ref ""
          then matching name (api.enqueue_report r)
              (get_storage api (api.report_output r) namespace w) errs
          else (errs, w)) in
      queue_reports name namespace rs errs' w'

  abbrev pub with_errors : ℕ × W → Result (Unit {0}) × W
  with_errors (errs, w) =
      (if errs == 0 then ok tt else err (invalid "got errors queuing dependents"), w)

  -- queueDependentsOfStorageLocation
  unfoldable pub queue_dependents_of_storage_location : StorageLocation → Act W (Unit {0})
  queue_dependents_of_storage_location l = api.list_reports l.meta.namespace >>= λ reports.
      api.list_data_sources l.meta.namespace >>= λ sources w.
      let (errs, w') = queue_sources l.meta.name l.meta.namespace sources 0 w in
      with_errors (queue_reports l.meta.name l.meta.namespace reports errs w')

  abbrev pub unmanaged_differs : StorageLocation → HiveStorageSpec → Bool
  unmanaged_differs l h =
      not (str_eq l.database_name h.database_name) || not (str_eq l.location h.location)

  -- the database of a location that manages it
  unfoldable pub ensure_database :
      StorageLocation → HiveStorageSpec → Act W (Bool × StorageLocation)
  ensure_database l h =
      reject (str_eq h.database_name "")
        (invalid "spec.hive.databaseName is required if spec.hive is set")
      >> (reject (not (is_valid_sql_identifier unicode h.database_name))
            (invalid "spec.hive.databaseName is invalid")
          >> (if str_eq l.database_name ""
              then ((λ w.
                    called "create database" (api.create_database h.database_name h.location w))
                  >> return (true, set_database l h))
              else return (false, l)))

  abbrev pub by_storage : StorageLocation → Option HiveStorageSpec → Act W (Bool × StorageLocation)
  by_storage l none = fail (invalid "only Hive storage is supported currently")
  by_storage l (some h) =
      if h.unmanaged_database
      then return (unmanaged_differs l h, set_database l h)
      else ensure_database l h

  abbrev pub queue_all : StorageLocation → Act W (Unit {0})
  queue_all l w = ignored (queue_dependents_of_storage_location l w)

  unfoldable pub store_location : Bool × StorageLocation → Act W (Unit {0})
  store_location (needs_update, l) = when needs_update (api.update_storage_location l >>= queue_all)

  unfoldable pub ensure_finalizer : Bool → StorageLocation → Act W StorageLocation
  ensure_finalizer enable_finalizers l =
      if enable_finalizers && needs_finalizer storage_location_finalizer l.meta
      then add_storage_location_finalizer l
      else return l

  -- handleStorageLocation
  unfoldable pub handle_storage_location : Bool → StorageLocation → Act W (Unit {0})
  handle_storage_location enable_finalizers l =
      ensure_finalizer enable_finalizers l >>= λ l'. by_storage l' l'.hive >>= store_location

  abbrev pub cleanup : StorageLocation → Act W (Unit {0})
  cleanup l = delete_storage l >> (remove_storage_location_finalizer l >>= λ l'. return tt)

  abbrev pub sync_found : Bool → Option ℕ → StorageLocation → Act W (Unit {0})
  sync_found enable_finalizers none l = handle_storage_location enable_finalizers l
  sync_found enable_finalizers (some at) l = cleanup l

  abbrev pub sync_got : Bool → Result StorageLocation × W → Result (Unit {0}) × W
  sync_got enable_finalizers (ok l, w) = sync_found enable_finalizers l.meta.deletion_timestamp l w
  sync_got enable_finalizers (err (not_found what), w) = (ok tt, w)
  sync_got enable_finalizers (err (invalid what), w) = (err (invalid what), w)
  sync_got enable_finalizers (err (call_failed what e), w) = (err (call_failed what e), w)
  sync_got enable_finalizers (err (panicked what), w) = (err (panicked what), w)

  -- syncStorageLocation, on a key that splits
  unfoldable pub sync_storage_location : Bool → String → String → Act W (Unit {0})
  sync_storage_location enable_finalizers namespace name =
      λ w. sync_got enable_finalizers (api.get_storage_location namespace name w)
