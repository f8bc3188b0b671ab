-- ===== src/Queue/Events.antt =====
-- The handlers of watch events in pkg/operator/queues.go, which put keys into the work queues.
-- client-go's key functions are parameters; what the handlers do to a queue is the list of keys added.
use operator_metering.Prelude.{
  String, ◌≡◌, ◌≢◌, Bool, true, false, ◌&&◌, not, Option, none, some, List, [], ◌∷◌, arith, ◌⊎◌,
  str_eq, eq_iff, if◌then◌else◌, is_none,
}
use operator_metering.Prom.Chunks.{Time}

-- An object of a watch: the fields that the handlers read. `spec_id` and `import_status_id` stand for
-- the values that `reflect.DeepEqual` compares: equal numbers for deeply equal values.
pub record Resource : Type 0 where
  pub namespace : String
  pub name : String
  pub deletion_timestamp : Option Time
  pub resource_version : String
  pub spec_id : String
  pub is_prometheus : Bool
  pub import_status_id : String

-- What `deleteReport` and its like are given: the object, a tombstone that holds an object or
-- something else, or something that is neither.
pub data Event : Type 0 where
  object : Resource → Event
  tombstone : Resource → Event
  tombstone_of_other : Event
  other : Event

-- What a handler does, in order.
pub data Action : Type 0 where
  add_key : String → Action
  drop_table : Resource → Action
  remove_finalizer : Resource → Action

-- The actions of a handler that returns, or a nil dereference.
pub data Effect : Type 0 where
  acts : List Action → Effect
  panics : Effect

module _ (key_func : Resource → Option String) where
  abbrev pub key_actions : Resource → List Action
  key_actions r = elim (key_func r) [ none ↦ [] | some k ↦ add_key k ∷ [] ]

  -- enqueueReport, enqueueReportDataSource, enqueueReportQuery, enqueuePrestoTable, enqueueHiveTable,
  -- enqueueStorageLocation
  unfoldable pub enqueue : Resource → Effect
  enqueue r = acts (key_actions r)

  -- deleteReport, deleteReportDataSource. After a failed assertion the pointer is nil, and the log
  -- line reads its Name.
  unfoldable pub delete_report : Event → Effect
  unfolding enqueue
  delete_report (object r) = enqueue r
  delete_report (tombstone r) = enqueue r
  delete_report tombstone_of_other = panics
  delete_report other = panics

  -- addReport, addReportDataSource
  unfoldable pub add_report : Resource → Effect
  unfolding delete_report
  add_report r = if is_none r.deletion_timestamp then enqueue r else delete_report (object r)

  -- updateReport
  unfoldable pub update_report : Resource → Resource → Effect
  unfolding delete_report
  update_report prev cur =
      if not (is_none cur.deletion_timestamp)
      then delete_report (object cur)
      else if str_eq cur.resource_version prev.resource_version
      then acts []
      else if str_eq prev.spec_id cur.spec_id
      then acts []
      else enqueue cur

  -- updateReportQuery
  unfoldable pub update_report_query : Resource → Resource → Effect
  unfolding enqueue
  update_report_query prev cur =
      if str_eq cur.resource_version prev.resource_version
      then acts []
      else if str_eq prev.spec_id cur.spec_id
      then acts []
      else enqueue cur

  -- updateReportDataSource
  unfoldable pub update_report_data_source : Resource → Resource → Effect
  unfolding delete_report
  update_report_data_source prev cur =
      if not (is_none cur.deletion_timestamp)
      then delete_report (object cur)
      else if cur.is_prometheus
          && (str_eq cur.spec_id prev.spec_id
              && not (str_eq cur.import_status_id prev.import_status_id))
      then acts []
      else enqueue cur

  -- deletePrestoTable, deleteHiveTable, deleteStorageLocation: `drop` and `unfinalize` say whether
  -- dropping the table and removing its finalizer fail.
  module _ (enable_finalizers : Bool) (drop unfinalize : Resource → Option String) where
    unfoldable pub delete_resource : Resource → Effect
    delete_resource r =
        if enable_finalizers
        then acts (key_actions r)
        else if not (is_none (drop r))
        then acts (drop_table r ∷ [])
        else if not (is_none (unfinalize r))
        then acts (drop_table r ∷ remove_finalizer r ∷ [])
        else acts (drop_table r ∷ remove_finalizer r ∷ key_actions r)

    unfoldable pub delete_table : Event → Effect
    unfolding delete_resource
    delete_table (object r) = delete_resource r
    delete_table (tombstone r) = delete_resource r
    delete_table tombstone_of_other = panics
    delete_table other = panics

  -- An update of a Report that is being deleted enqueues it. Otherwise an update is skipped if the
  -- resource version or the spec is unchanged, and enqueues the current object if both changed.
  pub update_report_lem :
      (prev cur : Resource)
      → (cur.deletion_timestamp ≢ none) × (update_report prev cur ≡ enqueue cur)
        ⊎ ((cur.deletion_timestamp ≡ none)
              × ((cur.resource_version ≡ prev.resource_version) ⊎ (prev.spec_id ≡ cur.spec_id))
              × (update_report prev cur ≡ acts [])
            ⊎ (cur.deletion_timestamp ≡ none)
              × (cur.resource_version ≢ prev.resource_version)
              × (prev.spec_id ≢ cur.spec_id)
              × (update_report prev cur ≡ enqueue cur))
  unfolding update_report
  update_report_lem prev cur =
      ground
        (arith, eq_iff cur.resource_version prev.resource_version, eq_iff prev.spec_id cur.spec_id)

  -- An update of a ReportDataSource that is being deleted enqueues it. Otherwise an update is skipped
  -- if it is a Prometheus one whose spec is unchanged and whose import status has changed, and
  -- enqueues the current object if not.
  pub update_report_data_source_lem :
      (prev cur : Resource)
      → (cur.deletion_timestamp ≢ none) × (update_report_data_source prev cur ≡ enqueue cur)
        ⊎ ((cur.deletion_timestamp ≡ none)
              × (cur.is_prometheus ≡ true)
              × (cur.spec_id ≡ prev.spec_id)
              × (cur.import_status_id ≢ prev.import_status_id)
              × (update_report_data_source prev cur ≡ acts [])
            ⊎ (cur.deletion_timestamp ≡ none)
              × ((cur.is_prometheus ≡ false)
                  ⊎ ((cur.spec_id ≢ prev.spec_id) ⊎ (cur.import_status_id ≡ prev.import_status_id)))
              × (update_report_data_source prev cur ≡ enqueue cur))
  unfolding update_report_data_source
  update_report_data_source_lem prev cur =
      ground
        (arith, eq_iff cur.spec_id prev.spec_id, eq_iff cur.import_status_id prev.import_status_id)
