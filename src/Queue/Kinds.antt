-- ===== src/Queue/Kinds.antt =====
-- The handlers of pkg/operator/queues.go for each kind of resource, and the wrapper that filters
-- them by namespace, `inTargetNamespaceResourceEventHandler`.
use operator_metering.Prelude.{
  String, ◌≡◌, refl, Bool, false, ◌&&◌, Option, List, [], ◌∷◌, if◌then◌else◌, is_empty, is_none,
}
use operator_metering.Queue.{in_target_namespace}
use operator_metering.Queue.Events.{
  Resource, Event, object, tombstone, tombstone_of_other, other, Effect, acts, panics, enqueue,
  delete_report, delete_table,
}

-- cache.ResourceEventHandler
pub record EventHandler : Type 0 where
  pub on_add : Resource → Effect
  pub on_update : Resource → Resource → Effect
  pub on_delete : Event → Effect

module _ (key_func : Resource → Option String) where
  -- addReportDataSource
  unfoldable pub add_report_data_source : Resource → Effect
  add_report_data_source ds =
      if is_none ds.deletion_timestamp
      then enqueue key_func ds
      else delete_report key_func (object ds)

  -- deleteReportDataSource
  unfoldable pub delete_report_data_source : Event → Effect
  delete_report_data_source (object ds) = enqueue key_func ds
  delete_report_data_source (tombstone ds) = enqueue key_func ds
  delete_report_data_source tombstone_of_other = panics
  delete_report_data_source other = panics

  -- addReportQuery
  unfoldable pub add_report_query : Resource → Effect
  add_report_query query = enqueue key_func query

  module _ (enable_finalizers : Bool) (drop unfinalize : Resource → Option String) where
    -- deletePrestoTable
    unfoldable pub delete_presto_table : Event → Effect
    delete_presto_table e = delete_table key_func enable_finalizers drop unfinalize e

    -- addPrestoTable
    unfoldable pub add_presto_table : Resource → Effect
    add_presto_table table =
        if is_none table.deletion_timestamp
        then enqueue key_func table
        else delete_presto_table (object table)

    -- updatePrestoTable
    unfoldable pub update_presto_table : Resource → Resource → Effect
    update_presto_table prev cur =
        if is_none cur.deletion_timestamp
        then enqueue key_func cur
        else delete_presto_table (object cur)

    -- addHiveTable
    unfoldable pub add_hive_table : Resource → Effect
    add_hive_table table =
        if is_none table.deletion_timestamp
        then enqueue key_func table
        else delete_table key_func enable_finalizers drop unfinalize (object table)

    -- updateHiveTable
    unfoldable pub update_hive_table : Resource → Resource → Effect
    update_hive_table prev cur =
        if is_none cur.deletion_timestamp
        then enqueue key_func cur
        else delete_table key_func enable_finalizers drop unfinalize (object cur)

    -- deleteStorageLocation; `drop` is deleteStorage
    unfoldable pub delete_storage_location : Event → Effect
    delete_storage_location e = delete_table key_func enable_finalizers drop unfinalize e

    -- addStorageLocation
    unfoldable pub add_storage_location : Resource → Effect
    add_storage_location location =
        if is_none location.deletion_timestamp
        then enqueue key_func location
        else delete_storage_location (object location)

    -- updateStorageLocation
    unfoldable pub update_storage_location : Resource → Resource → Effect
    update_storage_location prev cur =
        if is_none cur.deletion_timestamp
        then enqueue key_func cur
        else delete_storage_location (object cur)

    -- The handlers of PrestoTables, as the informer calls them.
    abbrev pub presto_table_handler : EventHandler
    presto_table_handler = record {
      on_add = add_presto_table;
      on_update = update_presto_table;
      on_delete = delete_presto_table;
    }

-- inTargetNamespace: only an object has a namespace that can be read.
abbrev pub event_in_target_namespace : List String → Event → Bool
event_in_target_namespace targets (object r) = in_target_namespace targets r.namespace
event_in_target_namespace targets (tombstone r) = false
event_in_target_namespace targets tombstone_of_other = false
event_in_target_namespace targets other = false

-- inTargetNamespaceResourceEventHandler with its OnAdd, OnUpdate and OnDelete
unfoldable pub in_target_namespace_handler : List String → EventHandler → EventHandler
in_target_namespace_handler targets h = record {
  on_add = λ r. if in_target_namespace targets r.namespace then h.on_add r else acts [];
  on_update = λ prev cur.
      if in_target_namespace targets prev.namespace && in_target_namespace targets cur.namespace
      then h.on_update prev cur
      else acts [];
  on_delete = λ e. if event_in_target_namespace targets e then h.on_delete e else acts [];
}

-- newInTargetNamespaceEventHandler
unfoldable pub new_in_target_namespace_event_handler : EventHandler → List String → EventHandler
new_in_target_namespace_event_handler h targets =
    if is_empty targets then h else in_target_namespace_handler targets h

-- With target namespaces, the delete events that come as tombstones are dropped, whatever the
-- namespace of the deleted object; with none, they reach the handler.
pub on_delete-tombstone :
    (h : EventHandler) (t : String) (ts : List String) (r : Resource)
    → ((new_in_target_namespace_event_handler h (t ∷ ts)).on_delete (tombstone r) ≡ acts [])
      × ((new_in_target_namespace_event_handler h []).on_delete (tombstone r)
          ≡ h.on_delete (tombstone r))
unfolding new_in_target_namespace_event_handler in_target_namespace_handler
on_delete-tombstone h t ts r = (refl, refl)
