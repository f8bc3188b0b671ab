-- ===== src/Storage/Databases.antt =====
-- The database that `handleStorageLocation` (pkg/operator/storagelocations.go) creates for a location that manages it.
use operator_metering.Prelude.{
  ◌≡◌, ◌≢◌, refl, sym, ap, ◌∙◌, Bool, true, false, ◌&&◌, not, Option, none, some, str_eq, eq_iff,
  arith, if◌then◌else◌,
}
use operator_metering.Kube.{
  ok, Act, continue, continue-ok, ◌>>=◌, return, reject-ok, called, called-ok, ignored-world,
  needs_finalizer,
}
use operator_metering.Storage.{
  HiveStorageSpec, StorageLocation, StorageApi, storage_location_finalizer,
}
use operator_metering.Storage.Handler.{
  Unicode, is_valid_sql_identifier, set_database, handle_storage_location, ensure_finalizer,
  by_storage, ensure_database, store_location, queue_dependents_of_storage_location, queue_all,
  add_storage_location_finalizer, unmanaged_differs,
}

not-false : (b : Bool) → not b ≡ false → b ≡ true
not-false true h = refl
not-false false h = cc

module _ {W : Type 0} (api : StorageApi W) (unicode : Unicode) (enable_finalizers : Bool)
    (l : StorageLocation) (h : HiveStorageSpec)
    (kept : enable_finalizers && needs_finalizer storage_location_finalizer l.meta ≡ false)
    (has_hive : l.hive ≡ some h) (managed : h.unmanaged_database ≡ false) where
  handled :
      (w : W)
      → handle_storage_location api unicode enable_finalizers l w
        ≡ continue (ensure_database api unicode l h w) (store_location api unicode)
  unfolding handle_storage_location ensure_finalizer
  handled w =
      ap
        (λ b.
          continue
            ((if◌then◌else◌ {A = Act W StorageLocation} b
                (add_storage_location_finalizer api unicode l) (return l))
              w)
            (λ l'. by_storage api unicode l' l'.hive >>= store_location api unicode))
        kept
      ∙ ap
          (λ (o : Option HiveStorageSpec).
            continue (by_storage api unicode l o w) (store_location api unicode))
          has_hive
      ∙ ap
          (λ b.
            continue
              ((if◌then◌else◌ {A = Act W (Bool × StorageLocation)} b
                  (return (unmanaged_differs api unicode l h, set_database l h))
                  (ensure_database api unicode l h))
                w)
              (store_location api unicode))
          managed

  module _ (fresh : l.database_name ≡ "") where
    -- If handling a location succeeds that manages its database, has none in its status and needs no finalizer, then its database has a
    -- name that is a valid identifier, the database was created, and then the location was stored with it in its
    -- status and its dependents were queued.
    pub handle_storage_location-creates :
        (w : W)
        → (handle_storage_location api unicode enable_finalizers l w).0 ≡ ok tt
        → let created = api.create_database h.database_name h.location w in
          let stored = api.update_storage_location (set_database l h) created.1 in
          (h.database_name ≢ "")
          × (is_valid_sql_identifier unicode h.database_name ≡ true)
          × (created.0 ≡ none)
          × ((l' : StorageLocation) × ((stored.0 ≡ ok l')
                × ((handle_storage_location api unicode enable_finalizers l w).1
                    ≡ (queue_dependents_of_storage_location api unicode l' stored.1).1)))
    unfolding ensure_database store_location
    handle_storage_location-creates w ran =
        let e = handled w in
        let (t, (a, b)) =
          continue-ok (ensure_database api unicode l h w) (store_location api unicode) tt
            (sym (ap (λ r. r.0) e) ∙ ran) in
        let (named, a₁) = reject-ok (str_eq h.database_name "") _ _ w t a in
        let (valid, a₂) =
          reject-ok (not (is_valid_sql_identifier unicode h.database_name)) _ _ w t a₁ in
        let empty : str_eq l.database_name "" ≡ true =
          ground (arith, eq_iff l.database_name "", fresh) in
        let created = api.create_database h.database_name h.location w in
        let made : Bool × StorageLocation → Act W (Bool × StorageLocation) = return in
        let f : ensure_database api unicode l h w
            ≡ continue (called "create database" created) (λ u. made (true, set_database l h)) =
          rw named (rw valid (rw empty refl)) in
        let (u, (c, d)) =
          continue-ok (called "create database" created) (λ u. made (true, set_database l h)) t
            (sym (ap (λ r. r.0) f) ∙ a) in
        let (ran', at) = called-ok "create database" created c in
        let g : handle_storage_location api unicode enable_finalizers l w
            ≡ store_location api unicode (true, set_database l h) created.1 =
          e
          ∙ ap (λ r. continue r (store_location api unicode))
              (f ∙ d ∙ ap (made (true, set_database l h)) at) in
        let (l', (p, q)) =
          continue-ok (api.update_storage_location (set_database l h) created.1)
            (queue_all api unicode) tt (sym (ap (λ r. r.0) g) ∙ ran) in
        (
          λ x. ground (arith, named, eq_iff h.database_name "", x),
          not-false (is_valid_sql_identifier unicode h.database_name) valid,
          ran',
          (
            l',
            (
              p,
              ap (λ r. r.1) (g ∙ q)
                  ∙ ignored-world (
                      queue_dependents_of_storage_location api unicode l'
                        (api.update_storage_location (set_database l h) created.1).1),
            ),
          ),
        )
