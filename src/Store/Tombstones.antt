-- ===== src/Store/Tombstones.antt =====
-- `purge_tombstones` of crates/g7mb-persistence-sqlite/src/lib.rs: the removal of old rows of
-- deleted uploads and of deleted orphans, with the cascades of migrations/.
use g7mediabooster.Base.{
  ℕ, ◌+◌, ◌-◌, Bool, true, false, ◌&&◌, ◌||◌, not, List, Option, none, some, Result, ok, reject_if,
  ◌>>◌, any, map, leb, ltb, ◌==◌, if◌then◌else◌, select_where, count_where,
}
use g7mediabooster.Domain.{UploadId, UploadState, eq_state}
use g7mediabooster.Ports.{OffsetDateTime, unix_timestamp}
use g7mediabooster.Inventory.{StorageNamespace, raw, derivative, eq_namespace}
use g7mediabooster.Store.{UploadRow, JobRow, DerivativeRow, PolicyRow, OrphanRow, Store}
use g7mediabooster.Store.Confirmations.{before_bytes}
use g7mediabooster.Store.Cleanup.{LifecycleRepositoryError, lifecycle_repository_error, pins}
use g7mediabooster.Store.Cleanup.Leases.{sort_by, take}
use g7mediabooster.Store.Inventory.{is_suspected, is_orphan}

-- `deleted_at IS NOT NULL AND deleted_at <= ?`.
abbrev pub is_old : ℕ → Option ℕ → Bool
is_old before none = false
is_old before (some t) = leb t before

-- The `WHERE` clause of the uploads.
abbrev pub is_purgeable : List PolicyRow → ℕ → UploadRow → Bool
is_purgeable policies before u =
    eq_state u.state UploadState.deleted
    && is_old before u.deleted_at
    && not (any (pins u.id) policies)

abbrev pub time_of : Option ℕ → ℕ
time_of none = 0
time_of (some t) = t

-- `ORDER BY deleted_at, id`.
abbrev pub purged_before : UploadRow → UploadRow → Bool
purged_before a b =
    ltb (time_of a.deleted_at) (time_of b.deleted_at)
    || (time_of a.deleted_at == time_of b.deleted_at && ltb a.id b.id)

-- The identifiers of the `SELECT`.
unfoldable pub purged_ids : Store → ℕ → ℕ → List UploadId
purged_ids s before limit =
    map (λ (u : UploadRow). u.id)
      (take limit (sort_by purged_before (select_where (is_purgeable s.policies before) s.uploads)))

abbrev pub is_one_of : List UploadId → UploadId → Bool
is_one_of ids id = any (λ i. i == id) ids

-- `DELETE FROM uploads WHERE id IN …`, with `ON DELETE CASCADE` of the jobs and derivatives.
unfoldable pub delete_uploads : List UploadId → Store → Store
delete_uploads ids s = record s {
  uploads = select_where (λ (u : UploadRow). not (is_one_of ids u.id)) s.uploads;
  jobs = select_where (λ (j : JobRow). not (is_one_of ids j.upload_id)) s.jobs;
  derivatives = select_where (λ (d : DerivativeRow). not (is_one_of ids d.upload_id)) s.derivatives;
}

-- `ORDER BY deleted_at, namespace, object_key`, where 'derivative' stands before 'raw'.
abbrev pub namespace_before : StorageNamespace → StorageNamespace → Bool
namespace_before derivative raw = true
namespace_before _ _ = false

abbrev pub orphan_before : OrphanRow → OrphanRow → Bool
orphan_before a b =
    ltb (time_of a.deleted_at) (time_of b.deleted_at)
    || (time_of a.deleted_at == time_of b.deleted_at
        && (namespace_before a.namespace b.namespace
            || (eq_namespace a.namespace b.namespace
                && before_bytes a.object_key.value b.object_key.value)))

abbrev pub is_old_orphan : ℕ → OrphanRow → Bool
is_old_orphan before o = not (is_suspected o.state) && is_old before o.deleted_at

unfoldable pub purged_orphans : ℕ → ℕ → List OrphanRow → List OrphanRow
purged_orphans before limit orphans =
    take limit (sort_by orphan_before (select_where (is_old_orphan before) orphans))

-- `(namespace, object_key) IN …`.
abbrev pub is_purged : List OrphanRow → OrphanRow → Bool
is_purged purged o = any (λ (p : OrphanRow). is_orphan p.namespace p.object_key o) purged

-- The second statement, if the limit leaves something, after so many uploads were removed.
unfoldable pub purge_orphans : ℕ → ℕ → ℕ → Store → ℕ × Store
unfolding purged_orphans
purge_orphans before limit uploads s =
    let purged : List OrphanRow = purged_orphans before (limit - uploads) s.orphans in
    if ltb 0 (limit - uploads)
    then (
      uploads + count_where (is_purged purged) s.orphans,
      record s { orphans = select_where (λ (o : OrphanRow). not (is_purged purged o)) s.orphans },
    )
    else (uploads, s)

unfoldable pub purge_tombstones :
    Store → OffsetDateTime → ℕ → Result LifecycleRepositoryError (ℕ × Store)
unfolding purged_ids delete_uploads purge_orphans
purge_tombstones s deleted_before limit =
    let before : ℕ = unix_timestamp deleted_before in
    let ids : List UploadId = purged_ids s before limit in
    (do
      reject_if (limit == 0 || ltb 1000 limit)
          (lifecycle_repository_error "tombstone purge limit is invalid")
      ok (
          purge_orphans before limit (count_where (λ (u : UploadRow). is_one_of ids u.id) s.uploads)
            (delete_uploads ids s)))
