-- ===== src/Store/Inventory.antt =====
-- `impl InventoryRepository for SqliteStore` of crates/g7mb-persistence-sqlite/src/lib.rs.
pub mod Suspicions
pub mod Grace
use Prim.Native.String.{String}
use g7mediabooster.Base.{
  ℕ, ◌+◌, Bool, true, false, ◌&&◌, ◌||◌, not, List, [], ◌∷◌, ◌++◌, Option, none, some, Result, ok,
  err, reject_if, ok_or, ◌>>=◌, ◌>>◌, Bytes, any, length, is_empty, leb, ltb, ◌==◌, eq_bytes,
  if◌then◌else◌, try_i64, find_where, select_where, update_where, count_where, is_some,
}
use g7mediabooster.Domain.{UploadState, eq_state}
use g7mediabooster.Domain.Keys.{ObjectKey}
use g7mediabooster.Ports.{OffsetDateTime, unix_timestamp}
use g7mediabooster.Inventory.{
  StorageNamespace, raw, derivative, eq_namespace, InventoryObject, OrphanCandidate,
  InventoryReconcileResult, InventoryRepositoryError, inventory_repository_error, is_bad_cursor,
  prefix, starts_with,
}
use g7mediabooster.Store.{UploadRow, DerivativeRow, OrphanState, OrphanRow, CursorRow, Store}

abbrev pub is_suspected : OrphanState → Bool
is_suspected OrphanState.suspected = true
is_suspected OrphanState.deleted = false

-- `WHERE namespace = ? AND object_key = ?`.
abbrev pub is_orphan : StorageNamespace → ObjectKey → OrphanRow → Bool
is_orphan namespace key o =
    eq_namespace o.namespace namespace && eq_bytes o.object_key.value key.value

-- `WHERE object_key = ? AND state <> 'deleted'`.
abbrev pub is_live_source : ObjectKey → UploadRow → Bool
is_live_source key u =
    eq_bytes u.object_key.value key.value && not (eq_state u.state UploadState.deleted)

-- `JOIN uploads u ON u.id = d.upload_id WHERE d.object_key = ? AND u.state <> 'deleted'`.
abbrev pub is_live_derivative : List UploadRow → ObjectKey → DerivativeRow → Bool
is_live_derivative uploads key d =
    eq_bytes d.object_key.value key.value
    && any (λ (u : UploadRow). u.id == d.upload_id && not (eq_state u.state UploadState.deleted))
        uploads

-- `is_inventory_key_known`.
unfoldable pub is_inventory_key_known : Store → StorageNamespace → ObjectKey → Bool
is_inventory_key_known s raw key = any (is_live_source key) s.uploads
is_inventory_key_known s derivative key = any (is_live_derivative s.uploads key) s.derivatives

-- `inventory_cursor`.
abbrev pub start_of : Option CursorRow → Option Bytes
start_of none = none
start_of (some c) = c.start_after

unfoldable pub inventory_cursor : Store → StorageNamespace → Option Bytes
inventory_cursor s namespace =
    start_of (find_where (λ (c : CursorRow). eq_namespace c.namespace namespace) s.cursors)

-- `forget_orphan`, `DELETE FROM orphan_objects WHERE namespace = ? AND object_key = ?`.
unfoldable pub forget_orphan : Store → StorageNamespace → ObjectKey → Store
forget_orphan s namespace key = record s {
  orphans = select_where (λ (o : OrphanRow). not (is_orphan namespace key o)) s.orphans;
}

abbrev pub new_orphan : StorageNamespace → InventoryObject → ℕ → OrphanRow
new_orphan namespace object observed_at = record {
  namespace = namespace;
  object_key = object.key;
  content_length = object.content_length;
  first_seen_at = observed_at;
  last_seen_at = observed_at;
  state = OrphanState.suspected;
  delete_attempts = 0;
  last_error_code = none;
  deleted_at = none;
}

-- `ON CONFLICT(namespace, object_key) DO UPDATE`.
abbrev pub seen_again : InventoryObject → ℕ → OrphanRow → OrphanRow
seen_again object observed_at o = record o {
  content_length = object.content_length;
  first_seen_at = if is_suspected o.state then o.first_seen_at else observed_at;
  last_seen_at = observed_at;
  state = OrphanState.suspected;
  delete_attempts = if is_suspected o.state then o.delete_attempts else 0;
  last_error_code = none;
  deleted_at = none;
}

unfoldable pub upsert_orphan :
    StorageNamespace → InventoryObject → ℕ → List OrphanRow → List OrphanRow
upsert_orphan namespace object observed_at orphans =
    if is_some (find_where (is_orphan namespace object.key) orphans)
    then update_where (is_orphan namespace object.key) (seen_again object observed_at) orphans
    else orphans ++ new_orphan namespace object observed_at ∷ []

-- `CHECK (last_seen_at >= first_seen_at)` of a row that is seen again.
abbrev pub is_in_time : ℕ → Option OrphanRow → Bool
is_in_time observed_at none = true
is_in_time observed_at (some o) = not (is_suspected o.state) || leb o.first_seen_at observed_at

-- `SELECT first_seen_at … AND state = 'suspected'`.
abbrev pub first_seen : Option OrphanRow → ℕ → ℕ
first_seen none observed_at = observed_at
first_seen (some o) observed_at = if is_suspected o.state then o.first_seen_at else observed_at

abbrev pub counted_known : InventoryReconcileResult → InventoryReconcileResult
counted_known r = record r { known = r.known + 1 }

abbrev pub classified : InventoryObject → Bool → InventoryReconcileResult → InventoryReconcileResult
classified object is_eligible r =
    if is_eligible
    then record r {
      eligible =
          r.eligible ++ record { key = object.key; content_length = object.content_length } ∷ [];
    }
    else record r { suspected = r.suspected + 1 }

-- The suspicion of one object that no row owns.
unfoldable pub suspect :
    StorageNamespace
    → InventoryObject
    → ℕ
    → ℕ
    → InventoryReconcileResult
    → Store
    → Result InventoryRepositoryError (InventoryReconcileResult × Store)
unfolding upsert_orphan
suspect namespace object observed_at eligible_before r s =
    let old : Option OrphanRow = find_where (is_orphan namespace object.key) s.orphans in
    (do
      content_length ←
          ok_or (try_i64 object.content_length)
            (inventory_repository_error "inventory object length exceeds SQLite range")
      reject_if
          (not (starts_with (prefix namespace) object.key.value)
            || not (is_in_time observed_at old))
          (inventory_repository_error "constraint failed")
      ok (
        classified object (leb (first_seen old observed_at) eligible_before) r,
        record s { orphans = upsert_orphan namespace object observed_at s.orphans },
      ))

-- One turn of the loop of `reconcile_inventory_page`.
unfoldable pub reconcile_one :
    StorageNamespace
    → InventoryObject
    → ℕ
    → ℕ
    → InventoryReconcileResult
    → Store
    → Result InventoryRepositoryError (InventoryReconcileResult × Store)
unfolding is_inventory_key_known forget_orphan suspect
reconcile_one namespace object observed_at eligible_before r s =
    if is_inventory_key_known s namespace object.key
    then ok (counted_known r, forget_orphan s namespace object.key)
    else suspect namespace object observed_at eligible_before r s

unfoldable pub reconcile_all :
    StorageNamespace
    → List InventoryObject
    → ℕ
    → ℕ
    → InventoryReconcileResult
    → Store
    → Result InventoryRepositoryError (InventoryReconcileResult × Store)
unfolding reconcile_one
reconcile_all namespace [] observed_at eligible_before r s = ok (r, s)
reconcile_all namespace (object ∷ objects) observed_at eligible_before r s = do
  (r1, s1) ← reconcile_one namespace object observed_at eligible_before r s
  reconcile_all namespace objects observed_at eligible_before r1 s1

-- `reconcile_inventory_page`: an error rolls the transaction back.
unfoldable pub reconcile_inventory_page :
    Store
    → StorageNamespace
    → List InventoryObject
    → OffsetDateTime
    → OffsetDateTime
    → Result InventoryRepositoryError (InventoryReconcileResult × Store)
unfolding reconcile_all
reconcile_inventory_page s namespace objects observed_at eligible_before = do
  reject_if (ltb 1000 (length objects))
      (inventory_repository_error "inventory page exceeds the repository bound")
  reconcile_all namespace objects (unix_timestamp observed_at) (unix_timestamp eligible_before)
      (record { known = 0; suspected = 0; eligible = [] }) s

-- `complete_orphan_deletion`.
abbrev pub orphan_deleted : ℕ → OrphanRow → OrphanRow
orphan_deleted now o = record o {
  state = OrphanState.deleted;
  deleted_at = some now;
  last_error_code = none;
}

unfoldable pub complete_orphan_deletion :
    Store → StorageNamespace → ObjectKey → OffsetDateTime → Result InventoryRepositoryError Store
complete_orphan_deletion s namespace key deleted_at = do
  reject_if (not (count_where (is_orphan namespace key) s.orphans == 1))
      (inventory_repository_error "orphan deletion has no durable observation")
  ok (record s {
    orphans =
        update_where (is_orphan namespace key) (orphan_deleted (unix_timestamp deleted_at))
          s.orphans;
  })

abbrev pub is_active_orphan : StorageNamespace → ObjectKey → OrphanRow → Bool
is_active_orphan namespace key o = is_orphan namespace key o && is_suspected o.state

abbrev pub deletion_failed : Bytes → ℕ → OrphanRow → OrphanRow
deletion_failed error_code now o = record o {
  delete_attempts = o.delete_attempts + 1;
  last_error_code = some error_code;
  last_seen_at = now;
}

-- `CHECK (last_seen_at >= first_seen_at)` on the rows that the statement writes.
abbrev pub seen_before : ℕ → OrphanRow → Bool
seen_before now o = leb o.first_seen_at now

-- `fail_orphan_deletion`.
unfoldable pub fail_orphan_deletion :
    Store
    → StorageNamespace
    → ObjectKey
    → Bytes
    → OffsetDateTime
    → Result InventoryRepositoryError Store
fail_orphan_deletion s namespace key error_code failed_at = do
  reject_if (is_empty error_code || ltb 64 (length error_code))
      (inventory_repository_error "orphan deletion error code is invalid")
  reject_if
      (any
        (λ (o : OrphanRow).
          is_active_orphan namespace key o && not (seen_before (unix_timestamp failed_at) o))
        s.orphans)
      (inventory_repository_error "constraint failed")
  reject_if (not (count_where (is_active_orphan namespace key) s.orphans == 1))
      (inventory_repository_error "orphan deletion failure has no active observation")
  ok (record s {
    orphans =
        update_where (is_active_orphan namespace key)
          (deletion_failed error_code (unix_timestamp failed_at)) s.orphans;
  })

-- `ON CONFLICT(namespace) DO UPDATE`.
unfoldable pub upsert_cursor : CursorRow → List CursorRow → List CursorRow
upsert_cursor c cursors =
    if is_some (find_where (λ (d : CursorRow). eq_namespace d.namespace c.namespace) cursors)
    then update_where (λ (d : CursorRow). eq_namespace d.namespace c.namespace) (λ d. c) cursors
    else cursors ++ c ∷ []

-- `CHECK (start_after IS NULL OR length(start_after) BETWEEN 1 AND 1024)` holds of a cursor with
-- the prefix. `save_inventory_cursor`.
unfoldable pub save_inventory_cursor :
    Store → StorageNamespace → Option Bytes → OffsetDateTime → Result InventoryRepositoryError Store
unfolding upsert_cursor
save_inventory_cursor s namespace start_after updated_at = do
  reject_if (is_bad_cursor namespace start_after)
      (inventory_repository_error "inventory cursor is invalid")
  ok (record s {
    cursors =
        upsert_cursor
          (record {
            namespace = namespace;
            start_after = start_after;
            updated_at = unix_timestamp updated_at;
          })
          s.cursors;
  })
