-- ===== src/Store/Reservations.antt =====
-- crates/g7mb-persistence-sqlite/src/lib.rs: `impl UploadRepository for SqliteStore` and
-- `capacity_allows`, with the usage triggers of migrations/0009_storage_usage_quota.sql.
pub mod Usage
pub mod Admission
use Prim.Native.String.{String}
use g7mediabooster.Base.{
  ℕ, ◌+◌, ◌-◌, Bool, true, false, ◌&&◌, ◌||◌, not, List, [], ◌∷◌, ◌++◌, Option, none, some, Result,
  ok, err, reject_if, ok_or, ◌>>=◌, ◌>>◌, Bytes, any, length, is_empty, is_some, ltb, leb, ◌==◌,
  eq_bytes, if◌then◌else◌, try_i64, checked_add, i64_max, sum_by, find_where, select_where,
  update_where, count_where, within,
}
use g7mediabooster.Domain.{
  UploadId, MediaKind, UploadTransfer, single_put, multipart, UploadState, created, uploaded,
  quarantined, processing, ready, rejected, failed, deleted, eq_state,
}
use g7mediabooster.Domain.Keys.{ObjectKey}
use g7mediabooster.Ports.{OffsetDateTime, unix_timestamp}
use g7mediabooster.Uploads.{
  UploadReservation, UploadBatchReservation, UploadCapacityPolicy, UploadRepositoryError,
  capacity_exhausted, backend, StoredUploadReservation,
}
use g7mediabooster.Store.{UploadRow, JobRow, JobState, queued, PolicyRow, BatchRow, Store}

-- The bytes that a row reserves.
abbrev pub usage_of : UploadRow → ℕ
usage_of u = if eq_state u.state deleted then 0 else u.expected_size_bytes

abbrev pub tenant_usage_of : Bytes → UploadRow → ℕ
tenant_usage_of tenant u = if eq_bytes u.tenant_id tenant then usage_of u else 0

-- The trigger after an insert.
unfoldable pub insert_upload_row : UploadRow → Store → Store
insert_upload_row u s = record s {
  uploads = s.uploads ++ u ∷ [];
  reserved_global = s.reserved_global + usage_of u;
  reserved_by_tenant = λ tenant. s.reserved_by_tenant tenant + tenant_usage_of tenant u;
}

-- `UPDATE uploads SET … WHERE p` with its trigger: the usage of the old rows is taken away, the
-- usage of the new rows is added.
unfoldable pub update_uploads : (UploadRow → Bool) → (UploadRow → UploadRow) → Store → Store
update_uploads p f s = record s {
  uploads = update_where p f s.uploads;
  reserved_global =
      s.reserved_global
      + sum_by (λ u. usage_of (f u)) (select_where p s.uploads)
      - sum_by usage_of (select_where p s.uploads);
  reserved_by_tenant = λ tenant.
      s.reserved_by_tenant tenant
      + sum_by (λ u. tenant_usage_of tenant (f u)) (select_where p s.uploads)
      - sum_by (tenant_usage_of tenant) (select_where p s.uploads);
}

-- `state IN ('created', 'uploaded', 'quarantined', 'processing')`.
abbrev pub is_active_state : UploadState → Bool
is_active_state state =
    eq_state state created
    || eq_state state uploaded
    || eq_state state quarantined
    || eq_state state processing

abbrev pub is_active : UploadRow → Bool
is_active u = is_active_state u.state

abbrev pub is_active_of : Bytes → UploadRow → Bool
is_active_of tenant u = eq_bytes u.tenant_id tenant && is_active u

-- `checked_add(…).is_some_and(|next| next <= limit)`.
unfoldable pub fits : ℕ → ℕ → ℕ → Bool
fits reserved additional limit =
    leb (reserved + additional) limit && is_some (checked_add reserved additional)

-- `capacity_allows`. The four numbers of the database are not negative.
unfoldable pub capacity_allows :
    ℕ → ℕ → ℕ → ℕ → ℕ → ℕ → UploadCapacityPolicy → Result UploadRepositoryError Bool
unfolding fits
capacity_allows global tenant global_bytes tenant_bytes additional_uploads additional_bytes c = do
  reject_if
      (additional_uploads == 0
        || additional_bytes == 0
        || c.max_active_global == 0
        || c.max_active_per_tenant == 0
        || ltb c.max_active_global c.max_active_per_tenant
        || c.max_reserved_bytes_global == 0
        || c.max_reserved_bytes_per_tenant == 0
        || ltb c.max_reserved_bytes_global c.max_reserved_bytes_per_tenant
        || ltb i64_max c.max_reserved_bytes_global)
      (backend "upload capacity policy is invalid")
  ok (
      fits global additional_uploads c.max_active_global
      && fits tenant additional_uploads c.max_active_per_tenant
      && fits global_bytes additional_bytes c.max_reserved_bytes_global
      && fits tenant_bytes additional_bytes c.max_reserved_bytes_per_tenant)

unfoldable pub has_room :
    Store → Bytes → ℕ → ℕ → UploadCapacityPolicy → Result UploadRepositoryError Bool
has_room s tenant_id additional_uploads additional_bytes c =
    capacity_allows (count_where is_active s.uploads)
      (count_where (is_active_of tenant_id) s.uploads) s.reserved_global
      (s.reserved_by_tenant tenant_id) additional_uploads additional_bytes c

-- `has_capacity`.
unfoldable pub has_capacity :
    Store → Bytes → ℕ → ℕ → UploadCapacityPolicy → Result UploadRepositoryError Bool
unfolding has_room
has_capacity s tenant_id additional_uploads additional_bytes c = do
  reject_if (is_empty tenant_id || additional_uploads == 0 || additional_bytes == 0)
      (backend "capacity preflight input is invalid")
  has_room s tenant_id additional_uploads additional_bytes c

-- `try_fold` with `checked_add`.
unfoldable pub batch_bytes : ℕ → List UploadReservation → Option ℕ
batch_bytes total [] = some total
batch_bytes total (u ∷ us) = elim (checked_add total u.expected_size_bytes) [
  | none ↦ none
  | some next ↦ batch_bytes next us
]

abbrev pub new_upload : UploadBatchReservation → UploadReservation → Option Bytes → UploadRow
new_upload batch u session = record {
  id = u.upload_id;
  tenant_id = batch.tenant_id;
  object_key = u.object_key;
  state = created;
  expected_size_bytes = u.expected_size_bytes;
  actual_size_bytes = none;
  content_type_hint = u.content_type_hint;
  detected_content_type = none;
  source_sha256 = none;
  error_code = none;
  created_at = unix_timestamp batch.created_at;
  updated_at = unix_timestamp batch.created_at;
  batch_id = some batch.batch_id;
  declared_kind = u.declared_kind;
  transfer = u.transfer;
  multipart_upload_id = session;
  delete_requested_at = none;
  deleted_at = none;
  cleanup_lease_owner = none;
  cleanup_lease_until = none;
  cleanup_retry_at = none;
  cleanup_attempts = 0;
  cleanup_error_code = none;
}

-- The provider's session that is stored with a transfer.
unfoldable pub stored_session :
    UploadTransfer → Option Bytes → Result UploadRepositoryError (Option Bytes)
stored_session single_put session = ok none
stored_session (multipart part_size_bytes) session = do
  _ ← ok_or (try_i64 part_size_bytes) (backend "multipart part size exceeds SQLite range")
  reject_if (not (is_some session)) (backend "multipart reservation has no provider session")
  ok session

-- `multipart_part_size_bytes >= 5242880` where there is one.
abbrev pub is_short_part : UploadTransfer → Bool
is_short_part single_put = false
is_short_part (multipart part_size_bytes) = ltb part_size_bytes 5242880

-- The primary key and the unique object key of `uploads`, and the range of `tenant_storage_usage`.
abbrev pub clashes : UploadReservation → UploadRow → Bool
clashes u row = row.id == u.upload_id || eq_bytes row.object_key.value u.object_key.value

-- One turn of the loop over the uploads of a batch.
unfoldable pub insert_upload :
    UploadBatchReservation → UploadReservation → Store → Result UploadRepositoryError Store
unfolding insert_upload_row stored_session
insert_upload batch u s = do
  _ ← ok_or (try_i64 u.expected_size_bytes) (backend "upload byte length exceeds SQLite range")
  session ← stored_session u.transfer u.multipart_upload_id
  reject_if (any (clashes u) s.uploads) (backend "SQLite backend: UNIQUE constraint failed")
  reject_if (not (within 1 64 (length batch.tenant_id)) || is_short_part u.transfer)
      (backend "SQLite backend: CHECK constraint failed")
  ok (insert_upload_row (new_upload batch u session) s)

unfoldable pub insert_uploads :
    UploadBatchReservation → List UploadReservation → Store → Result UploadRepositoryError Store
unfolding insert_upload
insert_uploads batch [] s = ok s
insert_uploads batch (u ∷ us) s = insert_upload batch u s >>= insert_uploads batch us

-- The row of the batch.
abbrev pub with_batch : UploadBatchReservation → ℕ → Store → Store
with_batch batch total_size s = record s {
  batches =
      s.batches
      ++ record {
        id = batch.batch_id;
        tenant_id = batch.tenant_id;
        file_count = length batch.uploads;
        expected_size_bytes = total_size;
        created_at = unix_timestamp batch.created_at;
      }
        ∷ [];
}

-- `save_batch`: an error rolls the transaction back.
unfoldable pub save_batch :
    UploadBatchReservation → UploadCapacityPolicy → Store → Result UploadRepositoryError Store
unfolding has_room insert_uploads batch_bytes
save_batch batch capacity s = do
  reject_if (is_empty batch.uploads || ltb 100 (length batch.uploads))
      (backend "batch file count is outside 1..=100")
  total_size ←
      ok_or (batch_bytes 0 batch.uploads) (backend "batch byte total exceeds integer range")
  _ ← ok_or (try_i64 total_size) (backend "batch byte total exceeds SQLite range")
  allowed ← has_room s batch.tenant_id (length batch.uploads) total_size capacity
  reject_if (not allowed) capacity_exhausted
  reject_if (any (λ (b : BatchRow). b.id == batch.batch_id) s.batches)
      (backend "SQLite backend: UNIQUE constraint failed")
  insert_uploads batch batch.uploads (with_batch batch total_size s)
