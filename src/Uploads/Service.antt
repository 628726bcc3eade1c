-- ===== src/Uploads/Service.antt =====
-- crates/g7mb-application/src/uploads.rs: `UploadIntentService`, over the object storage port and
-- the repository port. What the code reads from the clock and the new identifiers are arguments.
pub mod Checks
pub mod Create
pub mod Control
use g7mediabooster.Base.{
  ℕ, suc, ◌+◌, ◌≡◌, Bool, true, false, ◌&&◌, not, List, [], ◌∷◌, ◌++◌, map, Option, none, some,
  Result, ok, err, Bytes, length, checked_add, ok_or, map_err, is_ok, ◌==◌, if◌then◌else◌,
}
use mathlib.Core.List.{zip}
use g7mediabooster.Domain.{
  UploadId, UploadTransfer, single_put, multipart, UploadState, created, deleted, eq_state,
  is_multipart,
}
use g7mediabooster.Domain.Keys.{ObjectKey, ObjectKeyError, new}
use g7mediabooster.Domain.Batch.{UploadCandidate, UploadBatchPolicy, plan}
use g7mediabooster.Ports.{
  OffsetDateTime, PresignPutRequest, PresignedUpload, CreateMultipartRequest, MultipartSession,
  PresignPartRequest, CompletedPart, CompleteMultipartRequest, AbortMultipartRequest,
  ObjectMetadata, ObjectStoreError, ObjectStore,
}
use g7mediabooster.Ports.Effects.{
  Effect, ◌>>=◌, ◌>>◌, after, done, fail, lift, fail_if, map_failure, convert, attempt, attempt_of,
}
use g7mediabooster.Uploads.{
  presign_ttl, initial_processing_preset, UploadFileIntent, CreateUploadBatch, UploadReservation,
  UploadBatchReservation, UploadCapacityPolicy, capacity_is_valid, UploadRepositoryError,
  capacity_exhausted, backend, StoredUploadReservation, UploadStatusSnapshot, UploadRepository,
  CreatedUploadIntent, CreatedUploadBatch, CreateUploadBatchError, MultipartControlError,
  tenant_is_valid, validate_tenant, upload_bytes_are_confirmed, multipart_layout,
}
use g7mediabooster.Uploads.Parts.{expected_part_length, validate_completion}
use g7mediabooster.Uploads.Metadata.{validate_file_metadata}
use g7mediabooster.Uploads.RawKeys.{UuidText, raw_key}

pub record UploadIntentService (W : Type 0) : Type 0 where
  pub object_store : ObjectStore W
  pub repository : UploadRepository W
  pub policy : UploadBatchPolicy
  pub capacity : UploadCapacityPolicy

module _ {W : Type 0} (service : UploadIntentService W) where
  open service use {object_store, repository, policy, capacity}

  -- One session to abort, if the reservation has one: whether nothing failed.
  abort_one : UploadReservation → Option Bytes → W → Bool × W
  abort_one r none w = (true, w)
  abort_one r (some upload_id) w =
      let (answer, w') =
        object_store.abort_multipart (record { key = r.object_key; upload_id = upload_id }) w in
      (is_ok answer, w')

  -- `cleanup`: every session is aborted, whatever the others answered.
  unfoldable pub cleanup : List UploadReservation → W → Bool × W
  unfolding abort_one
  cleanup [] w = (true, w)
  cleanup (r ∷ rs) w =
      let (aborted, w') = abort_one r r.multipart_upload_id w in
      let (all_aborted, w'') = cleanup rs w' in (aborted && all_aborted, w'')

  -- `Err(self.cleanup_or_error(…).await)`, and the same after a failed `save_batch`.
  unfoldable pub cleanup_or :
      {A : Type 0}
      → List UploadReservation
      → CreateUploadBatchError
      → Effect W CreateUploadBatchError A
  cleanup_or rs original w =
      let (aborted, w') = cleanup rs w in
      (err (if aborted then original else CreateUploadBatchError.cleanup_required), w')

  -- `verify_stored_size`: the provider's length must be the reserved one.
  unfoldable pub verify_stored_size :
      StoredUploadReservation → Effect W MultipartControlError (Unit {0})
  verify_stored_size stored = do
    metadata ← map_failure MultipartControlError.object_store (object_store.head stored.object_key)
    fail_if (not (metadata.content_length == stored.expected_size_bytes))
        MultipartControlError.stored_size_mismatch
    done tt
