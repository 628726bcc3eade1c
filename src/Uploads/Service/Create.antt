-- ===== src/Uploads/Service/Create.antt =====
-- crates/g7mb-application/src/uploads.rs: `UploadIntentService::create_batch`.
pub mod Laws
pub mod Sessions
use mathlib.Core.List.{zip}
use g7mediabooster.Base.{
  ℕ, suc, ◌+◌, Bool, true, false, not, List, [], ◌∷◌, ◌++◌, map, Option, none, some, Result, ok,
  err, Bytes, length, checked_add, ok_or, map_err, if◌then◌else◌,
}
use g7mediabooster.Domain.{UploadId, UploadTransfer, single_put, multipart}
use g7mediabooster.Domain.Keys.{ObjectKey, new}
use g7mediabooster.Domain.Batch.{UploadCandidate, plan}
use g7mediabooster.Ports.{OffsetDateTime, PresignedUpload, ObjectStoreError}
use g7mediabooster.Ports.Effects.{
  Effect, ◌>>=◌, ◌>>◌, after, done, fail, lift, fail_if, map_failure, convert,
}
use g7mediabooster.Uploads.{
  presign_ttl, UploadFileIntent, CreateUploadBatch, UploadReservation, UploadBatchReservation,
  capacity_is_valid, UploadRepositoryError, capacity_exhausted, backend, CreatedUploadIntent,
  CreatedUploadBatch, CreateUploadBatchError, backpressure, generated_object_key, validate_tenant,
}
use g7mediabooster.Uploads.Metadata.{validate_file_metadata}
use g7mediabooster.Uploads.RawKeys.{UuidText, raw_key}
use g7mediabooster.Uploads.Service.{UploadIntentService, cleanup_or}
use g7mediabooster.Uploads.Service.Checks.{precheck}

-- The error of `create_batch` for a failed `save_batch`.
abbrev pub save_error : UploadRepositoryError → CreateUploadBatchError
save_error capacity_exhausted = backpressure
save_error (backend e) = CreateUploadBatchError.repository (backend e)

module _ {W : Type 0} (service : UploadIntentService W) where
  open service use {object_store, repository, policy, capacity}

  -- The instruction of one file: a signed URL, or a session of the provider.
  unfoldable pub provision :
      UploadTransfer
      → UploadFileIntent
      → ObjectKey
      → Effect W ObjectStoreError (Option Bytes × Option PresignedUpload)
  provision single_put file object_key = do
    signed ← object_store.presign_put (record {
      key = object_key;
      content_length = file.content_length;
      content_type = file.content_type_hint;
      expires_in = presign_ttl;
    })
    done (none, some signed)
  provision (multipart part_size_bytes) file object_key = do
    session ←
        object_store.create_multipart
          (record { key = object_key; content_type = file.content_type_hint })
    done (some session.upload_id, none)

  -- A failed instruction cleans up what the batch has opened so far.
  unfoldable pub provisioned :
      List UploadReservation
      → Result ObjectStoreError (Option Bytes × Option PresignedUpload) × W
      → Result CreateUploadBatchError (Option Bytes × Option PresignedUpload) × W
  provisioned reservations (ok made, w) = (ok made, w)
  provisioned reservations (err error, w) =
      cleanup_or service reservations (CreateUploadBatchError.object_store error) w

  -- A failed save cleans up every session of the batch.
  unfoldable pub saved :
      List UploadReservation
      → Result UploadRepositoryError (Unit {0}) × W
      → Result CreateUploadBatchError (Unit {0}) × W
  saved reservations (ok u, w) = (ok u, w)
  saved reservations (err error, w) = cleanup_or service reservations (save_error error) w

  -- Whether the repository has room.
  unfoldable pub admit : CreateUploadBatch → Effect W CreateUploadBatchError (List UploadTransfer)
  admit request = do
    checked ← lift (precheck policy capacity request)
    has_capacity ←
        map_failure CreateUploadBatchError.repository
          (repository.has_capacity request.tenant_id (length request.files) checked.1 capacity)
    fail_if (not has_capacity) backpressure
    done checked.0

module _ {W : Type 0} (service : UploadIntentService W) (uuid : UuidText) where
  open service use {repository, capacity}

  -- The loop over the files, with the identifier of each by its index.
  unfoldable pub reserve_files :
      Bytes
      → OffsetDateTime
      → (ℕ → UploadId)
      → ℕ
      → List (UploadFileIntent × UploadTransfer)
      → List UploadReservation
      → List CreatedUploadIntent
      → Effect W CreateUploadBatchError (List UploadReservation × List CreatedUploadIntent)
  reserve_files tenant_id expires_at new_id index [] reservations outputs =
      done (reservations, outputs)
  reserve_files tenant_id expires_at new_id index ((file, transfer) ∷ files) reservations outputs =
      do
        let upload_id = new_id index
        object_key ←
            lift (map_err (λ _. generated_object_key) (new (raw_key uuid tenant_id upload_id)))
        made ← λ w. provisioned service reservations (provision service transfer file object_key w)
        reserve_files tenant_id expires_at new_id (index + 1) files
            (reservations
              ++ record {
                upload_id = upload_id;
                object_key = object_key;
                declared_kind = file.declared_kind;
                expected_size_bytes = file.content_length;
                content_type_hint = file.content_type_hint;
                transfer = transfer;
                multipart_upload_id = made.0;
              }
                ∷ [])
            (outputs
              ++ record {
                client_ref = file.client_ref;
                upload_id = upload_id;
                transfer = transfer;
                presigned_put = made.1;
                expires_at = expires_at;
              }
                ∷ [])

  -- `batch_id`, `created_at` and `new_id` are the new identifiers and the clock.
  unfoldable pub create_batch :
      CreateUploadBatch
      → ℕ
      → OffsetDateTime
      → (ℕ → UploadId)
      → Effect W CreateUploadBatchError CreatedUploadBatch
  create_batch request batch_id created_at new_id = do
    transfers ← admit service request
    let expires_at = created_at + presign_ttl
    made ← reserve_files request.tenant_id expires_at new_id 0 (zip request.files transfers) [] []
    let batch : UploadBatchReservation = record {
      batch_id = batch_id;
      tenant_id = request.tenant_id;
      created_at = created_at;
      uploads = made.0;
    }
    λ w. saved service made.0 (repository.save_batch batch capacity w)
    done (record { batch_id = batch_id; uploads = made.1 })
