-- ===== src/Uploads/Service/Control.antt =====
-- crates/g7mb-application/src/uploads.rs: the operations of `UploadIntentService` on one upload:
-- `presign_part`, `complete_multipart`, `confirm_single_upload`, `abort_multipart`, `status`.
pub mod Confirmed
pub mod Completed
pub mod Aborted
use g7mediabooster.Base.{
  ℕ, Bool, false, not, List, Option, none, some, Bytes, ok_or, ◌==◌, if◌then◌else◌,
}
use g7mediabooster.Domain.{UploadId, created, deleted, eq_state, is_multipart}
use g7mediabooster.Ports.{OffsetDateTime, PresignedUpload, CompletedPart}
use g7mediabooster.Ports.Effects.{Effect, ◌>>=◌, ◌>>◌, done, lift, fail_if, map_failure}
use g7mediabooster.Uploads.{
  presign_ttl, initial_processing_preset, StoredUploadReservation, UploadStatusSnapshot,
  MultipartControlError, invalid_state, invalid_part, tenant_is_valid, upload_bytes_are_confirmed,
  multipart_layout,
}
use g7mediabooster.Uploads.Parts.{expected_part_length, validate_completion}
use g7mediabooster.Uploads.Service.{UploadIntentService, verify_stored_size}

-- `expected_part_length(…) != Some(content_length)`.
abbrev pub is_length : ℕ → Option ℕ → Bool
is_length n none = false
is_length n (some m) = m == n

module _ {W : Type 0} (service : UploadIntentService W) where
  open service use {object_store, repository}

  -- The reservation of a valid tenant.
  unfoldable pub find : Bytes → UploadId → Effect W MultipartControlError StoredUploadReservation
  find tenant_id upload_id = do
    fail_if (not (tenant_is_valid tenant_id)) MultipartControlError.invalid_tenant
    found ←
        map_failure MultipartControlError.repository (repository.find_upload tenant_id upload_id)
    lift (ok_or found MultipartControlError.not_found)

  unfoldable pub presign_part :
      Bytes → UploadId → ℕ → ℕ → Effect W MultipartControlError PresignedUpload
  unfolding find
  presign_part tenant_id upload_id part_number content_length = do
    stored ← find tenant_id upload_id
    layout ← lift (multipart_layout stored)
    fail_if (not (eq_state stored.state created)) invalid_state
    fail_if
        (not (
          is_length content_length
            (expected_part_length stored.expected_size_bytes layout.0 part_number)))
        invalid_part
    map_failure MultipartControlError.object_store (
        object_store.presign_part (record {
          key = stored.object_key;
          upload_id = layout.1;
          part_number = part_number;
          content_length = content_length;
          expires_in = presign_ttl;
        }))

  -- Both confirmations end so: the verified upload enters quarantine with its first job.
  unfoldable pub quarantine :
      Bytes
      → UploadId
      → StoredUploadReservation
      → OffsetDateTime
      → Effect W MultipartControlError (Unit {0})
  quarantine tenant_id upload_id stored now = do
    verify_stored_size service stored
    map_failure MultipartControlError.repository (
        repository.mark_quarantined_and_enqueue tenant_id upload_id stored.expected_size_bytes
          initial_processing_preset now)
    done tt

  -- `complete_multipart` on an upload that was found with its layout.
  unfoldable pub complete_found :
      Bytes
      → UploadId
      → List CompletedPart
      → OffsetDateTime
      → StoredUploadReservation
      → ℕ × Bytes
      → Effect W MultipartControlError (Unit {0})
  unfolding quarantine
  complete_found tenant_id upload_id parts now stored layout =
      if upload_bytes_are_confirmed stored.state then verify_stored_size service stored else (do
        fail_if (not (eq_state stored.state created)) invalid_state
        lift (validate_completion stored.expected_size_bytes layout.0 parts)
        map_failure MultipartControlError.object_store (
            object_store.complete_multipart
              (record { key = stored.object_key; upload_id = layout.1; parts = parts }))
        quarantine tenant_id upload_id stored now)

  unfoldable pub complete_multipart :
      Bytes
      → UploadId
      → List CompletedPart
      → OffsetDateTime
      → Effect W MultipartControlError (Unit {0})
  unfolding find complete_found
  complete_multipart tenant_id upload_id parts now = do
    stored ← find tenant_id upload_id
    layout ← lift (multipart_layout stored)
    complete_found tenant_id upload_id parts now stored layout

  -- `confirm_single_upload` on an upload that was found.
  unfoldable pub confirm_found :
      Bytes
      → UploadId
      → OffsetDateTime
      → StoredUploadReservation
      → Effect W MultipartControlError (Unit {0})
  unfolding quarantine
  confirm_found tenant_id upload_id now stored = do
    fail_if (is_multipart stored.transfer) invalid_state
    if upload_bytes_are_confirmed stored.state then verify_stored_size service stored else (do
      fail_if (not (eq_state stored.state created)) invalid_state
      quarantine tenant_id upload_id stored now)

  unfoldable pub confirm_single_upload :
      Bytes → UploadId → OffsetDateTime → Effect W MultipartControlError (Unit {0})
  unfolding find confirm_found
  confirm_single_upload tenant_id upload_id now = do
    stored ← find tenant_id upload_id
    confirm_found tenant_id upload_id now stored

  -- `abort_multipart` on an upload that was found with its layout.
  unfoldable pub abort_found :
      Bytes
      → UploadId
      → OffsetDateTime
      → StoredUploadReservation
      → ℕ × Bytes
      → Effect W MultipartControlError (Unit {0})
  abort_found tenant_id upload_id now stored layout =
      if eq_state stored.state deleted then done tt else (do
        fail_if (not (eq_state stored.state created)) invalid_state
        map_failure MultipartControlError.object_store (
            object_store.abort_multipart (record { key = stored.object_key; upload_id = layout.1 }))
        map_failure MultipartControlError.repository
            (repository.mark_deleted tenant_id upload_id now)
        done tt)

  unfoldable pub abort_multipart :
      Bytes → UploadId → OffsetDateTime → Effect W MultipartControlError (Unit {0})
  unfolding find abort_found
  abort_multipart tenant_id upload_id now = do
    stored ← find tenant_id upload_id
    layout ← lift (multipart_layout stored)
    abort_found tenant_id upload_id now stored layout

  unfoldable pub status : Bytes → UploadId → Effect W MultipartControlError UploadStatusSnapshot
  status tenant_id upload_id = do
    fail_if (not (tenant_is_valid tenant_id)) MultipartControlError.invalid_tenant
    found ←
        map_failure MultipartControlError.repository (repository.find_status tenant_id upload_id)
    lift (ok_or found MultipartControlError.not_found)
