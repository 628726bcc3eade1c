-- ===== src/Uploads.antt =====
-- crates/g7mb-application/src/uploads.rs: the data of direct uploads, the repository port and the
-- small tests; the part layout, the metadata checks and the service have children.
pub mod Parts
pub mod Metadata
pub mod RawKeys
pub mod Service
use Prim.Native.String.{String}
use g7mediabooster.Base.{
  ℕ, ◌*◌, Bool, true, false, ◌&&◌, ◌||◌, not, List, Option, none, some, Result, ok, err, reject_if,
  Bytes, codes, all, length, is_empty, ltb, leb, ◌==◌, identifier_byte, i64_max,
}
use g7mediabooster.Domain.{
  UploadId, MediaKind, UploadTransfer, single_put, multipart, UploadState, created, uploaded,
  quarantined, processing, ready, rejected, failed, deleted,
}
use g7mediabooster.Domain.Keys.{ObjectKey}
use g7mediabooster.Domain.Batch.{UploadBatchPolicyError}
use g7mediabooster.Ports.{OffsetDateTime, Duration, from_secs, PresignedUpload, ObjectStoreError}

abbrev pub presign_ttl : Duration
presign_ttl = from_secs (10 * 60)

abbrev pub initial_processing_preset : Bytes
initial_processing_preset = codes "source-validation-v1"

pub record UploadFileIntent : Type 0 where
  pub client_ref : Bytes
  pub declared_kind : MediaKind
  pub content_length : ℕ
  pub content_type_hint : Bytes

pub record CreateUploadBatch : Type 0 where
  pub tenant_id : Bytes
  pub files : List UploadFileIntent

pub record UploadReservation : Type 0 where
  pub upload_id : UploadId
  pub object_key : ObjectKey
  pub declared_kind : MediaKind
  pub expected_size_bytes : ℕ
  pub content_type_hint : Bytes
  pub transfer : UploadTransfer
  pub multipart_upload_id : Option Bytes

pub record UploadBatchReservation : Type 0 where
  pub batch_id : ℕ
  pub tenant_id : Bytes
  pub created_at : OffsetDateTime
  pub uploads : List UploadReservation

pub record UploadCapacityPolicy : Type 0 where
  pub max_active_global : ℕ
  pub max_active_per_tenant : ℕ
  pub max_reserved_bytes_global : ℕ
  pub max_reserved_bytes_per_tenant : ℕ

-- `UploadCapacityPolicy::default()`.
abbrev pub default_capacity : UploadCapacityPolicy
default_capacity = record {
  max_active_global = 1000;
  max_active_per_tenant = 200;
  max_reserved_bytes_global = 1024 * 1024 * 1024 * 1024;
  max_reserved_bytes_per_tenant = 100 * 1024 * 1024 * 1024;
}

unfoldable pub capacity_is_valid : UploadCapacityPolicy → Bool
capacity_is_valid c =
    ltb 0 c.max_active_global
    && ltb 0 c.max_active_per_tenant
    && leb c.max_active_per_tenant c.max_active_global
    && ltb 0 c.max_reserved_bytes_global
    && ltb 0 c.max_reserved_bytes_per_tenant
    && leb c.max_reserved_bytes_per_tenant c.max_reserved_bytes_global
    && leb c.max_reserved_bytes_global i64_max

pub data UploadRepositoryError : Type 0 where
  capacity_exhausted : UploadRepositoryError
  backend : String → UploadRepositoryError

pub record StoredUploadReservation : Type 0 where
  pub upload_id : UploadId
  pub object_key : ObjectKey
  pub expected_size_bytes : ℕ
  pub state : UploadState
  pub transfer : UploadTransfer
  pub multipart_upload_id : Option Bytes

pub record StoredDerivative : Type 0 where
  pub preset_id : Bytes
  pub variant : Bytes
  pub object_key : ObjectKey
  pub content_type : Bytes
  pub byte_len : ℕ

pub record UploadStatusSnapshot : Type 0 where
  pub upload_id : UploadId
  pub state : UploadState
  pub detected_content_type : Option Bytes
  pub error_code : Option Bytes
  pub deletion_pending : Bool
  pub derivatives : List StoredDerivative

pub record UploadRepository (W : Type 0) : Type 0 where
  pub has_capacity :
      Bytes → ℕ → ℕ → UploadCapacityPolicy → W → Result UploadRepositoryError Bool × W
  pub save_batch :
      UploadBatchReservation
      → UploadCapacityPolicy
      → W
      → Result UploadRepositoryError (Unit {0}) × W
  pub find_upload :
      Bytes → UploadId → W → Result UploadRepositoryError (Option StoredUploadReservation) × W
  pub find_status :
      Bytes → UploadId → W → Result UploadRepositoryError (Option UploadStatusSnapshot) × W
  pub is_delivery_allowed : Bytes → UploadId → W → Result UploadRepositoryError (Option Bool) × W
  pub mark_quarantined_and_enqueue :
      Bytes
      → UploadId
      → ℕ
      → Bytes
      → OffsetDateTime
      → W
      → Result UploadRepositoryError (Unit {0}) × W
  pub mark_deleted :
      Bytes → UploadId → OffsetDateTime → W → Result UploadRepositoryError (Unit {0}) × W

pub record CreatedUploadIntent : Type 0 where
  pub client_ref : Bytes
  pub upload_id : UploadId
  pub transfer : UploadTransfer
  pub presigned_put : Option PresignedUpload
  pub expires_at : OffsetDateTime

pub record CreatedUploadBatch : Type 0 where
  pub batch_id : ℕ
  pub uploads : List CreatedUploadIntent

pub data CreateUploadBatchError : Type 0 where
  invalid_tenant invalid_client_ref invalid_content_type backpressure cleanup_required
        generated_object_key :
      CreateUploadBatchError
  policy : UploadBatchPolicyError → CreateUploadBatchError
  object_store : ObjectStoreError → CreateUploadBatchError
  repository : UploadRepositoryError → CreateUploadBatchError

pub data MultipartControlError : Type 0 where
  invalid_tenant not_found invalid_state invalid_part invalid_completion stored_size_mismatch :
      MultipartControlError
  object_store : ObjectStoreError → MultipartControlError
  repository : UploadRepositoryError → MultipartControlError

unfoldable pub tenant_is_valid : Bytes → Bool
tenant_is_valid tenant_id =
    not (is_empty tenant_id) && leb (length tenant_id) 64 && all identifier_byte tenant_id

unfoldable pub validate_tenant : Bytes → Result CreateUploadBatchError (Unit {0})
unfolding tenant_is_valid
validate_tenant tenant_id =
    reject_if (not (tenant_is_valid tenant_id)) CreateUploadBatchError.invalid_tenant

unfoldable pub upload_bytes_are_confirmed : UploadState → Bool
upload_bytes_are_confirmed uploaded = true
upload_bytes_are_confirmed quarantined = true
upload_bytes_are_confirmed processing = true
upload_bytes_are_confirmed ready = true
upload_bytes_are_confirmed _ = false

layout_of : UploadTransfer → Option Bytes → Result MultipartControlError (ℕ × Bytes)
layout_of single_put session = err invalid_state
layout_of (multipart part_size_bytes) none = err invalid_state
layout_of (multipart part_size_bytes) (some upload_id) = ok (part_size_bytes, upload_id)

-- The part size and the provider's session of a multipart reservation.
unfoldable pub multipart_layout : StoredUploadReservation → Result MultipartControlError (ℕ × Bytes)
unfolding layout_of
multipart_layout stored = layout_of stored.transfer stored.multipart_upload_id
