-- ===== src/Store.antt =====
-- crates/g7mb-persistence-sqlite: the database as a record of tables. A row holds the decoded
-- values of its columns; a table is a list of rows in the order of insertion. Times are seconds.
-- The tables are those of migrations/, as the statements of src/lib.rs use them.
pub mod Queue
pub mod Reservations
pub mod Confirmations
pub mod Processing
pub mod Cleanup
pub mod Nonces
pub mod Policies
pub mod Inventory
pub mod Tombstones
pub mod Moves
pub mod Calls
use Prim.Native.String.{String}
use g7mediabooster.Base.{
  ℕ, Bool, true, false, List, [], Option, none, some, Bytes, ◌==◌, eq_bytes, ◌&&◌,
}
use g7mediabooster.Domain.{UploadId, MediaKind, UploadTransfer, UploadState}
use g7mediabooster.Domain.Keys.{ObjectKey}
use g7mediabooster.Policies.{StoredWatermarkPolicy}
use g7mediabooster.Inventory.{StorageNamespace}

pub record UploadRow : Type 0 where
  pub id : UploadId
  pub tenant_id : Bytes
  pub object_key : ObjectKey
  pub state : UploadState
  pub expected_size_bytes : ℕ
  pub actual_size_bytes : Option ℕ
  pub content_type_hint : Bytes
  pub detected_content_type : Option Bytes
  pub source_sha256 : Option Bytes
  pub error_code : Option Bytes
  pub created_at : ℕ
  pub updated_at : ℕ
  pub batch_id : Option ℕ
  pub declared_kind : MediaKind
  pub transfer : UploadTransfer
  pub multipart_upload_id : Option Bytes
  pub delete_requested_at : Option ℕ
  pub deleted_at : Option ℕ
  pub cleanup_lease_owner : Option Bytes
  pub cleanup_lease_until : Option ℕ
  pub cleanup_retry_at : Option ℕ
  pub cleanup_attempts : ℕ
  pub cleanup_error_code : Option Bytes

pub data JobState : Type 0 where
  queued leased completed dead_letter : JobState

pub record JobRow : Type 0 where
  pub id : ℕ
  pub upload_id : UploadId
  pub preset_id : Bytes
  pub site_policy_revision : Option ℕ
  pub state : JobState
  pub attempts : ℕ
  pub available_at : ℕ
  pub lease_owner : Option Bytes
  pub lease_until : Option ℕ
  pub last_error_code : Option Bytes
  pub created_at : ℕ
  pub updated_at : ℕ

pub record DerivativeRow : Type 0 where
  pub upload_id : UploadId
  pub preset_id : Bytes
  pub variant : Bytes
  pub object_key : ObjectKey
  pub content_type : Bytes
  pub byte_len : ℕ
  pub sha256 : Bytes
  pub created_at : ℕ

pub record NonceRow : Type 0 where
  pub key_id : Bytes
  pub nonce : Bytes
  pub expires_at : ℕ

-- The columns of the watermark are all `NULL` when it is disabled.
pub record PolicyRow : Type 0 where
  pub tenant_id : Bytes
  pub revision : ℕ
  pub schema_version : ℕ
  pub issued_at : ℕ
  pub settings_sha256 : Bytes
  pub watermark : Option StoredWatermarkPolicy
  pub created_at : ℕ

pub data OrphanState : Type 0 where
  suspected deleted : OrphanState

pub record OrphanRow : Type 0 where
  pub namespace : StorageNamespace
  pub object_key : ObjectKey
  pub content_length : ℕ
  pub first_seen_at : ℕ
  pub last_seen_at : ℕ
  pub state : OrphanState
  pub delete_attempts : ℕ
  pub last_error_code : Option Bytes
  pub deleted_at : Option ℕ

pub record CursorRow : Type 0 where
  pub namespace : StorageNamespace
  pub start_after : Option Bytes
  pub updated_at : ℕ

pub record TenantQueueRow : Type 0 where
  pub tenant_id : Bytes
  pub last_claim_sequence : ℕ

pub record BatchRow : Type 0 where
  pub id : ℕ
  pub tenant_id : Bytes
  pub file_count : ℕ
  pub expected_size_bytes : ℕ
  pub created_at : ℕ

-- `reserved_global` and `reserved_by_tenant` are the usage tables that the triggers of
-- 0009_storage_usage_quota.sql keep; a tenant without a row has 0 bytes.
pub record Store : Type 0 where
  pub uploads : List UploadRow
  pub jobs : List JobRow
  pub derivatives : List DerivativeRow
  pub batches : List BatchRow
  pub nonces : List NonceRow
  pub policies : List PolicyRow
  pub orphans : List OrphanRow
  pub cursors : List CursorRow
  pub next_claim_sequence : ℕ
  pub tenant_queue_state : List TenantQueueRow
  pub reserved_global : ℕ
  pub reserved_by_tenant : Bytes → ℕ

abbrev pub eq_job_state : JobState → JobState → Bool
eq_job_state queued queued = true
eq_job_state leased leased = true
eq_job_state completed completed = true
eq_job_state dead_letter dead_letter = true
eq_job_state _ _ = false

-- `column = ?` on a column that may be `NULL`.
abbrev pub is_bytes : Bytes → Option Bytes → Bool
is_bytes b none = false
is_bytes b (some c) = eq_bytes c b
