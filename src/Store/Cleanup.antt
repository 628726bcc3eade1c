-- ===== src/Store/Cleanup.antt =====
-- `impl LifecycleRepository for SqliteStore` of crates/g7mb-persistence-sqlite/src/lib.rs with the
-- data of crates/g7mb-application/src/lifecycle.rs: deletion requests, cleanup leases, tombstones.
pub mod Leases
pub mod Requests
use Prim.Native.String.{String}
use g7mediabooster.Base.{
  ℕ, ◌+◌, ◌-◌, ◌*◌, ◌^◌, Bool, true, false, ◌&&◌, ◌||◌, not, List, [], ◌∷◌, ◌++◌, Option, none,
  some, Result, ok, err, reject_if, ok_or, ◌>>=◌, ◌>>◌, Bytes, all, any, map, length, is_empty,
  is_some, ltb, leb, ◌==◌, eq_bytes, if◌then◌else◌, try_i64, checked_add_i64, within, find_where,
  select_where, update_where, count_where, identifier_byte,
}
use g7mediabooster.Domain.{
  UploadId, UploadTransfer, UploadState, created, ready, rejected, failed, deleted, eq_state,
}
use g7mediabooster.Domain.Keys.{ObjectKey}
use g7mediabooster.Ports.{OffsetDateTime, Duration, unix_timestamp, as_secs, from_secs}
use g7mediabooster.Store.{UploadRow, JobRow, DerivativeRow, PolicyRow, Store, is_bytes}
use g7mediabooster.Store.Reservations.{update_uploads}
use g7mediabooster.Store.Confirmations.{is_upload, upload_of, to_deleted, before_bytes}
use g7mediabooster.Store.Processing.{is_error_code}

pub data CleanupReason : Type 0 where
  user_requested expired_reservation retention_expired : CleanupReason

pub record CleanupCandidate : Type 0 where
  pub tenant_id : Bytes
  pub upload_id : UploadId
  pub raw_object_key : ObjectKey
  pub state : UploadState
  pub transfer : UploadTransfer
  pub multipart_upload_id : Option Bytes
  pub derivative_keys : List ObjectKey
  pub reason : CleanupReason
  pub attempts : ℕ

pub data DeletionRequestOutcome : Type 0 where
  accepted already_pending already_deleted : DeletionRequestOutcome

pub data DeletionRequestError : Type 0 where
  invalid_tenant not_found state_conflict referenced_by_policy : DeletionRequestError
  backend : String → DeletionRequestError

pub data LifecycleRepositoryError : Type 0 where
  lifecycle_repository_error : String → LifecycleRepositoryError

-- `state IN ('created', 'ready', 'rejected', 'failed')`.
abbrev pub is_deletable : UploadState → Bool
is_deletable state =
    eq_state state created
    || eq_state state ready
    || eq_state state rejected
    || eq_state state failed

abbrev pub requestable : Bytes → UploadId → UploadRow → Bool
requestable tenant_id upload_id u =
    is_upload tenant_id upload_id u && not (is_some u.delete_requested_at) && is_deletable u.state

abbrev pub requested : ℕ → UploadRow → UploadRow
requested now u = record u {
  delete_requested_at = some now;
  cleanup_retry_at = some now;
  cleanup_error_code = none;
  updated_at = now;
}

abbrev pub pins : UploadId → PolicyRow → Bool
pins upload_id p = elim p.watermark [ none ↦ false | some w ↦ w.asset_upload_id == upload_id ]

abbrev pub request_stored :
    Store
    → Bytes
    → UploadId
    → ℕ
    → UploadRow
    → Result DeletionRequestError (DeletionRequestOutcome × Store)
request_stored s tenant_id upload_id now u =
    if eq_state u.state deleted
    then ok (already_deleted, s)
    else if is_some u.delete_requested_at
    then ok (already_pending, s)
    else (do
      reject_if (not (is_deletable u.state)) state_conflict
      reject_if (not (count_where (pins upload_id) s.policies == 0)) referenced_by_policy
      reject_if (not (count_where (requestable tenant_id upload_id) s.uploads == 1)) state_conflict
      ok (accepted, update_uploads (requestable tenant_id upload_id) (requested now) s))

-- `request_deletion`.
unfoldable pub request_deletion :
    Store
    → Bytes
    → UploadId
    → OffsetDateTime
    → Result DeletionRequestError (DeletionRequestOutcome × Store)
request_deletion s tenant_id upload_id now = do
  u ← ok_or (upload_of s tenant_id upload_id) not_found
  request_stored s tenant_id upload_id (unix_timestamp now) u
