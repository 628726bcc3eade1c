-- ===== src/Store/Calls.antt =====
-- The operations of the store that change uploads or jobs, as calls on one store, but for the purge
-- of tombstones: an error rolls the transaction back, or comes before any statement changed a row.
pub mod Uploads
pub mod Kept
pub mod Queue
pub mod Invariants
use g7mediabooster.Base.{ℕ, List, [], ◌∷◌, Option, none, some, Result, ok, err, Bytes}
use g7mediabooster.Domain.{UploadId}
use g7mediabooster.Ports.{OffsetDateTime, Duration}
use g7mediabooster.Uploads.{UploadBatchReservation, UploadCapacityPolicy}
use g7mediabooster.Store.{Store}
use g7mediabooster.Store.Queue.Steps.{Call, apply}
use g7mediabooster.Store.Reservations.{save_batch}
use g7mediabooster.Store.Confirmations.{mark_quarantined_and_enqueue, mark_deleted}
use g7mediabooster.Store.Processing.{
  PublishedDerivative, start_processing, publish_derivatives, mark_rejected,
}
use g7mediabooster.Store.Cleanup.{request_deletion}
use g7mediabooster.Store.Cleanup.Leases.{claim_cleanup_batch, complete_cleanup, fail_cleanup}

pub data StoreCall : Type 0 where
  saves : UploadBatchReservation → StoreCall
  confirms : Bytes → UploadId → ℕ → Bytes → OffsetDateTime → ℕ → StoreCall
  aborts : Bytes → UploadId → OffsetDateTime → StoreCall
  starts : UploadId → Bytes → Bytes → OffsetDateTime → StoreCall
  publishes : UploadId → List PublishedDerivative → OffsetDateTime → StoreCall
  rejects : UploadId → Bytes → OffsetDateTime → StoreCall
  requests : Bytes → UploadId → OffsetDateTime → StoreCall
  leases : Bytes → OffsetDateTime → OffsetDateTime → OffsetDateTime → Duration → ℕ → ℕ → StoreCall
  cleans : UploadId → Bytes → OffsetDateTime → StoreCall
  gives_up : UploadId → Bytes → OffsetDateTime → OffsetDateTime → Bytes → StoreCall
  queues : Call → StoreCall

module _ {E : Type 0} where
  abbrev pub stored : Store → Result E Store → Store
  stored s (ok s') = s'
  stored s (err e) = s

  abbrev pub stored_with : {A : Type 0} → Store → Result E (A × Store) → Store
  stored_with s (ok (a, s')) = s'
  stored_with s (err e) = s

-- The store after a call, with one capacity for every batch.
unfoldable pub run : UploadCapacityPolicy → Store → StoreCall → Store
run c s (saves batch) = stored s (save_batch batch c s)
run c s (confirms tenant_id upload_id actual_size_bytes preset_id now job_id) =
    stored s
      (mark_quarantined_and_enqueue s tenant_id upload_id actual_size_bytes preset_id now job_id)
run c s (aborts tenant_id upload_id now) = stored s (mark_deleted s tenant_id upload_id now)
run c s (starts upload_id detected_content_type source_sha256 now) =
    stored s (start_processing s upload_id detected_content_type source_sha256 now)
run c s (publishes upload_id derivatives now) =
    stored s (publish_derivatives s upload_id derivatives now)
run c s (rejects upload_id error_code now) = stored s (mark_rejected s upload_id error_code now)
run c s (requests tenant_id upload_id now) =
    stored_with s (request_deletion s tenant_id upload_id now)
run c s (leases owner now created_before rejected_before lease_for limit max_attempts) =
    stored_with s
      (claim_cleanup_batch s owner now created_before rejected_before lease_for limit max_attempts)
run c s (cleans upload_id owner now) = stored s (complete_cleanup s upload_id owner now)
run c s (gives_up upload_id owner now retry_at error_code) =
    stored s (fail_cleanup s upload_id owner now retry_at error_code)
run c s (queues call) = apply s call

unfoldable pub run_all : UploadCapacityPolicy → Store → List StoreCall → Store
run_all c s [] = s
run_all c s (call ∷ calls) = run_all c (run c s call) calls
