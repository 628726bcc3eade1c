-- ===== src/Uploads/Service/Checks.antt =====
-- crates/g7mb-application/src/uploads.rs: the checks of `create_batch` that ask nobody.
use g7mediabooster.Base.{
  ℕ, not, List, [], ◌∷◌, map, Option, none, some, ◌≡◌, true, Result, ok, reject_if, ok_or, arith,
  map_err, ◌>>=◌, ◌>>◌, checked_add,
}
use g7mediabooster.Domain.{UploadTransfer}
use g7mediabooster.Domain.Batch.{UploadCandidate, UploadBatchPolicy, plan}
use g7mediabooster.Uploads.{
  UploadFileIntent, CreateUploadBatch, UploadCapacityPolicy, capacity_is_valid,
  CreateUploadBatchError, backpressure, validate_tenant, tenant_is_valid,
}
use g7mediabooster.Uploads.Metadata.{validate_file_metadata}

-- `try_fold` with `checked_add`.
unfoldable pub total_length : ℕ → List UploadFileIntent → Option ℕ
total_length total [] = some total
total_length total (f ∷ fs) = elim (checked_add total f.content_length) [
  | none ↦ none
  | some total' ↦ total_length total' fs
]

abbrev pub candidate_of : UploadFileIntent → UploadCandidate
candidate_of f = record { declared_kind = f.declared_kind; byte_len = f.content_length }

-- From the check of the tenant to that of the capacity policy: the planned transfers and the
-- bytes of the batch.
unfoldable pub precheck :
    UploadBatchPolicy
    → UploadCapacityPolicy
    → CreateUploadBatch
    → Result CreateUploadBatchError (List UploadTransfer × ℕ)
precheck policy capacity request = do
  validate_tenant request.tenant_id
  validate_file_metadata request.files
  transfers ← map_err CreateUploadBatchError.policy (plan policy (map candidate_of request.files))
  additional_bytes ← ok_or (total_length 0 request.files) backpressure
  reject_if (not (capacity_is_valid capacity)) backpressure
  ok (transfers, additional_bytes)

pub precheck-tenant :
    (policy : UploadBatchPolicy) (capacity : UploadCapacityPolicy) (request : CreateUploadBatch)
    {checked : List UploadTransfer × ℕ}
    → precheck policy capacity request ≡ ok checked
    → tenant_is_valid request.tenant_id ≡ true
unfolding precheck validate_tenant
precheck-tenant policy capacity request h = ground arith
