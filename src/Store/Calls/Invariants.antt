-- ===== src/Store/Calls/Invariants.antt =====
-- What holds of the store after every sequence of its operations but the purge of tombstones.
use g7mediabooster.Base.{◌≡◌, refl, ◌⊎◌, inl, inr, List, [], ◌∷◌, some, Result, ok, err}
use g7mediabooster.Domain.{UploadId}
use g7mediabooster.Uploads.{UploadBatchReservation, UploadCapacityPolicy, UploadRepositoryError}
use g7mediabooster.Store.{UploadRow, Store}
use g7mediabooster.Store.Reservations.{save_batch}
use g7mediabooster.Store.Reservations.Admission.{
  save_batch-IsWithin, save_batch-IsAccounted, save_batch-kept,
}
use g7mediabooster.Store.Processing.{upload_at}
use g7mediabooster.Store.Moves.{Updates, kept}
use g7mediabooster.Store.Moves.Accounts.{IsAccounted, Updates-IsAccounted}
use g7mediabooster.Store.Moves.Rows.{Became-refl, Became-trans, Survives, Updates-Survives}
use g7mediabooster.Store.Moves.Capacity.{IsWithin, Updates-IsWithin}
use g7mediabooster.Store.Calls.{
  StoreCall, saves, confirms, aborts, starts, publishes, rejects, requests, leases, cleans,
  gives_up, queues, stored, stored_with, run, run_all,
}
use g7mediabooster.Store.Calls.Uploads.{
  same_usage, mark_quarantined-Updates, mark_deleted-Updates, start_processing-Updates,
  mark_rejected-Updates, publish_derivatives-Updates,
}
use g7mediabooster.Store.Calls.Kept.{
  request_deletion-Updates, claim_cleanup_batch-Updates, complete_cleanup-Updates,
  fail_cleanup-Updates,
}
use g7mediabooster.Store.Calls.Queue.{apply-same}

stored-Updates :
    {E : Type 0} (s : Store) (r : Result E Store)
    → ((s' : Store) → r ≡ ok s' → Updates s s')
    → Updates s (stored s r)
stored-Updates s (ok s') h = h s' refl
stored-Updates s (err e) h = kept (same_usage s)

stored_with-Updates :
    {E A : Type 0} (s : Store) (r : Result E (A × Store))
    → ((a : A) (s' : Store) → r ≡ ok (a, s') → Updates s s')
    → Updates s (stored_with s r)
stored_with-Updates s (ok (a, s')) h = h a s' refl
stored_with-Updates s (err e) h = kept (same_usage s)

-- A call is the save of a batch, or it updates the uploads.
abbrev Saves : UploadCapacityPolicy → Store → Store → Type 0
Saves c s s' = (batch : UploadBatchReservation) × (save_batch batch c s ≡ ok s')

run-Updates :
    (c : UploadCapacityPolicy) (s : Store) (call : StoreCall)
    → Saves c s (run c s call) ⊎ Updates s (run c s call)
unfolding run
run-Updates c s (saves batch) = saved (save_batch batch c s) refl
  where
    saved :
        (r : Result UploadRepositoryError Store)
        → save_batch batch c s ≡ r
        → Saves c s (stored s r) ⊎ Updates s (stored s r)
    saved (ok s') e = inl (batch, e)
    saved (err x) e = inr (kept (same_usage s))
run-Updates c s (confirms tenant_id upload_id size preset_id now job_id) = inr (
    stored-Updates s _
      λ s'. mark_quarantined-Updates s s' tenant_id upload_id size preset_id now job_id)
run-Updates c s (aborts tenant_id upload_id now) =
    inr (stored-Updates s _ λ s'. mark_deleted-Updates s s' tenant_id upload_id now)
run-Updates c s (starts upload_id detected_content_type source_sha256 now) = inr (
    stored-Updates s _
      λ s'. start_processing-Updates s s' upload_id detected_content_type source_sha256 now)
run-Updates c s (publishes upload_id derivatives now) =
    inr (stored-Updates s _ λ s'. publish_derivatives-Updates s s' upload_id derivatives now)
run-Updates c s (rejects upload_id error_code now) =
    inr (stored-Updates s _ λ s'. mark_rejected-Updates s s' upload_id error_code now)
run-Updates c s (requests tenant_id upload_id now) =
    inr (stored_with-Updates s _ λ o s'. request_deletion-Updates s s' tenant_id upload_id now o)
run-Updates c s (leases owner now created_before rejected_before lease_for limit max_attempts) =
    inr (
      stored_with-Updates s _ λ cs s'.
        claim_cleanup_batch-Updates s s' owner now created_before rejected_before lease_for limit
          max_attempts cs)
run-Updates c s (cleans upload_id owner now) =
    inr (stored-Updates s _ λ s'. complete_cleanup-Updates s s' upload_id owner now)
run-Updates c s (gives_up upload_id owner now retry_at error_code) =
    inr (stored-Updates s _ λ s'. fail_cleanup-Updates s s' upload_id owner now retry_at error_code)
run-Updates c s (queues call) = inr (kept (apply-same s call))

-- After every sequence of operations, the purge of tombstones excepted, of a store whose usage
-- tables agree with its uploads, they still agree: the reserved bytes of the deployment and of each
-- tenant are the sums of the expected sizes of the uploads that are not deleted.
pub run_all-IsAccounted :
    (c : UploadCapacityPolicy) (s : Store) (calls : List StoreCall)
    → IsAccounted s
    → IsAccounted (run_all c s calls)
unfolding run_all
run_all-IsAccounted c s [] a = a
run_all-IsAccounted c s (call ∷ calls) a = run_all-IsAccounted c (run c s call) calls (one a)
  where
    one : IsAccounted s → IsAccounted (run c s call)
    one a = elim (run-Updates c s call) [
      | inl (batch, e) ↦ save_batch-IsAccounted batch c s (run c s call) e a
      | inr u ↦ Updates-IsAccounted u a
    ]

-- From a store whose usage tables agree with its uploads and whose uploads are within a capacity,
-- every sequence of operations under that capacity, the purge of tombstones excepted, stays within
-- it: neither the active uploads nor the reserved bytes exceed the limits, over all tenants and for
-- each tenant.
pub run_all-IsWithin :
    (c : UploadCapacityPolicy) (s : Store) (calls : List StoreCall)
    → IsAccounted s
    → IsWithin c s
    → IsWithin c (run_all c s calls)
unfolding run_all
run_all-IsWithin c s [] a w = w
run_all-IsWithin c s (call ∷ calls) a w =
    run_all-IsWithin c (run c s call) calls (run_all-IsAccounted c s (call ∷ []) a) one
  where
    one : IsWithin c (run c s call)
    one = elim (run-Updates c s call) [
      | inl (batch, e) ↦ save_batch-IsWithin batch c s (run c s call) a e w
      | inr u ↦ Updates-IsWithin c u w
    ]

-- Every upload that is in the store is there after every sequence of calls that reserve, confirm,
-- abort, process, publish, reject or clean up uploads, request deletions, or use the queue, with
-- the same tenant, object key and expected size, and its state is reached by permitted transitions
-- only. The purge of tombstones, which removes the rows of uploads that were deleted long ago, is
-- not among the calls.
pub run_all-Survives :
    (c : UploadCapacityPolicy) (s : Store) (calls : List StoreCall) (id : UploadId) (u : UploadRow)
    → upload_at id s ≡ some u
    → Survives id u (run_all c s calls)
unfolding run_all
run_all-Survives c s [] id u e = (u, e, Became-refl u)
run_all-Survives c s (call ∷ calls) id u e =
    let (v, at, first) = one in
    let (w, at_end, rest) = run_all-Survives c (run c s call) calls id v at in
    (w, at_end, Became-trans first rest)
  where
    one : Survives id u (run c s call)
    one = elim (run-Updates c s call) [
      | inl (batch, saved) ↦
          (u, save_batch-kept batch c s (run c s call) id u saved e, Became-refl u)
      | inr moves ↦ Updates-Survives moves id u e
    ]
