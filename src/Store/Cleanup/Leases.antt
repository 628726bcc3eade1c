-- ===== src/Store/Cleanup/Leases.antt =====
-- crates/g7mb-persistence-sqlite/src/lib.rs: `claim_cleanup_batch`, `complete_cleanup` and
-- `fail_cleanup`.
use g7mediabooster.Base.{
  ℕ, ◌+◌, ◌-◌, ◌*◌, ◌^◌, Bool, true, ◌&&◌, ◌||◌, not, List, [], ◌∷◌, Option, none, some, Result, ok,
  reject_if, ok_or, ◌>>=◌, ◌>>◌, Bytes, all, map, length, is_empty, is_some, ltb, leb, ◌==◌,
  if◌then◌else◌, try_i64, checked_add_i64, within, select_where, count_where, identifier_byte,
}
use g7mediabooster.Domain.{UploadId, created, rejected, failed, deleted, eq_state}
use g7mediabooster.Ports.{OffsetDateTime, Duration, unix_timestamp, as_secs, from_secs}
use g7mediabooster.Store.{UploadRow, DerivativeRow, Store, is_bytes}
use g7mediabooster.Store.Reservations.{update_uploads}
use g7mediabooster.Store.Confirmations.{before_bytes}
use g7mediabooster.Store.Processing.{is_error_code}
use g7mediabooster.Store.Cleanup.{
  CleanupReason, CleanupCandidate, LifecycleRepositoryError, lifecycle_repository_error,
  user_requested, expired_reservation, retention_expired,
}

abbrev pub is_owner : Bytes → Bool
is_owner owner = not (is_empty owner) && leb (length owner) 128 && all identifier_byte owner

-- A time that is absent or has come.
abbrev pub due : ℕ → Option ℕ → Bool
due now none = true
due now (some t) = leb t now

-- The `WHERE` clause of the cleanup.
unfoldable pub is_cleanable : ℕ → ℕ → ℕ → ℕ → UploadRow → Bool
is_cleanable max_attempts now created_before rejected_before u =
    not (eq_state u.state deleted)
    && ltb u.cleanup_attempts max_attempts
    && due now u.cleanup_retry_at
    && due now u.cleanup_lease_until
    && (is_some u.delete_requested_at
        || (eq_state u.state created && leb u.created_at created_before)
        || ((eq_state u.state rejected || eq_state u.state failed)
            && leb u.updated_at rejected_before))

-- `ORDER BY CASE WHEN delete_requested_at IS NOT NULL …, COALESCE(…), id`.
abbrev pub cleanup_time : UploadRow → ℕ
cleanup_time u = elim u.delete_requested_at [ none ↦ u.updated_at | some t ↦ t ]

unfoldable pub cleaned_before : UploadRow → UploadRow → Bool
cleaned_before a b =
    let request_a : Bool = is_some a.delete_requested_at in
    let request_b : Bool = is_some b.delete_requested_at in
    (request_a && not request_b)
    || ((request_a && request_b || not request_a && not request_b)
        && (ltb (cleanup_time a) (cleanup_time b)
            || (cleanup_time a == cleanup_time b && ltb a.id b.id)))

module _ {A : Type 0} where
  unfoldable pub insert_by : (A → A → Bool) → A → List A → List A
  insert_by before x [] = x ∷ []
  insert_by before x (y ∷ ys) = if before x y then x ∷ y ∷ ys else y ∷ insert_by before x ys

  -- `ORDER BY`.
  unfoldable pub sort_by : (A → A → Bool) → List A → List A
  unfolding insert_by
  sort_by before [] = []
  sort_by before (x ∷ xs) = insert_by before x (sort_by before xs)

  -- `LIMIT`.
  unfoldable pub take : ℕ → List A → List A
  take n [] = []
  take n (x ∷ xs) = if n == 0 then [] else x ∷ take (n - 1) xs

abbrev pub cleanup_leased : Bytes → ℕ → UploadRow → UploadRow
cleanup_leased owner until u = record u {
  cleanup_lease_owner = some owner;
  cleanup_lease_until = some until;
  cleanup_attempts = u.cleanup_attempts + 1;
  cleanup_error_code = none;
}

abbrev pub reason_of : UploadRow → CleanupReason
reason_of u =
    if is_some u.delete_requested_at
    then user_requested
    else if eq_state u.state created
    then expired_reservation
    else retention_expired

abbrev pub key_before : DerivativeRow → DerivativeRow → Bool
key_before a b = before_bytes a.object_key.value b.object_key.value

abbrev pub candidate_of : Store → UploadRow → CleanupCandidate
unfolding sort_by
candidate_of s u = record {
  tenant_id = u.tenant_id;
  upload_id = u.id;
  raw_object_key = u.object_key;
  state = u.state;
  transfer = u.transfer;
  multipart_upload_id = u.multipart_upload_id;
  derivative_keys =
      map (λ (d : DerivativeRow). d.object_key)
        (sort_by key_before
          (select_where (λ (d : DerivativeRow). d.upload_id == u.id) s.derivatives));
  reason = reason_of u;
  attempts = u.cleanup_attempts + 1;
}

-- The loop over the selected rows.
unfoldable pub lease_cleanup :
    Bytes
    → ℕ
    → List UploadRow
    → Store
    → Result LifecycleRepositoryError (List CleanupCandidate × Store)
lease_cleanup owner until [] s = ok ([], s)
lease_cleanup owner until (u ∷ us) s = do
  reject_if (ltb (2 ^ 32 - 1) (u.cleanup_attempts + 1))
      (lifecycle_repository_error "cleanup attempts are invalid")
  let s1 = update_uploads (λ (v : UploadRow). v.id == u.id) (cleanup_leased owner until) s
  reject_if (not (count_where (λ (v : UploadRow). v.id == u.id) s.uploads == 1))
      (lifecycle_repository_error "cleanup candidate could not be leased")
  (candidates, s2) ← lease_cleanup owner until us s1
  ok (candidate_of s u ∷ candidates, s2)

-- The rows of the `SELECT`.
unfoldable pub cleanup_rows : Store → ℕ → ℕ → ℕ → ℕ → ℕ → List UploadRow
unfolding cleaned_before
cleanup_rows s max_attempts now created_before rejected_before limit = take limit (
    sort_by cleaned_before
      (select_where (is_cleanable max_attempts now created_before rejected_before) s.uploads))

-- `claim_cleanup_batch`: an error rolls the transaction back.
unfoldable pub claim_cleanup_batch :
    Store
    → Bytes
    → OffsetDateTime
    → OffsetDateTime
    → OffsetDateTime
    → Duration
    → ℕ
    → ℕ
    → Result LifecycleRepositoryError (List CleanupCandidate × Store)
unfolding lease_cleanup cleanup_rows
claim_cleanup_batch s owner now created_before rejected_before lease_for limit max_attempts = do
  reject_if
      (not (is_owner owner)
        || lease_for == 0
        || ltb (from_secs (60 * 60)) lease_for
        || not (within 1 100 limit)
        || not (within 1 100 max_attempts))
      (lifecycle_repository_error "cleanup claim policy is invalid")
  lease_seconds ←
      ok_or (try_i64 (as_secs lease_for)) (lifecycle_repository_error "cleanup lease is invalid")
  until ←
      ok_or (checked_add_i64 (unix_timestamp now) lease_seconds)
        (lifecycle_repository_error "cleanup lease overflow")
  lease_cleanup owner until
      (cleanup_rows s max_attempts (unix_timestamp now) (unix_timestamp created_before)
        (unix_timestamp rejected_before) limit)
      s

-- `WHERE id = ? AND state != 'deleted' AND cleanup_lease_owner = ?`.
abbrev pub owned_cleanup : UploadId → Bytes → UploadRow → Bool
owned_cleanup upload_id owner u =
    u.id == upload_id && not (eq_state u.state deleted) && is_bytes owner u.cleanup_lease_owner

abbrev pub cleaned : ℕ → UploadRow → UploadRow
cleaned now u = record u {
  state = deleted;
  deleted_at = some now;
  updated_at = now;
  cleanup_lease_owner = none;
  cleanup_lease_until = none;
  cleanup_retry_at = none;
  cleanup_error_code = none;
}

-- `complete_cleanup`.
unfoldable pub complete_cleanup :
    Store → UploadId → Bytes → OffsetDateTime → Result LifecycleRepositoryError Store
complete_cleanup s upload_id owner now = do
  reject_if (not (count_where (owned_cleanup upload_id owner) s.uploads == 1))
      (lifecycle_repository_error "cleanup lease is not owned by this worker")
  ok (update_uploads (owned_cleanup upload_id owner) (cleaned (unix_timestamp now)) s)

abbrev pub cleanup_failed : ℕ → ℕ → Bytes → UploadRow → UploadRow
cleanup_failed now retry_at error_code u = record u {
  cleanup_lease_owner = none;
  cleanup_lease_until = none;
  cleanup_retry_at = some retry_at;
  cleanup_error_code = some error_code;
  updated_at = now;
}

-- `fail_cleanup`.
unfoldable pub fail_cleanup :
    Store
    → UploadId
    → Bytes
    → OffsetDateTime
    → OffsetDateTime
    → Bytes
    → Result LifecycleRepositoryError Store
fail_cleanup s upload_id owner now retry_at error_code = do
  reject_if (leb retry_at now || not (is_error_code error_code))
      (lifecycle_repository_error "cleanup failure policy is invalid")
  reject_if (not (count_where (owned_cleanup upload_id owner) s.uploads == 1))
      (lifecycle_repository_error "failed cleanup lease is not owned by this worker")
  ok (
      update_uploads (owned_cleanup upload_id owner)
        (cleanup_failed (unix_timestamp now) (unix_timestamp retry_at) error_code) s)
