-- ===== src/Store/Confirmations.antt =====
-- crates/g7mb-persistence-sqlite/src/lib.rs: the rest of `impl UploadRepository for SqliteStore`,
-- what is read of one upload, its confirmation and its abort.
use g7mediabooster.Base.{
  ℕ, Bool, true, false, ◌&&◌, ◌||◌, not, List, [], ◌∷◌, ◌++◌, Option, none, some, Result, ok, err,
  reject_if, ok_or, ◌>>=◌, ◌>>◌, Bytes, any, map, length, is_empty, is_some, ltb, ◌==◌, eq_bytes,
  if◌then◌else◌, try_i64, find_where, select_where, count_where, max,
}
use g7mediabooster.Domain.{
  UploadId, UploadState, created, uploaded, quarantined, ready, deleted, eq_state,
}
use g7mediabooster.Ports.{OffsetDateTime, unix_timestamp}
use g7mediabooster.Uploads.{
  UploadRepositoryError, backend, StoredUploadReservation, StoredDerivative, UploadStatusSnapshot,
}
use g7mediabooster.Store.{UploadRow, JobRow, queued, DerivativeRow, PolicyRow, Store}
use g7mediabooster.Store.Reservations.{update_uploads}

-- `WHERE tenant_id = ? AND id = ?`.
abbrev pub is_upload : Bytes → UploadId → UploadRow → Bool
is_upload tenant_id upload_id u = eq_bytes u.tenant_id tenant_id && u.id == upload_id

abbrev pub upload_of : Store → Bytes → UploadId → Option UploadRow
upload_of s tenant_id upload_id = find_where (is_upload tenant_id upload_id) s.uploads

-- `stored_upload_from_row`, on decoded values.
abbrev pub stored_of : Option UploadRow → Option StoredUploadReservation
stored_of none = none
stored_of (some u) = some (record {
  upload_id = u.id;
  object_key = u.object_key;
  expected_size_bytes = u.expected_size_bytes;
  state = u.state;
  transfer = u.transfer;
  multipart_upload_id = u.multipart_upload_id;
})

-- `find_upload`.
unfoldable pub find_upload : Store → Bytes → UploadId → Option StoredUploadReservation
find_upload s tenant_id upload_id = stored_of (upload_of s tenant_id upload_id)

-- The order of `TEXT` columns.
abbrev pub before_bytes : Bytes → Bytes → Bool
before_bytes [] [] = false
before_bytes [] (y ∷ ys) = true
before_bytes (x ∷ xs) [] = false
before_bytes (x ∷ xs) (y ∷ ys) = ltb x y || (x == y && before_bytes xs ys)

-- `ORDER BY preset_id, variant`.
abbrev pub before_derivative : DerivativeRow → DerivativeRow → Bool
before_derivative a b =
    before_bytes a.preset_id b.preset_id
    || (eq_bytes a.preset_id b.preset_id && before_bytes a.variant b.variant)

unfoldable pub insert_ordered : DerivativeRow → List DerivativeRow → List DerivativeRow
insert_ordered d [] = d ∷ []
insert_ordered d (x ∷ xs) = if before_derivative d x then d ∷ x ∷ xs else x ∷ insert_ordered d xs

unfoldable pub order_by : List DerivativeRow → List DerivativeRow
unfolding insert_ordered
order_by [] = []
order_by (d ∷ ds) = insert_ordered d (order_by ds)

abbrev pub stored_derivative : DerivativeRow → StoredDerivative
stored_derivative d = record {
  preset_id = d.preset_id;
  variant = d.variant;
  object_key = d.object_key;
  content_type = d.content_type;
  byte_len = d.byte_len;
}

unfoldable pub status_of : Store → Option UploadRow → Option UploadStatusSnapshot
unfolding order_by
status_of s none = none
status_of s (some u) =
    let deletion_pending : Bool = is_some u.delete_requested_at && not (eq_state u.state deleted) in
    some (record {
      upload_id = u.id;
      state = u.state;
      detected_content_type = u.detected_content_type;
      error_code = u.error_code;
      deletion_pending = deletion_pending;
      derivatives =
          if deletion_pending || eq_state u.state deleted
          then []
          else map stored_derivative
              (order_by (select_where (λ (d : DerivativeRow). d.upload_id == u.id) s.derivatives));
    })

-- `find_status`.
unfoldable pub find_status : Store → Bytes → UploadId → Option UploadStatusSnapshot
find_status s tenant_id upload_id = status_of s (upload_of s tenant_id upload_id)

abbrev pub delivery_of : Option UploadRow → Option Bool
delivery_of none = none
delivery_of (some u) = some (eq_state u.state ready && not (is_some u.delete_requested_at))

-- `is_delivery_allowed`.
unfoldable pub is_delivery_allowed : Store → Bytes → UploadId → Option Bool
is_delivery_allowed s tenant_id upload_id = delivery_of (upload_of s tenant_id upload_id)

abbrev pub later : ℕ → Option ℕ → ℕ
later n none = n
later n (some m) = max n m

-- `SELECT MAX(revision) … WHERE tenant_id = ?`.
unfoldable pub latest_revision : Bytes → List PolicyRow → Option ℕ
latest_revision tenant_id [] = none
latest_revision tenant_id (p ∷ ps) =
    let rest = latest_revision tenant_id ps in
    if eq_bytes p.tenant_id tenant_id then some (later p.revision rest) else rest

-- A plain `INSERT` of a job, under its unique keys.
unfoldable pub insert_job : JobRow → Store → Result UploadRepositoryError Store
insert_job job s = do
  reject_if
      (any
        (λ (j : JobRow).
          j.id == job.id || (j.upload_id == job.upload_id && eq_bytes j.preset_id job.preset_id))
        s.jobs)
      (backend "SQLite backend: UNIQUE constraint failed")
  ok (record s { jobs = s.jobs ++ job ∷ [] })

abbrev pub in_state : UploadState → Bytes → UploadId → UploadRow → Bool
in_state state tenant_id upload_id u = is_upload tenant_id upload_id u && eq_state u.state state

-- The two updates of `mark_quarantined_and_enqueue`.
abbrev pub to_uploaded : ℕ → ℕ → UploadRow → UploadRow
to_uploaded actual_size_bytes now u = record u {
  state = uploaded;
  actual_size_bytes = some actual_size_bytes;
  updated_at = now;
}

abbrev pub to_quarantined : ℕ → UploadRow → UploadRow
to_quarantined now u = record u { state = quarantined; updated_at = now }

-- `mark_quarantined_and_enqueue`: an error rolls the transaction back. The job's identifier is
-- fresh, as `Uuid::now_v7` gives it.
unfoldable pub mark_quarantined_and_enqueue :
    Store → Bytes → UploadId → ℕ → Bytes → OffsetDateTime → ℕ → Result UploadRepositoryError Store
unfolding insert_job
mark_quarantined_and_enqueue s tenant_id upload_id actual_size_bytes preset_id now job_id = do
  reject_if (is_empty preset_id || ltb 128 (length preset_id))
      (backend "initial processing preset is invalid")
  _ ← ok_or (try_i64 actual_size_bytes) (backend "actual upload size exceeds SQLite range")
  reject_if (not (count_where (in_state created tenant_id upload_id) s.uploads == 1))
      (backend "upload is not in the created state")
  let s1 =
      update_uploads (in_state created tenant_id upload_id)
        (to_uploaded actual_size_bytes (unix_timestamp now)) s
  reject_if (not (count_where (in_state uploaded tenant_id upload_id) s1.uploads == 1))
      (backend "upload could not enter quarantine")
  let s2 =
      update_uploads (in_state uploaded tenant_id upload_id) (to_quarantined (unix_timestamp now))
        s1
  insert_job
      (record {
        id = job_id;
        upload_id = upload_id;
        preset_id = preset_id;
        site_policy_revision = latest_revision tenant_id s.policies;
        state = queued;
        attempts = 0;
        available_at = unix_timestamp now;
        lease_owner = none;
        lease_until = none;
        last_error_code = none;
        created_at = unix_timestamp now;
        updated_at = unix_timestamp now;
      })
      s2

abbrev pub to_deleted : ℕ → UploadRow → UploadRow
to_deleted now u = record u { state = deleted; deleted_at = some now; updated_at = now }

abbrev pub is_deleted_row : Option UploadRow → Bool
is_deleted_row none = false
is_deleted_row (some u) = eq_state u.state deleted

-- `mark_deleted`.
unfoldable pub mark_deleted :
    Store → Bytes → UploadId → OffsetDateTime → Result UploadRepositoryError Store
mark_deleted s tenant_id upload_id now =
    if count_where (in_state created tenant_id upload_id) s.uploads == 1
    then ok
        (update_uploads (in_state created tenant_id upload_id) (to_deleted (unix_timestamp now)) s)
    else if is_deleted_row (upload_of s tenant_id upload_id)
    then ok s
    else err (backend "upload is not abortable from its current state")
